-- ===== src/Usage.antt =====
-- src/core/usage-v2-coordinator.ts: the outbox step by which a run's usage bill is finalized.
pub mod Enqueue
pub mod Outbox
pub mod Settlement
use Prim.Native.String.{◌++◌}
use shan_hai_edu_ppt.Base.{
  ℕ, Bool, true, false, not, ◌&&◌, Option, none, some, String, is_text, if◌then◌else◌,
}
use shan_hai_edu_ppt.Contracts.UsageAccounting.{BillStatus, settled, cap_exceeded}
use shan_hai_edu_ppt.Ports.{
  StepRecord, StepStatus, completed, running, Tool, finalize_usage_v2, Output, finalize_output,
  DeliveryState, pending, acknowledged, AccountingProtocol, frameflow_usage_v2,
}

-- `accountingProtocolFor(run) === 'FRAMEFLOW_USAGE_V2'`.
abbrev pub is_usage_v2 : Option AccountingProtocol → Bool
is_usage_v2 (some frameflow_usage_v2) = true
is_usage_v2 _ = false

-- The keys are shut: proofs need no more of them than that they are functions of the run's id.
unfoldable pub usage_v2_finalize_step_key : String → String
usage_v2_finalize_step_key run_id = run_id ++ ":usage-v2:finalize"

unfoldable pub finalize_request_key : String → String
finalize_request_key run_id = "finalize:" ++ run_id

pub record UsageFinalizeOutput : Type 0 where
  pub delivery_state : DeliveryState
  pub next_attempt_at : Option ℕ
  pub bill : Option BillStatus

abbrev read_finalize : String → Output → Option UsageFinalizeOutput
read_finalize key (finalize_output k state next bill) =
    if is_text k key
    then some (record { delivery_state = state; next_attempt_at = next; bill = bill })
    else none
read_finalize key _ = none

-- `none` where the code throws USAGE_V2_FINALIZE_OUTBOX_INVALID.
unfoldable pub finalize_step_output : StepRecord → Option UsageFinalizeOutput
unfolding finalize_request_key
finalize_step_output s = read_finalize (finalize_request_key s.run_id) s.output

abbrev pub is_bill_closed : Option BillStatus → Bool
is_bill_closed (some settled) = true
is_bill_closed (some cap_exceeded) = true
is_bill_closed _ = false

abbrev is_acknowledged : DeliveryState → Bool
is_acknowledged acknowledged = true
is_acknowledged _ = false

abbrev is_pending : DeliveryState → Bool
is_pending pending = true
is_pending _ = false

abbrev is_scheduled : Option ℕ → Bool
is_scheduled none = false
is_scheduled (some t) = true

abbrev pub is_finalize : Tool → Bool
is_finalize finalize_usage_v2 = true
is_finalize _ = false

abbrev is_completed : StepStatus → Bool
is_completed completed = true
is_completed _ = false

abbrev is_running : StepStatus → Bool
is_running running = true
is_running _ = false

abbrev output_acknowledged : Option UsageFinalizeOutput → Bool
output_acknowledged none = false
output_acknowledged (some o) = is_acknowledged o.delivery_state && is_bill_closed o.bill

abbrev output_scheduled : Option UsageFinalizeOutput → Bool
output_scheduled none = false
output_scheduled (some o) = is_pending o.delivery_state && is_scheduled o.next_attempt_at

unfoldable pub is_usage_v2_run_finalization_acknowledged : Option StepRecord → Bool
unfolding finalize_step_output
is_usage_v2_run_finalization_acknowledged none = false
is_usage_v2_run_finalization_acknowledged (some s) =
    is_finalize s.tool && is_completed s.status && output_acknowledged (finalize_step_output s)

unfoldable pub is_usage_v2_run_finalization_retry_scheduled : Option StepRecord → Bool
unfolding finalize_step_output
is_usage_v2_run_finalization_retry_scheduled none = false
is_usage_v2_run_finalization_retry_scheduled (some s) =
    is_finalize s.tool && is_running s.status && output_scheduled (finalize_step_output s)
