-- ===== src/Usage/Settlement.antt =====
-- src/core/usage-v2-coordinator.ts: settling a run's usage with the host, once the run has ended and its
-- events are acknowledged, and what becomes of a completed run whose settlement the host rejects.
pub mod Reconcile
pub mod Steps
pub mod Asked
pub mod Settled
pub mod Revived
mod Examples
use shan_hai_edu_ppt.Base.{
  ℕ, ◌+◌, Bool, true, false, not, ◌&&◌, ◌||◌, Option, none, some, List, String, is_text, any, ltb,
  if◌then◌else◌, Result, ok, err, ◌>>=◌,
}
use shan_hai_edu_ppt.Contracts.{RunStatus, completed, failed, is_status, is_v4}
use shan_hai_edu_ppt.Contracts.Failures.{
  usage_v2_finalization_rejected, usage_v2, internal_failure, RunFailureCode,
}
use shan_hai_edu_ppt.Contracts.Lifecycle.{LifecyclePayload, RunFailure, run_stage}
use shan_hai_edu_ppt.Contracts.UsageAccounting.{
  UsageEvent, UsageRequestError, request_rejected, request_unknown, other_error, UsageRunBill,
  BillStatus, active, reconciling, review_required, settled, cap_exceeded, legacy_reconciliation,
}
use shan_hai_edu_ppt.Lease.{is_pending_media_reconciliation_step}
use shan_hai_edu_ppt.Policy.{
  PolicyCode, RunPolicyState, is_terminal_status, fail_completed_usage_v2_finalization,
  restore_completed_usage_v2_finalization,
}
use shan_hai_edu_ppt.Ports.{
  StepStatus, running, Tool, DeliveryState, pending, acknowledged, finalize_output, StepRecord,
  RunRecord, NewAgentEvent, run_failed, legacy_run_failed, run_completed, run_resumed,
  phase_changed, AgentEvent, StoredRun,
}
use shan_hai_edu_ppt.Ports.Repository.{get_step, put_step, append_event}
use shan_hai_edu_ppt.Lifecycle.{v4_lifecycle_payload, find_last}
use shan_hai_edu_ppt.Lifecycle.Failure.{run_input}
use shan_hai_edu_ppt.Usage.{
  is_usage_v2, usage_v2_finalize_step_key, finalize_request_key, UsageFinalizeOutput,
  finalize_step_output, is_finalize,
}
use shan_hai_edu_ppt.Usage.Enqueue.{Hashes}
use shan_hai_edu_ppt.Usage.Outbox.{OutboxCode}
use shan_hai_edu_ppt.Usage.Outbox.Delivery.{is_failed_step, is_done}
use shan_hai_edu_ppt.Usage.Outbox.Flush.{is_later, flush_events}

pub data SettlementCode : Type 0 where
  settlement_run_required finalize_missing finalize_invalid : SettlementCode
  finalize_not_found finalize_not_retryable completed_event_missing : SettlementCode
  settlement_policy : PolicyCode → SettlementCode
  settlement_outbox : OutboxCode → SettlementCode

pub record FinalizationUpdate : Type 0 where
  pub status : StepStatus
  pub delivery_state : DeliveryState
  pub error_code : Option String
  pub next_attempt_at : Option ℕ
  pub bill : Option BillStatus
  pub fail_completed_run : Bool
  pub recover_completed_run : Bool

abbrev pub is_run_completed : NewAgentEvent → Bool
is_run_completed (run_completed payload) = true
is_run_completed _ = false

abbrev pub is_run_resumed : NewAgentEvent → Bool
is_run_resumed run_resumed = true
is_run_resumed _ = false

abbrev pub is_run_failed : NewAgentEvent → Bool
is_run_failed (run_failed failure) = true
is_run_failed (legacy_run_failed code) = true
is_run_failed _ = false

abbrev is_finalization_rejected : RunFailureCode → Bool
is_finalization_rejected usage_v2_finalization_rejected = true
is_finalization_rejected _ = false

-- `event.payload.errorCode === USAGE_V2_FINALIZATION_REJECTED_CODE`, of a failure.
abbrev pub is_rejected_failure : NewAgentEvent → Bool
is_rejected_failure (run_failed failure) = is_finalization_rejected failure.error_code
is_rejected_failure (legacy_run_failed code) = is_text code "USAGE_V2_FINALIZATION_REJECTED"
is_rejected_failure _ = false

abbrev pub finalization_failure : RunRecord → RunFailure
finalization_failure run = record {
  payload = v4_lifecycle_payload run run_stage (run_input run 0 internal_failure);
  error_code = usage_v2_finalization_rejected;
  category = usage_v2;
  accounting = run.terminal_accounting;
}

abbrev pub with_run : RunPolicyState → ℕ → StoredRun → StoredRun
with_run policy now s = record s { run = record s.run { policy = policy; updated_at = now } }

abbrev pub announce_failed : RunStatus → StoredRun → StoredRun
announce_failed from s =
    append_event (append_event s (phase_changed from failed "USAGE_V2_FINALIZATION_REJECTED"))
      (run_failed (finalization_failure s.run))

unfoldable pub fail_completed_run_for_finalization : ℕ → StoredRun → Result SettlementCode StoredRun
fail_completed_run_for_finalization now s =
    if is_status s.run.status failed
    then ok s
    else if not (is_status s.run.status completed) || not (is_v4 s.run.presentation_mode)
    then ok s
    else if not (any (λ e. is_run_completed e.body) s.events)
    then err completed_event_missing
    else elim (fail_completed_usage_v2_finalization s.run.policy) [
      | err e ↦ err (settlement_policy e)
      | ok policy ↦ ok (announce_failed s.run.status (with_run policy now s))
    ]

abbrev pub sequence_or_zero : Option AgentEvent → ℕ
sequence_or_zero none = 0
sequence_or_zero (some e) = e.sequence

-- The last failure since the run was last resumed.
abbrev pub last_failure : List AgentEvent → Option AgentEvent
last_failure es =
    let resumed = sequence_or_zero (find_last (λ e. is_run_resumed e.body) es) in
    find_last (λ e. ltb resumed e.sequence && is_run_failed e.body) es

abbrev pub is_by_finalization : Option AgentEvent → Bool
is_by_finalization none = false
is_by_finalization (some e) = is_rejected_failure e.body

abbrev pub announce_completed : RunStatus → String → LifecyclePayload → StoredRun → StoredRun
announce_completed from reason payload s =
    append_event (append_event (append_event s (phase_changed from completed reason)) run_resumed)
      (run_completed (some payload))

-- The payload of the last completion; `none` where it is missing, or from before V4.
abbrev pub payload_of : NewAgentEvent → Option LifecyclePayload
payload_of (run_completed payload) = payload
payload_of _ = none

abbrev pub completed_payload : Option AgentEvent → Option LifecyclePayload
completed_payload none = none
completed_payload (some e) = payload_of e.body

abbrev pub restore_by :
    Option LifecyclePayload → String → ℕ → StoredRun → Result SettlementCode StoredRun
restore_by none reason now s = err completed_event_missing
restore_by (some payload) reason now s =
    elim (restore_completed_usage_v2_finalization s.run.policy) [
      | err e ↦ err (settlement_policy e)
      | ok policy ↦ ok (announce_completed s.run.status reason payload (with_run policy now s))
    ]

unfoldable pub restore_completed_run_after_finalization :
    String → ℕ → StoredRun → Result SettlementCode StoredRun
restore_completed_run_after_finalization reason now s =
    if not (is_status s.run.status failed) || not (is_v4 s.run.presentation_mode)
    then ok s
    else if not (is_by_finalization (last_failure s.events))
    then ok s
    else restore_by (completed_payload (find_last (λ e. is_run_completed e.body) s.events)) reason
        now s

abbrev pub found_finalization :
    SettlementCode → Option StepRecord → Result SettlementCode StepRecord
found_finalization code none = err code
found_finalization code (some step) = if is_finalize step.tool then ok step else err code

abbrev pub or_finalize_invalid :
    Option UsageFinalizeOutput → Result SettlementCode UsageFinalizeOutput
or_finalize_invalid none = err finalize_invalid
or_finalize_invalid (some o) = ok o

abbrev pub restored_reason : StepStatus → String
restored_reason status =
    if is_done status
    then "USAGE_V2_FINALIZATION_RECONCILED"
    else "USAGE_V2_FINALIZATION_RETRY_SCHEDULED"

-- The finalization's step after the update; the key that it had is the request's.
abbrev pub updated_step : FinalizationUpdate → ℕ → StepRecord → StepRecord
updated_step u now step = record step {
  status = u.status;
  error_code = u.error_code;
  output =
      finalize_output (finalize_request_key step.run_id) u.delivery_state u.next_attempt_at u.bill;
  updated_at = now;
}

unfoldable pub update_finalization :
    FinalizationUpdate → ℕ → StoredRun → Result SettlementCode StoredRun
update_finalization u now s =
    found_finalization finalize_missing (get_step (usage_v2_finalize_step_key s.run.id) s.steps)
    >>= λ step. or_finalize_invalid (finalize_step_output step) >>= λ o.
        let put : StoredRun = record s { steps = put_step (updated_step u now step) s.steps } in
        (if u.fail_completed_run then fail_completed_run_for_finalization now put else ok put)
        >>= λ t.
            if u.recover_completed_run
            then restore_completed_run_after_finalization (restored_reason u.status) now t
            else ok t
