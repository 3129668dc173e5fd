-- ===== src/Usage/Outbox.antt =====
-- src/core/usage-v2-coordinator.ts: the outbox of usage events. Each is a step of the run, numbered
-- when it is enqueued, and flushed to the host, one flush of a run at a time.
pub mod Delivery
pub mod Flush
pub mod Order
pub mod Queue
pub mod Sorting
pub mod Moves
pub mod Failing
pub mod Answered
pub mod Rejections
pub mod Reviews
pub mod Flushing
pub mod Enqueued
pub mod Kept
pub mod History
pub mod Stage
pub mod Rejected
pub mod Restored
pub mod Examples
use shan_hai_edu_ppt.Base.{
  ℕ, ◌+◌, max, Bool, true, false, not, ◌&&◌, ◌||◌, Option, none, some, is_some, List, [], ◌∷◌,
  String, is_text, append_text, keep, any, ltb, leb, if◌then◌else◌, Result, ok, err, ◌>>=◌,
}
use shan_hai_edu_ppt.Contracts.{
  RunStatus, planning, executing, page_review, deck_review, revising, delivering, needs_human,
  has_status, is_status, is_v4,
}
use shan_hai_edu_ppt.Contracts.Failures.{
  technical_configuration_required, internal_failure, usage_v2,
}
use shan_hai_edu_ppt.Contracts.Quality.{
  provider_result_failed, critical, open_issue, IssueSummary, fixed,
}
use shan_hai_edu_ppt.Contracts.UsageAccounting.{
  UsageEvent, BillStatus, trimmed_event, is_valid_event,
}
use shan_hai_edu_ppt.Policy.{PolicyCode, RunPolicyState, transition_run}
use shan_hai_edu_ppt.Ports.{
  StepStatus, running, completed, failed, Tool, report_usage_v2, EventDelivery, event_pending,
  event_acknowledged, event_rejected, Output, usage_event_output, StepRecord, NewAgentEvent,
  issue_detected, issue_resolved, phase_changed, run_resumed, other_event, AgentEvent, StoredRun,
}
use shan_hai_edu_ppt.Ports.Repository.{get_step, put_step, append_event}
use shan_hai_edu_ppt.Usage.{is_usage_v2}
use shan_hai_edu_ppt.Usage.Enqueue.{Hashes}
use shan_hai_edu_ppt.Lifecycle.Failure.{LifecycleCode, fail_visual_deck_v4_transaction}

-- What the operations of the outbox throw.
pub data OutboxCode : Type 0 where
  usage_run_required outbox_invalid outbox_not_found outbox_not_retryable : OutboxCode
  event_identity_conflict event_contract_invalid : OutboxCode
  outbox_policy : PolicyCode → OutboxCode
  outbox_failure : LifecycleCode → OutboxCode

-- `usageReviewResumeStatuses`.
abbrev pub usage_review_resume_statuses : List RunStatus
usage_review_resume_statuses =
    planning ∷ executing ∷ page_review ∷ deck_review ∷ revising ∷ delivering ∷ []

abbrev pub is_resumable : RunStatus → Bool
is_resumable status = has_status status usage_review_resume_statuses

pub record UsageOutboxOutput : Type 0 where
  pub event : UsageEvent
  pub delivery_state : EventDelivery
  pub next_attempt_at : Option ℕ
  pub bill_status : Option BillStatus
  pub blocked_run_status : Option RunStatus

abbrev pub resumable_only : Option RunStatus → Option RunStatus
resumable_only none = none
resumable_only (some status) = if is_resumable status then some status else none

abbrev pub read_event : Output → Option UsageOutboxOutput
read_event (usage_event_output e (some state) next bill blocked) =
    if is_valid_event e
    then some (record {
      event = e;
      delivery_state = state;
      next_attempt_at = next;
      bill_status = bill;
      blocked_run_status = resumable_only blocked;
    })
    else none
read_event _ = none

abbrev pub or_invalid : Option UsageOutboxOutput → Result OutboxCode UsageOutboxOutput
or_invalid none = err outbox_invalid
or_invalid (some o) = ok o

unfoldable pub event_step_output : StepRecord → Result OutboxCode UsageOutboxOutput
event_step_output s = or_invalid (read_event s.output)

abbrev pub written : UsageOutboxOutput → Output
written o =
    usage_event_output o.event (some o.delivery_state) o.next_attempt_at o.bill_status
      o.blocked_run_status

abbrev pub is_usage_report : Tool → Bool
is_usage_report report_usage_v2 = true
is_usage_report _ = false

unfoldable pub outbox_step_key : String → String → String
outbox_step_key run_id event_id = append_text run_id (append_text ":usage-v2:event:" event_id)

abbrev pub put_outbox : StepRecord → StoredRun → StoredRun
put_outbox step s = record s { steps = put_step step s.steps }

-- The largest number of an event, or 0.
unfoldable pub last_event_sequence : List StepRecord → Result OutboxCode ℕ
last_event_sequence [] = ok 0
last_event_sequence (s ∷ ss) =
    let rest = last_event_sequence ss in
    if is_usage_report s.tool
    then (event_step_output s >>= λ o. rest >>= λ n. ok (max o.event.sequence n))
    else rest

-- `event_id` is the candidate's, which need not be trimmed.
abbrev pub event_step : (UsageEvent → String) → StoredRun → String → UsageEvent → ℕ → StepRecord
event_step hash s event_id e now = record {
  id = append_text "step-" event_id;
  run_id = s.run.id;
  idempotency_key = outbox_step_key s.run.id event_id;
  input_hash = hash e;
  tool = report_usage_v2;
  status = running;
  budget_units = 0;
  budget_reservation_id = none;
  external_operation_id = some e.provider_operation_id;
  error_code = none;
  output = usage_event_output e (some event_pending) none none none;
  created_at = now;
  updated_at = now;
}

abbrev pub enqueue_by :
    (UsageEvent → String)
    → UsageEvent
    → ℕ
    → StoredRun
    → Option StepRecord
    → Result OutboxCode StoredRun
enqueue_by hash candidate now s (some step) = event_step_output step >>= λ o.
    if is_text step.input_hash (hash (record candidate { sequence = o.event.sequence }))
    then ok s
    else err event_identity_conflict
enqueue_by hash candidate now s none = last_event_sequence s.steps >>= λ last.
    let e = trimmed_event (record candidate { sequence = last + 1 }) in
    if is_valid_event e
    then ok (put_outbox (event_step hash s candidate.event_id e now) s)
    else err event_contract_invalid

unfoldable pub enqueue_event :
    (UsageEvent → String) → UsageEvent → ℕ → StoredRun → Result OutboxCode StoredRun
enqueue_event hash candidate now s =
    enqueue_by hash candidate now s (get_step (outbox_step_key s.run.id candidate.event_id) s.steps)

abbrev pub found_step : Option StepRecord → Result OutboxCode StepRecord
found_step none = err outbox_not_found
found_step (some step) = ok step

abbrev pub found_report : Option StepRecord → Result OutboxCode StepRecord
found_report none = err outbox_not_found
found_report (some step) = if is_usage_report step.tool then ok step else err outbox_not_found

-- The run is the one that the key starts with.
unfoldable pub update_outbox :
    String
    → StepStatus
    → EventDelivery
    → Option String
    → Option ℕ
    → Option BillStatus
    → ℕ
    → StoredRun
    → Result OutboxCode StoredRun
update_outbox key status state code next bill now s = found_step (get_step key s.steps) >>= λ step.
    event_step_output step >>= λ o. ok (
      put_outbox
        (record step {
          status = status;
          error_code = code;
          output =
              written
                (record o { delivery_state = state; next_attempt_at = next; bill_status = bill });
          updated_at = now;
        })
        s)
