-- ===== src/Usage/Outbox/Delivery.antt =====
-- src/core/usage-v2-coordinator.ts: what becomes of a run whose event the host rejects, and the review
-- that ends when the event is delivered after all.
use shan_hai_edu_ppt.Base.{
  ℕ, ◌+◌, Bool, true, false, not, ◌&&◌, ◌||◌, Option, none, some, List, [], ◌∷◌, String, is_text,
  append_text, keep, any, if◌then◌else◌, Result, ok, err, ◌>>=◌,
}
use shan_hai_edu_ppt.Contracts.{RunStatus, needs_human, is_status, is_v4}
use shan_hai_edu_ppt.Contracts.Failures.{
  technical_configuration_required, internal_failure, usage_v2,
}
use shan_hai_edu_ppt.Contracts.Quality.{
  provider_result_failed, critical, open_issue, IssueSummary, fixed,
}
use shan_hai_edu_ppt.Policy.{transition_run}
use shan_hai_edu_ppt.Ports.{
  StepStatus, completed, failed, event_rejected, StepRecord, NewAgentEvent, issue_detected,
  issue_resolved, phase_changed, run_resumed, other_event, AgentEvent, StoredRun,
}
use shan_hai_edu_ppt.Ports.Repository.{get_step, append_event}
use shan_hai_edu_ppt.Usage.Enqueue.{Hashes}
use shan_hai_edu_ppt.Lifecycle.Failure.{fail_visual_deck_v4_transaction}
use shan_hai_edu_ppt.Usage.Outbox.{
  OutboxCode, outbox_policy, outbox_failure, is_resumable, event_step_output, written,
  is_usage_report, put_outbox, found_report,
}

abbrev pub is_failed_step : StepStatus → Bool
is_failed_step failed = true
is_failed_step _ = false

abbrev pub is_done : StepStatus → Bool
is_done completed = true
is_done _ = false

abbrev pub is_failed_report : StepRecord → Bool
is_failed_report s = is_usage_report s.tool && is_failed_step s.status

abbrev pub or_else {ℓ} : {A : Type ℓ} → Option A → Option A → Option A
or_else none o = o
or_else (some x) o = some x

-- The first status that one of the steps keeps for its run.
unfoldable pub first_blocked : List StepRecord → Result OutboxCode (Option RunStatus)
first_blocked [] = ok none
first_blocked (s ∷ ss) =
    let rest = first_blocked ss in
    event_step_output s >>= λ o. rest >>= λ later. ok (or_else o.blocked_run_status later)

abbrev pub issue_id_of : StepRecord → String
issue_id_of step = append_text step.id ":usage-v2-delivery"

abbrev pub after_event : String → Bool → NewAgentEvent → Bool
after_event id is_open (issue_detected p) = is_open || is_text p.id id
after_event id is_open (issue_resolved p r) = is_open && not (is_text p id)
after_event id is_open _ = is_open

-- Whether the set of the open issues has the id, after the events.
unfoldable pub is_open_issue : String → Bool → List AgentEvent → Bool
is_open_issue id is_open [] = is_open
is_open_issue id is_open (e ∷ es) = is_open_issue id (after_event id is_open e.body) es

abbrev pub delivery_issue : StepRecord → String → IssueSummary
delivery_issue step code = record {
  id = issue_id_of step;
  category = provider_result_failed;
  severity = critical;
  summary = append_text "Usage V2 事件被宿主明确拒绝（" (append_text code "），已停止自动重试并保留原事件。");
  slide_ids = [];
  source_chunk_ids = [];
  status = open_issue;
  repair_domain = none;
}

abbrev pub detect_delivery_issue : StepRecord → String → StoredRun → StoredRun
detect_delivery_issue step code s =
    if is_open_issue (issue_id_of step) false s.events
    then s
    else append_event s (issue_detected (delivery_issue step code))

-- A run that is not V4 waits for an administrator.
abbrev pub wait_for_human : String → ℕ → StoredRun → Result OutboxCode StoredRun
wait_for_human code now s = elim (transition_run s.run.policy needs_human) [
  | err e ↦ err (outbox_policy e)
  | ok policy ↦ ok (
      append_event
        (append_event (record s { run = record s.run { policy = policy; updated_at = now } })
          (phase_changed s.run.status needs_human code))
        (other_event "approval.required"))
]

abbrev pub fail_deck : Hashes → ℕ → StoredRun → Result OutboxCode StoredRun
fail_deck hashes now s =
    elim (fail_visual_deck_v4_transaction hashes technical_configuration_required
      (some internal_failure) (some usage_v2) now s) [
        | err e ↦ err (outbox_failure e)
        | ok (done, t) ↦ ok t
      ]

abbrev pub block_run : Hashes → String → ℕ → StoredRun → Result OutboxCode StoredRun
block_run hashes code now s =
    if not (is_resumable s.run.status)
    then ok s
    else if is_v4 s.run.presentation_mode
    then fail_deck hashes now s
    else wait_for_human code now s

-- The status to go back to: the one that the step keeps, the run's, or one that another step keeps.
abbrev pub status_to_keep : Option RunStatus → RunStatus → Option RunStatus → Option RunStatus
status_to_keep kept current inherited =
    or_else kept (if is_resumable current then some current else inherited)

unfoldable pub reject_outbox :
    Hashes → String → String → ℕ → StoredRun → Result OutboxCode StoredRun
reject_outbox hashes key code now s = found_report (get_step key s.steps) >>= λ step.
    event_step_output step >>= λ o. first_blocked (keep is_failed_report s.steps) >>= λ inherited.
    let rejected = record step {
      status = failed;
      error_code = some code;
      output = written (record o {
        delivery_state = event_rejected;
        next_attempt_at = none;
        bill_status = none;
        blocked_run_status = status_to_keep o.blocked_run_status s.run.status inherited;
      });
      updated_at = now;
    } in
    block_run hashes code now (detect_delivery_issue step code (put_outbox rejected s))

abbrev pub resolve_delivery_issue : StepRecord → StoredRun → StoredRun
resolve_delivery_issue step s =
    if is_open_issue (issue_id_of step) false s.events
    then append_event s (issue_resolved (issue_id_of step) fixed)
    else s

-- The run goes back to the status that was kept.
abbrev pub unblock_run : RunStatus → ℕ → StoredRun → StoredRun
unblock_run status now s =
    append_event
      (append_event
        (record s {
          run = record s.run {
            policy = record s.run.policy {
              status = status;
              resume_state = none;
              version = s.run.version + 1;
            };
            updated_at = now;
          };
        })
        (phase_changed needs_human status "USAGE_V2_EVENT_RECONCILED"))
      run_resumed

abbrev pub unblock_if : Bool → Option RunStatus → ℕ → StoredRun → StoredRun
unblock_if has_failed none now s = s
unblock_if has_failed (some status) now s =
    if not has_failed && is_status s.run.status needs_human then unblock_run status now s else s

-- `output.blockedRunStatus`, or one that any step of the outbox keeps.
abbrev pub kept_status : Option RunStatus → List StepRecord → Result OutboxCode (Option RunStatus)
kept_status (some status) steps = ok (some status)
kept_status none steps = first_blocked (keep (λ s. is_usage_report s.tool) steps)

unfoldable pub complete_usage_review : String → ℕ → StoredRun → Result OutboxCode (Bool × StoredRun)
complete_usage_review key now s = found_report (get_step key s.steps) >>= λ step.
    event_step_output step >>= λ o.
    if not (is_done step.status)
    then ok (false, s)
    else (kept_status o.blocked_run_status s.steps >>= λ kept. ok (
      true,
      put_outbox
          (record step {
            output = written (record o { blocked_run_status = none });
            updated_at = now;
          })
          (unblock_if (any is_failed_report s.steps) kept now (resolve_delivery_issue step s)),
    ))
