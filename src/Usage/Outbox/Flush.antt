-- ===== src/Usage/Outbox/Flush.antt =====
-- src/core/usage-v2-coordinator.ts: one flush of the outbox, and the delivery of a rejected event once
-- more.
use shan_hai_edu_ppt.Base.{
  ℕ, ◌+◌, Bool, true, false, not, ◌||◌, Option, none, some, is_some, List, [], ◌∷◌, String, keep,
  any, ltb, if◌then◌else◌, Result, ok, err, ◌>>=◌,
}
use shan_hai_edu_ppt.Contracts.UsageAccounting.{
  UsageEvent, BillStatus, UsageRequestError, request_rejected, request_unknown, other_error,
}
use shan_hai_edu_ppt.Ports.{
  running, completed, EventDelivery, event_pending, event_acknowledged, event_rejected, StepRecord,
  StoredRun,
}
use shan_hai_edu_ppt.Ports.Repository.{get_step, transact}
use shan_hai_edu_ppt.Usage.{is_usage_v2}
use shan_hai_edu_ppt.Usage.Enqueue.{Hashes}
use shan_hai_edu_ppt.Usage.Outbox.{
  OutboxCode, usage_run_required, outbox_invalid, outbox_not_retryable, UsageOutboxOutput,
  read_event, event_step_output, written, is_usage_report, put_outbox, found_report, update_outbox,
}
use shan_hai_edu_ppt.Usage.Outbox.Delivery.{
  is_failed_step, is_done, reject_outbox, complete_usage_review,
}

-- The steps of the outbox by their numbers; a single one is not compared with any other.
abbrev pub sequence_of : Result OutboxCode UsageOutboxOutput → ℕ
sequence_of (err e) = 0
sequence_of (ok o) = o.event.sequence

unfoldable pub event_sequence : StepRecord → ℕ
event_sequence s = sequence_of (event_step_output s)

unfoldable pub insert_by_sequence : StepRecord → List StepRecord → List StepRecord
insert_by_sequence x [] = x ∷ []
insert_by_sequence x (y ∷ ys) =
    let rest = insert_by_sequence x ys in
    if ltb (event_sequence y) (event_sequence x) then y ∷ rest else x ∷ y ∷ ys

unfoldable pub sort_by_sequence : List StepRecord → List StepRecord
sort_by_sequence [] = []
sort_by_sequence (x ∷ xs) = insert_by_sequence x (sort_by_sequence xs)

abbrev pub is_readable : StepRecord → Bool
is_readable s = is_some (read_event s.output)

abbrev pub is_single : List StepRecord → Bool
is_single (x ∷ []) = true
is_single _ = false

unfoldable pub sorted_reports : List StepRecord → Result OutboxCode (List StepRecord)
sorted_reports steps =
    let reports = keep (λ s. is_usage_report s.tool) steps in
    if is_single reports || not (any (λ s. not (is_readable s)) reports)
    then ok (sort_by_sequence reports)
    else err outbox_invalid

abbrev pub is_later : Option ℕ → ℕ → Bool
is_later none now = false
is_later (some at) now = ltb now at

abbrev pub is_rejected_event : EventDelivery → Bool
is_rejected_event event_rejected = true
is_rejected_event _ = false

-- `host` is what the usage service answers to an event: the status of the bill, or an error.
module _ (hashes : Hashes) (host : UsageEvent → Result UsageRequestError BillStatus) (now : ℕ) where
  abbrev pub refused : UsageRequestError → StepRecord → StoredRun → Result OutboxCode StoredRun
  refused (request_rejected code) x s = reject_outbox hashes x.idempotency_key code now s
  refused (request_unknown code) x s =
      update_outbox x.idempotency_key running event_pending (some code) (some (now + 1000)) none now
        s
  refused other_error x s =
      update_outbox x.idempotency_key running event_pending (some "HOST_USAGE_V2_EVENT_UNKNOWN")
        (some (now + 1000)) none now s

  abbrev pub stopped : Result OutboxCode StoredRun → StoredRun → Result OutboxCode Bool × StoredRun
  stopped (err c) s = (err c, s)
  stopped (ok t) s = (ok false, t)

  -- The `catch`: a rejected event blocks the run, any other is delivered again a second later.
  abbrev pub refuse :
      UsageRequestError → StepRecord → StoredRun → Result OutboxCode Bool × StoredRun
  refuse e x s = stopped (refused e x s) s

  abbrev pub after_review :
      Result OutboxCode (Bool × StoredRun)
      → StepRecord
      → (StoredRun → Result OutboxCode Bool × StoredRun)
      → StoredRun
      → Result OutboxCode Bool × StoredRun
  after_review (err c) x rest s = refuse other_error x s
  after_review (ok (reviewed, t)) x rest s = rest t

  abbrev pub after_acknowledgement :
      Result OutboxCode StoredRun
      → UsageOutboxOutput
      → StepRecord
      → (StoredRun → Result OutboxCode Bool × StoredRun)
      → StoredRun
      → Result OutboxCode Bool × StoredRun
  after_acknowledgement (err c) o x rest s = refuse other_error x s
  after_acknowledgement (ok t) o x rest s =
      if is_some o.blocked_run_status
      then after_review (complete_usage_review x.idempotency_key now t) x rest t
      else rest t

  abbrev pub answered :
      Result UsageRequestError BillStatus
      → UsageOutboxOutput
      → StepRecord
      → (StoredRun → Result OutboxCode Bool × StoredRun)
      → StoredRun
      → Result OutboxCode Bool × StoredRun
  answered (err e) o x rest s = refuse e x s
  answered (ok bill) o x rest s =
      after_acknowledgement
        (update_outbox x.idempotency_key completed event_acknowledged none none (some bill) now s) o
        x rest s

  abbrev pub deliver_read :
      Result OutboxCode UsageOutboxOutput
      → StepRecord
      → (StoredRun → Result OutboxCode Bool × StoredRun)
      → StoredRun
      → Result OutboxCode Bool × StoredRun
  deliver_read (err c) x rest s = (err c, s)
  deliver_read (ok o) x rest s =
      if is_later o.next_attempt_at now then (ok false, s) else answered (host o.event) o x rest s

  -- The loop over the steps as they were when the flush began.
  unfoldable pub deliver : List StepRecord → StoredRun → Result OutboxCode Bool × StoredRun
  deliver [] s = (ok true, s)
  deliver (x ∷ xs) s =
      if is_done x.status then deliver xs s else deliver_read (event_step_output x) x (deliver xs) s

  unfoldable pub flush_events : StoredRun → Result OutboxCode Bool × StoredRun
  flush_events s = elim (sorted_reports s.steps) [
    | err c ↦ (err c, s)
    | ok steps ↦ if any (λ x. is_failed_step x.status) steps then (ok false, s) else deliver steps s
  ]

  -- The transaction of `retryRejectedEvent`.
  unfoldable pub retry_outbox : String → StoredRun → Result OutboxCode StoredRun
  retry_outbox key s =
      if not (is_usage_v2 s.run.accounting_protocol)
      then err usage_run_required
      else found_report (get_step key s.steps) >>= λ step. event_step_output step >>= λ o.
          if not (is_failed_step step.status) || not (is_rejected_event o.delivery_state)
          then err outbox_not_retryable
          else ok (
              put_outbox
                (record step {
                  status = running;
                  error_code = none;
                  output =
                      written (record o { delivery_state = event_pending; next_attempt_at = none });
                  updated_at = now;
                })
                s)

  abbrev pub review_after :
      Result OutboxCode Bool × StoredRun → String → Result OutboxCode Bool × StoredRun
  review_after (err c, s) key = (err c, s)
  review_after (ok flushed, s) key = transact s (complete_usage_review key now)

  unfoldable pub retry_rejected_event : String → StoredRun → Result OutboxCode Bool × StoredRun
  retry_rejected_event key s = elim (retry_outbox key s) [
    | err c ↦ (err c, s)
    | ok t ↦ review_after (flush_events t) key
  ]
