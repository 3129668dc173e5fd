-- ===== src/Usage/Outbox/Restored.antt =====
-- A run that waits because the host has rejected an event, and goes back to its status once the event is
-- delivered: the four transactions of src/core/usage-v2-coordinator.ts that do it.
use shan_hai_edu_ppt.Base.{
  ℕ, ◌≡◌, ◌∙◌, ap, sym, refl, true, false, none, some, String, any, Result, ok, is_text_self,
}
use shan_hai_edu_ppt.Contracts.{RunStatus, needs_human, is_v4}
use shan_hai_edu_ppt.Contracts.Quality.{fixed}
use shan_hai_edu_ppt.Contracts.UsageAccounting.{UsageEvent, BillStatus, UsageRequestError}
use shan_hai_edu_ppt.Ports.{
  StepStatus, running, completed, failed, EventDelivery, event_pending, event_acknowledged,
  event_rejected, StepRecord, issue_resolved, StoredRun,
}
use shan_hai_edu_ppt.Ports.Repository.{append_event}
use shan_hai_edu_ppt.Usage.{is_usage_v2}
use shan_hai_edu_ppt.Usage.Enqueue.{Hashes}
use shan_hai_edu_ppt.Usage.Outbox.{
  is_resumable, UsageOutboxOutput, event_step_output, written, put_outbox, update_outbox,
}
use shan_hai_edu_ppt.Usage.Outbox.Delivery.{
  is_failed_step, is_failed_report, issue_id_of, is_open_issue, reject_outbox, unblock_run,
  complete_usage_review,
}
use shan_hai_edu_ppt.Usage.Outbox.Flush.{retry_outbox}
use shan_hai_edu_ppt.Usage.Outbox.Order.{report_at, report_at-some}
use shan_hai_edu_ppt.Usage.Outbox.Rejected.{rejected}
use shan_hai_edu_ppt.Usage.Outbox.Stage.{put_step_found, is_open_issue-snoc, put-Stage, Stage}

module _ (hashes : Hashes) (host : UsageEvent → Result UsageRequestError BillStatus) (key : String)
    (status : RunStatus) (resumes : is_resumable status ≡ true) where
  retried :
      (id : String) (now : ℕ) (s : StoredRun)
      → Stage key id status failed event_rejected needs_human s
      → (t : StoredRun) × (retry_outbox hashes host now key s ≡ ok t)
        × Stage key id status running event_pending needs_human t
  unfolding retry_outbox
  retried id now s g =
      let (found, report, at_k) = report_at-some key s.steps {x = g.step} g.there in
      let after : UsageOutboxOutput = record g.output {
        delivery_state = event_pending;
        next_attempt_at = none;
      } in
      let new : StepRecord = record g.step {
        status = running;
        error_code = none;
        output = written after;
        updated_at = now;
      } in
      (
        put_outbox new s,
        rw (g.usage, found, report, g.reads, g.is_at, g.delivered) refl,
        put-Stage key status resumes id failed running event_rejected event_pending needs_human s g
            after new refl refl refl refl refl refl refl refl,
      )

  delivered :
      (id : String) (now : ℕ) (bill : BillStatus) (s : StoredRun)
      → Stage key id status running event_pending needs_human s
      → (t : StoredRun) × (update_outbox key completed event_acknowledged none none
            (some bill)
            now
            s
          ≡ ok t)
        × Stage key id status completed event_acknowledged needs_human t
  unfolding update_outbox
  delivered id now bill s g =
      let (found, report, at_k) = report_at-some key s.steps {x = g.step} g.there in
      let after : UsageOutboxOutput = record g.output {
        delivery_state = event_acknowledged;
        next_attempt_at = none;
        bill_status = some bill;
      } in
      let new : StepRecord = record g.step {
        status = completed;
        error_code = none;
        output = written after;
        updated_at = now;
      } in
      (
        put_outbox new s,
        rw (found, g.reads) refl,
        put-Stage key status resumes id running completed event_pending event_acknowledged
            needs_human s g after new refl refl refl refl refl refl refl refl,
      )

  -- No step of the outbox has failed when the event's has not.
  no_failed :
      (id : String) (at : StepStatus) (d : EventDelivery) (r : RunStatus) (s : StoredRun)
      → (g : Stage key id status at d r s) → is_failed_step at ≡ false
      → any is_failed_report s.steps ≡ false
  no_failed id at d r s g unfailed =
      let (found, report, at_k) = report_at-some key s.steps {x = g.step} g.there in
      sym (ap (any is_failed_report) (put_step_found key g.step s.steps at_k found))
      ∙ g.others g.step at_k (rw report (ap is_failed_step g.is_at ∙ unfailed))

  reviewed :
      (id : String) (now : ℕ) (s : StoredRun)
      → Stage key id status completed event_acknowledged needs_human s
      → (t : StoredRun) × (complete_usage_review key now s ≡ ok (true, t))
        × (t.run.status ≡ status)
        × (is_open_issue id false t.events ≡ false)
  unfolding complete_usage_review append_event
  reviewed id now s g =
      let (found, report, at_k) = report_at-some key s.steps {x = g.step} g.there in
      let free = no_failed id completed event_acknowledged needs_human s g refl in
      let after : UsageOutboxOutput = record g.output { blocked_run_status = none } in
      let new : StepRecord = record g.step { output = written after; updated_at = now } in
      let resolved = append_event s (issue_resolved id fixed) in
      (
        put_outbox new (unblock_run status now resolved),
        rw (found, report, g.reads, g.is_at, g.blocked, free, g.waits, g.issue, g.detected) refl,
        refl,
        is_open_issue-snoc id false _ _
            ∙ is_open_issue-snoc id false _ _
            ∙ is_open_issue-snoc id false s.events _
            ∙ (rw (g.detected, is_text_self id) refl),
      )

-- For a run that is not V4, whose usage is accounted by V2, whose status is one of those that a
-- review resumes, and none of whose events is rejected, and for an event of its outbox that can be
-- read and keeps no status: when the host rejects the event, the run waits for an administrator
-- with the issue open; the event can then be delivered again, and once it is acknowledged the
-- review closes the issue, and the run is back in the status that it had. None of these
-- transactions throws.
pub restored_run :
    (hashes : Hashes) (host : UsageEvent → Result UsageRequestError BillStatus) (key code : String)
    (bill : BillStatus) (m n p q : ℕ) (s : StoredRun) (x : StepRecord) (o : UsageOutboxOutput)
    → report_at key s.steps ≡ some x
    → event_step_output x ≡ ok o
    → o.blocked_run_status ≡ none
    → is_resumable s.run.status ≡ true
    → is_v4 s.run.presentation_mode ≡ false
    → is_usage_v2 s.run.accounting_protocol ≡ true
    → any is_failed_report s.steps ≡ false
    → (a b c d : StoredRun) × (reject_outbox hashes key code m s ≡ ok a)
      × (a.run.status ≡ needs_human)
      × (is_open_issue (issue_id_of x) false a.events ≡ true)
      × (retry_outbox hashes host n key a ≡ ok b)
      × (update_outbox key completed event_acknowledged none none (some bill) p b ≡ ok c)
      × (complete_usage_review key q c ≡ ok (true, d))
      × (d.run.status ≡ s.run.status)
      × (is_open_issue (issue_id_of x) false d.events ≡ false)
restored_run hashes host key code bill m n p q s x o there reads unblocked resumes other usage
      unfailed =
    let status = s.run.status in
    let id = issue_id_of x in
    let (a, rejects, at_a) =
      rejected hashes host key status resumes code m s x o there reads unblocked refl other usage
        unfailed in
    let (b, retries, at_b) = retried hashes host key status resumes id n a at_a in
    let (c, delivers, at_c) = delivered hashes host key status resumes id p bill b at_b in
    let (d, reviews, back, closed) = reviewed hashes host key status resumes id q c at_c in
    (a, b, c, d, rejects, at_a.waits, at_a.detected, retries, delivers, reviews, back, closed)
