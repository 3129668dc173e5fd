-- ===== src/Usage/Outbox/Reviews.antt =====
-- What reviewing and retrying an event of src/core/usage-v2-coordinator.ts do to the steps of the
-- outbox.
use shan_hai_edu_ppt.Base.{
  ℕ, ◌≡◌, ◌∙◌, ap, sym, refl, ◌⊎◌, inl, inr, Bool, true, false, not, ◌&&◌, ◌||◌, Option, none, some,
  List, String, any, arith, if◌then◌else◌, Bool-cases, Option-cases, Result, ok, err, bind_ok,
}
use shan_hai_edu_ppt.Contracts.{RunStatus, needs_human, is_status}
use shan_hai_edu_ppt.Contracts.UsageAccounting.{UsageEvent, BillStatus, UsageRequestError}
use shan_hai_edu_ppt.Ports.{StepStatus, running, event_pending, StepRecord, StoredRun}
use shan_hai_edu_ppt.Ports.Repository.{get_step, put_step, append_event}
use shan_hai_edu_ppt.Usage.{is_usage_v2}
use shan_hai_edu_ppt.Usage.Enqueue.{Hashes}
use shan_hai_edu_ppt.Usage.Outbox.{
  OutboxCode, outbox_not_retryable, UsageOutboxOutput, event_step_output, written, is_usage_report,
  put_outbox, found_report,
}
use shan_hai_edu_ppt.Usage.Outbox.Delivery.{
  is_done, is_failed_step, is_failed_report, is_open_issue, issue_id_of, resolve_delivery_issue,
  unblock_if, kept_status, complete_usage_review,
}
use shan_hai_edu_ppt.Usage.Outbox.Flush.{retry_outbox, is_rejected_event}
use shan_hai_edu_ppt.Usage.Outbox.Order.{report_at, report_at-some}
use shan_hai_edu_ppt.Usage.Outbox.Moves.{Puts, put-Puts, ok_run, ok_step}

resolve_steps :
    (step : StepRecord) (s : StoredRun) → (resolve_delivery_issue step s).steps ≡ s.steps
unfolding append_event
resolve_steps step s = elim (Bool-cases (is_open_issue (issue_id_of step) false s.events)) [
  | inl there ↦ rw there refl
  | inr closed ↦ rw closed refl
]

unblock_steps :
    (b : Bool) (kept : Option RunStatus) (now : ℕ) (s : StoredRun)
    → (unblock_if b kept now s).steps ≡ s.steps
unfolding append_event
unblock_steps b none now s = refl
unblock_steps b (some status) now s =
    elim (Bool-cases (not b && is_status s.run.status needs_human)) [
      | inl waits ↦ rw waits refl
      | inr other ↦ rw other refl
    ]

ok_pair :
    {a b : Bool} {s t : StoredRun}
    → ◌≡◌ {A = Result OutboxCode (Bool × StoredRun)} (ok (a, s)) (ok (b, t))
    → s ≡ t
ok_pair h = cc

found_report-some :
    (k : String) (ss : List StepRecord) {x : StepRecord}
    → found_report (get_step k ss) ≡ ok x
    → report_at k ss ≡ some x
found_report-some k ss {x} h = elim (Option-cases (get_step k ss)) [
  | inl nothing ↦ absurd (ground (arith, rw nothing at h))
  | inr (y, found) ↦ elim (Bool-cases (is_usage_report y.tool)) [
    | inr other ↦ absurd (ground (arith, rw other at (rw found at h)))
    | inl report ↦
        let same : y ≡ x = ok_step (rw report at (rw found at h)) in
        rw found (rw report (ap some same))
  ]
]

-- Only a step of the outbox is reviewed.
pub review-there :
    (k : String) (now : ℕ) (s : StoredRun) {r : Bool × StoredRun}
    → complete_usage_review k now s ≡ ok r
    → (x : StepRecord) × (report_at k s.steps ≡ some x)
unfolding complete_usage_review
review-there k now s {r} h =
    let (x, found, h1) = bind_ok (found_report (get_step k s.steps)) _ h in
    (x, found_report-some k s.steps {x = x} found)

-- A review of a step that was not acknowledged changes nothing.
pub complete_usage_review-Puts :
    (k : String) (x : StepRecord) (now : ℕ) (s : StoredRun) {b : Bool} {t : StoredRun}
    → report_at k s.steps ≡ some x
    → complete_usage_review k now s ≡ ok (b, t)
    → (t.steps ≡ s.steps) ⊎ Puts x (is_done x.status) s.steps t.steps
unfolding complete_usage_review
complete_usage_review-Puts k x now s {b} {t} there h =
    let (found, report, at_k) = report_at-some k s.steps {x = x} there in
    let h1 = rw report at (rw found at h) in
    let (o, reads, h2) = bind_ok (event_step_output x) _ h1 in
    elim (Bool-cases (is_done x.status)) [
      | inr waits ↦ inl (ap (λ (r : StoredRun). r.steps) (sym (ok_pair (rw waits at h2))))
      | inl done ↦
          let (kept, keeps, h3) =
            bind_ok (kept_status o.blocked_run_status s.steps) _ (rw done at h2) in
          let after : UsageOutboxOutput = record o { blocked_run_status = none } in
          let new : StepRecord = record x { output = written after; updated_at = now } in
          let resolved = resolve_delivery_issue x s in
          inr (
            put-Puts x o after new (is_done x.status) s.steps t.steps reads refl refl refl refl
              report
              (ap (λ (r : StoredRun). r.steps) (sym (ok_pair h3))
                ∙ ap (put_step new) (
                    unblock_steps (any is_failed_report s.steps) kept now resolved
                    ∙ resolve_steps x s)))
    ]

failed_not_done : (status : StepStatus) → is_failed_step status ≡ true → is_done status ≡ false
failed_not_done status h = ground arith

unless_ok :
    (b : Bool) (c : OutboxCode) (u : StoredRun) {t : StoredRun}
    → (if b then err c else ok u) ≡ ok t
    → (b ≡ false) × (u ≡ t)
unless_ok true c u {t} h = absurd (ground (arith, h))
unless_ok false c u {t} h = (refl, ok_run h)

is_failed_unless : (b c : Bool) → (not b || not c) ≡ false → b ≡ true
is_failed_unless b c h = ground arith

-- The step that is delivered again was not acknowledged.
pub retry_outbox-Puts :
    (hashes : Hashes) (host : UsageEvent → Result UsageRequestError BillStatus) (now : ℕ)
    (k : String) (s t : StoredRun)
    → retry_outbox hashes host now k s ≡ ok t
    → (x : StepRecord) × (report_at k s.steps ≡ some x)
      × (is_done x.status ≡ false)
      × Puts x false s.steps t.steps
unfolding retry_outbox
retry_outbox-Puts hashes host now k s t h =
    elim (Bool-cases (is_usage_v2 s.run.accounting_protocol)) [
      | inr legacy ↦ absurd (ground (arith, rw legacy at h))
      | inl usage ↦
          let (x, found, h1) = bind_ok (found_report (get_step k s.steps)) _ (rw usage at h) in
          let there = found_report-some k s.steps {x = x} found in
          let (in_steps, report, at_k) = report_at-some k s.steps {x = x} there in
          let (o, reads, h2) = bind_ok (event_step_output x) _ h1 in
          let after : UsageOutboxOutput = record o {
            delivery_state = event_pending;
            next_attempt_at = none;
          } in
          let new : StepRecord = record x {
            status = running;
            error_code = none;
            output = written after;
            updated_at = now;
          } in
          let is_kept = not (is_failed_step x.status) || not (is_rejected_event o.delivery_state) in
          let (failed_there, is_t) =
            unless_ok is_kept outbox_not_retryable (put_outbox new s) {t = t} h2 in
          (
            x,
            there,
            failed_not_done x.status (
                is_failed_unless (is_failed_step x.status) (is_rejected_event o.delivery_state)
                  failed_there),
            put-Puts x o after new false s.steps t.steps reads refl refl refl refl report
                (ap (λ (r : StoredRun). r.steps) (sym is_t)),
          )
    ]
