-- ===== src/Usage/Outbox/Rejections.antt =====
-- What rejecting an event of src/core/usage-v2-coordinator.ts does to the steps of the outbox.
use shan_hai_edu_ppt.Base.{
  ℕ, ◌≡◌, ◌∙◌, ap, subst, sym, refl, inl, inr, Bool, false, none, some, List, String, keep, arith,
  Bool-cases, Result-cases, ok, bind_ok,
}
use shan_hai_edu_ppt.Contracts.{needs_human, is_v4}
use shan_hai_edu_ppt.Contracts.Failures.{
  technical_configuration_required, internal_failure, usage_v2,
}
use shan_hai_edu_ppt.Policy.{transition_run}
use shan_hai_edu_ppt.Ports.{failed, event_rejected, StepRecord, StoredRun}
use shan_hai_edu_ppt.Ports.Repository.{append_event}
use shan_hai_edu_ppt.Usage.Enqueue.{Hashes}
use shan_hai_edu_ppt.Lifecycle.Failure.{fail_visual_deck_v4_transaction}
use shan_hai_edu_ppt.Usage.Outbox.{
  UsageOutboxOutput, event_step_output, written, is_resumable, put_outbox,
}
use shan_hai_edu_ppt.Usage.Outbox.Delivery.{
  is_failed_report, is_open_issue, issue_id_of, detect_delivery_issue, wait_for_human, fail_deck,
  block_run, first_blocked, status_to_keep, reject_outbox,
}
use shan_hai_edu_ppt.Usage.Outbox.Order.{report_at, report_at-some}
use shan_hai_edu_ppt.Usage.Outbox.Moves.{Puts, put-Puts, ok_run}
use shan_hai_edu_ppt.Usage.Outbox.Failing.{Keeps, Keeps-same, fail-Keeps}

Puts-Keeps :
    (x : StepRecord) (b : Bool) (ss tt uu : List StepRecord)
    → Puts x b ss tt
    → Keeps tt uu
    → Puts x b ss uu
Puts-Keeps x b ss tt uu p kept = record {
  new = p.new;
  same = λ k. kept.same k ∙ p.same k;
  map = λ m. kept.map (p.map m);
  key = p.key;
  number = p.number;
  event = p.event;
  over = p.over;
  report = p.report;
}

pub detect_steps :
    (step : StepRecord) (code : String) (s : StoredRun)
    → (detect_delivery_issue step code s).steps ≡ s.steps
unfolding append_event
detect_steps step code s = elim (Bool-cases (is_open_issue (issue_id_of step) false s.events)) [
  | inl there ↦ rw there refl
  | inr closed ↦ rw closed refl
]

block_run-Keeps :
    (hashes : Hashes) (code : String) (now : ℕ) (s t : StoredRun)
    → block_run hashes code now s ≡ ok t
    → Keeps s.steps t.steps
unfolding append_event
block_run-Keeps hashes code now s t h = elim (Bool-cases (is_resumable s.run.status)) [
  | inr stays ↦
      Keeps-same s.steps t.steps (ap (λ (x : StoredRun). x.steps) (sym (ok_run (rw stays at h))))
  | inl runs ↦ elim (Bool-cases (is_v4 s.run.presentation_mode)) [
    | inr other ↦ elim (Result-cases (transition_run s.run.policy needs_human)) [
      | inl (e, refused) ↦
          absurd (ground (arith, rw (refused, wait_for_human) at (rw other at (rw runs at h))))
      | inr (policy, moves) ↦ Keeps-same s.steps t.steps (
          ap (λ (x : StoredRun). x.steps)
            (sym (ok_run (rw (moves, wait_for_human) at (rw other at (rw runs at h))))))
    ]
    | inl v4 ↦
        elim (Result-cases (
          fail_visual_deck_v4_transaction hashes technical_configuration_required
            (some internal_failure) (some usage_v2) now s)) [
              | inl (e, refused) ↦
                  absurd (ground (arith, rw (refused, fail_deck) at (rw v4 at (rw runs at h))))
              | inr ((b, u), done) ↦
                  subst (λ (x : StoredRun). Keeps s.steps x.steps)
                    (ok_run (rw (done, fail_deck) at (rw v4 at (rw runs at h))))
                    (fail-Keeps hashes technical_configuration_required (some internal_failure)
                      (some usage_v2) now s {b = b} {t = u} done)
            ]
  ]
]

pub reject_outbox-Puts :
    (hashes : Hashes) (k : String) (x : StepRecord) (code : String) (now : ℕ) (s t : StoredRun)
    → report_at k s.steps ≡ some x
    → reject_outbox hashes k code now s ≡ ok t
    → Puts x false s.steps t.steps
unfolding reject_outbox
reject_outbox-Puts hashes k x code now s t there h =
    let (found, report, at_k) = report_at-some k s.steps {x = x} there in
    let h1 = rw report at (rw found at h) in
    let (o, reads, h2) = bind_ok (event_step_output x) _ h1 in
    let (inherited, first, h3) = bind_ok (first_blocked (keep is_failed_report s.steps)) _ h2 in
    let after : UsageOutboxOutput = record o {
      delivery_state = event_rejected;
      next_attempt_at = none;
      bill_status = none;
      blocked_run_status = status_to_keep o.blocked_run_status s.run.status inherited;
    } in
    let new : StepRecord = record x {
      status = failed;
      error_code = some code;
      output = written after;
      updated_at = now;
    } in
    let before = detect_delivery_issue x code (put_outbox new s) in
    Puts-Keeps x false s.steps before.steps t.steps
      (put-Puts x o after new false s.steps before.steps reads refl refl refl refl report
        (detect_steps x code (put_outbox new s)))
      (block_run-Keeps hashes code now before t h3)
