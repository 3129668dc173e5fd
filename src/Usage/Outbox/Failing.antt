-- ===== src/Usage/Outbox/Failing.antt =====
-- Failing a V4 run keeps the reports of src/core/usage-v2-coordinator.ts.
use shan_hai_edu_ppt.Base.{
  ℕ, ◌≡◌, ◌∙◌, ap, subst, sym, refl, inl, inr, Bool, Option, List, arith, Bool-cases, Option-cases,
  Result-cases, Result, ok,
}
use shan_hai_edu_ppt.Contracts.{RunStatus, recovering, failed, is_status}
use shan_hai_edu_ppt.Contracts.Accounting.{TerminalAccounting, is_final}
use shan_hai_edu_ppt.Contracts.Failures.{
  LifecycleReason, RunFailureCode, PublicErrorCategory, internal_failure,
}
use shan_hai_edu_ppt.Policy.{transition_run, is_terminal_status}
use shan_hai_edu_ppt.Ports.{StepRecord, StoredRun}
use shan_hai_edu_ppt.Ports.Repository.{get_step, put_step, append_event}
use shan_hai_edu_ppt.TerminalAccounting.{derive_v4_terminal_accounting}
use shan_hai_edu_ppt.Usage.{is_usage_v2, usage_v2_finalize_step_key}
use shan_hai_edu_ppt.Usage.Enqueue.{
  Hashes, UsageCode, new_finalize_step, check_existing_ok, enqueue_usage_v2_run_finalization,
}
use shan_hai_edu_ppt.Lifecycle.{close_active_v4_lifecycle_stages}
use shan_hai_edu_ppt.Lifecycle.Codes.{public_error_category_for_v4_failure, reason_or}
use shan_hai_edu_ppt.Lifecycle.Failure.{
  append_failure_events, failed_run, complete_visual_deck_v4_failure, enqueued, cannot_fail,
  start_failure, fail_visual_deck_v4_transaction,
}
use shan_hai_edu_ppt.Lifecycle.Outcome.{close_active_run, ok_same, given_same}
use shan_hai_edu_ppt.Usage.Outbox.Order.{report_at, other_put, SameReports, IsMap, put_step-IsMap}

-- The reports are those that they were.
pub record Keeps (ss tt : List StepRecord) : Type 0 where
  pub same : SameReports ss tt
  pub map : IsMap ss → IsMap tt

pub Keeps-same : (ss tt : List StepRecord) → tt ≡ ss → Keeps ss tt
Keeps-same ss tt e = record { same = λ k. ap (report_at k) e; map = λ m. subst IsMap (sym e) m }

enqueue_parts :
    {a b : Option StepRecord} {u v : StoredRun}
    → ◌≡◌ {A = Result UsageCode (Option StepRecord × StoredRun)} (ok (a, u)) (ok (b, v))
    → u ≡ v
enqueue_parts h = cc

module _ (hashes : Hashes) where
  enqueue-Keeps :
      (now : ℕ) (s : StoredRun) {r : Option StepRecord} {t : StoredRun}
      → enqueue_usage_v2_run_finalization hashes now s ≡ ok (r, t)
      → Keeps s.steps t.steps
  unfolding enqueue_usage_v2_run_finalization
  enqueue-Keeps now s {r} {t} h = elim (Bool-cases (is_usage_v2 s.run.accounting_protocol)) [
    | inr legacy ↦
        Keeps-same s.steps t.steps
          (ap (λ (x : StoredRun). x.steps) (sym (enqueue_parts (rw legacy at h))))
    | inl usage ↦ elim (Bool-cases (is_terminal_status s.run.status)) [
      | inr runs ↦ absurd (ground (arith, rw runs at (rw usage at h)))
      | inl ended ↦
          let key = usage_v2_finalize_step_key s.run.id in
          let h1 = rw ended at (rw usage at h) in
          elim (Option-cases (get_step key s.steps)) [
            | inr (step, there) ↦
                let (given, same) =
                  check_existing_ok hashes s step {r = r} {t = t} (rw there at h1) in
                Keeps-same s.steps t.steps (ap (λ (x : StoredRun). x.steps) same)
            | inl fresh ↦
                let new = new_finalize_step hashes s.run now in
                let steps : t.steps ≡ put_step new s.steps =
                  ap (λ (x : StoredRun). x.steps) (sym (enqueue_parts (rw fresh at h1))) in
                record {
                  same = λ k. ap (report_at k) steps ∙ other_put new s.steps refl (rw fresh refl) k;
                  map = λ m. subst IsMap (sym steps) (put_step-IsMap new s.steps m);
                }
          ]
    ]
  ]

  append_failure_events_steps :
      (from : RunStatus) (code : RunFailureCode) (reason : LifecycleReason)
      (category : PublicErrorCategory) (accounting : TerminalAccounting) (s : StoredRun)
      → (append_failure_events from code reason category accounting s).steps ≡ s.steps
  unfolding append_event
  append_failure_events_steps from code reason category accounting s =
      elim (Option-cases s.run.technical_recovery) [
        | inl nothing ↦ rw nothing refl
        | inr (r, there) ↦ rw there refl
      ]

  complete-Keeps :
      (code : RunFailureCode) (reason : LifecycleReason) (category : PublicErrorCategory)
      (accounting : TerminalAccounting) (now : ℕ) (s t : StoredRun)
      → complete_visual_deck_v4_failure hashes code reason category accounting now s ≡ ok t
      → Keeps s.steps t.steps
  unfolding complete_visual_deck_v4_failure
  complete-Keeps code reason category accounting now s t h =
      let closed = close_active_v4_lifecycle_stages internal_failure s in
      elim (Result-cases (transition_run closed.run.policy failed)) [
        | inl (e, refused) ↦
            absurd (ground (arith, rw (refused, complete_visual_deck_v4_failure) at h))
        | inr (policy, moves) ↦
            let before : StoredRun = record closed {
              run = failed_run closed.run policy accounting now;
            } in
            let h1 = rw (moves, complete_visual_deck_v4_failure) at h in
            elim (Result-cases (enqueue_usage_v2_run_finalization hashes now before)) [
              | inl (e, refused) ↦ absurd (ground (arith, rw (refused, enqueued) at h1))
              | inr ((r, u), done) ↦
                  let kept = enqueue-Keeps now before {r = r} {t = u} done in
                  let after : t.steps ≡ u.steps =
                    ap (λ (x : StoredRun). x.steps) (sym (ok_same (rw (done, enqueued) at h1)))
                    ∙ append_failure_events_steps s.run.status code reason category accounting u in
                  let steps : before.steps ≡ s.steps = (close_active_run internal_failure s).1 in
                  record {
                    same = λ k. ap (report_at k) after ∙ kept.same k ∙ ap (report_at k) steps;
                    map = λ m. subst IsMap (sym after) (kept.map (subst IsMap (sym steps) m));
                  }
            ]
      ]

  start-Keeps :
      (code : RunFailureCode) (reason : Option LifecycleReason)
      (category : Option PublicErrorCategory) (now : ℕ) (s : StoredRun) {b : Bool} {t : StoredRun}
      → start_failure hashes code reason category now s ≡ ok (b, t)
      → Keeps s.steps t.steps
  unfolding start_failure append_event
  start-Keeps code reason category now s {b} {t} h =
      let a = derive_v4_terminal_accounting s.run s.steps in
      let shown = public_error_category_for_v4_failure code reason category in
      elim (Bool-cases (cannot_fail hashes s.run)) [
        | inl shut ↦
            Keeps-same s.steps t.steps
              (ap (λ (x : StoredRun). x.steps) (sym (given_same (rw (shut, start_failure) at h)).1))
        | inr may ↦ elim (Bool-cases (is_final a.accounting_status)) [
          | inl ends ↦
              elim (Result-cases
                (complete_visual_deck_v4_failure hashes code (reason_or reason) shown a now s)) [
                  | inl (e, refused) ↦
                      absurd (ground (arith, rw (may, ends, refused, start_failure) at h))
                  | inr (u, done) ↦
                      let (flag, same) = given_same (rw (may, ends, done, start_failure) at h) in
                      subst (λ (x : StoredRun). Keeps s.steps x.steps) same
                        (complete-Keeps code (reason_or reason) shown a now s u done)
                ]
          | inr open_still ↦ elim (Result-cases (transition_run s.run.policy recovering)) [
            | inl (e, refused) ↦
                absurd (ground (arith, rw (may, open_still, refused, start_failure) at h))
            | inr (policy, moves) ↦
                let (flag, same) = given_same (rw (may, open_still, moves, start_failure) at h) in
                Keeps-same s.steps t.steps (ap (λ (x : StoredRun). x.steps) (sym same))
          ]
        ]
      ]

  pub fail-Keeps :
      (code : RunFailureCode) (reason : Option LifecycleReason)
      (category : Option PublicErrorCategory) (now : ℕ) (s : StoredRun) {b : Bool} {t : StoredRun}
      → fail_visual_deck_v4_transaction hashes code reason category now s ≡ ok (b, t)
      → Keeps s.steps t.steps
  unfolding fail_visual_deck_v4_transaction
  fail-Keeps code reason category now s {b} {t} h =
      elim (Option-cases s.run.pending_terminal_failure) [
        | inl fresh ↦
            start-Keeps code reason category now s {b = b} {t = t}
              (rw (fresh, fail_visual_deck_v4_transaction) at h)
        | inr (p, waits) ↦ elim (Bool-cases (is_status s.run.status recovering)) [
          | inl recovers ↦
              let h1 = rw (waits, recovers, fail_visual_deck_v4_transaction) at h in
              Keeps-same s.steps t.steps (ap (λ (x : StoredRun). x.steps) (sym (given_same h1).1))
          | inr runs ↦
              start-Keeps code reason category now s {b = b} {t = t}
                (rw (waits, runs, fail_visual_deck_v4_transaction) at h)
        ]
      ]
