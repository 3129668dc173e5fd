-- ===== src/Lifecycle/Outcome.antt =====
-- What a failing V4 run becomes: src/core/v4-lifecycle.ts.
use shan_hai_edu_ppt.Base.{
  ℕ, ◌≡◌, refl, sym, ◌∙◌, ap, ◌⊎◌, inl, inr, Bool, true, false, Option, none, some, arith, Result,
  ok, Result-cases, Bool-cases, Option-cases,
}
use shan_hai_edu_ppt.Contracts.{RunStatus, recovering, failed}
use shan_hai_edu_ppt.Contracts.Accounting.{TerminalAccounting, is_final, final}
use shan_hai_edu_ppt.Contracts.Failures.{
  LifecycleReason, RunFailureCode, PublicErrorCategory, PendingTerminalFailure, internal_failure,
}
use shan_hai_edu_ppt.Policy.{RunPolicyState, transition_run}
use shan_hai_edu_ppt.Ports.{StoredRun, NewAgentEvent}
use shan_hai_edu_ppt.Ports.Repository.{append_event}
use shan_hai_edu_ppt.TerminalAccounting.{derive_v4_terminal_accounting}
use shan_hai_edu_ppt.Usage.Enqueue.{Hashes, enqueue_usage_v2_run_finalization, enqueue_keeps}
use shan_hai_edu_ppt.Lifecycle.{close_active_v4_lifecycle_stages, lifecycle_stage_pairs}
use shan_hai_edu_ppt.Lifecycle.Closing.{close_stages_run}
use shan_hai_edu_ppt.Lifecycle.Codes.{public_error_category_for_v4_failure, reason_or}
use shan_hai_edu_ppt.Lifecycle.Failure.{
  LifecycleCode, failed_run, append_failure_events, complete_visual_deck_v4_failure, enqueued,
  postponed, cannot_fail, start_failure, fail_visual_deck_v4_transaction,
}

pub close_active_run :
    (reason : LifecycleReason) (s : StoredRun)
    → ((close_active_v4_lifecycle_stages reason s).run ≡ s.run)
      × ((close_active_v4_lifecycle_stages reason s).steps ≡ s.steps)
unfolding close_active_v4_lifecycle_stages
close_active_run reason s = close_stages_run s.events reason lifecycle_stage_pairs s

append_event_run : (s : StoredRun) (body : NewAgentEvent) → (append_event s body).run ≡ s.run
unfolding append_event
append_event_run s body = refl

append_failure_events_run :
    (from : RunStatus) (code : RunFailureCode) (reason : LifecycleReason)
    (category : PublicErrorCategory) (accounting : TerminalAccounting) (s : StoredRun)
    → (append_failure_events from code reason category accounting s).run ≡ s.run
unfolding append_event
append_failure_events_run from code reason category accounting s =
    elim (Option-cases s.run.technical_recovery) [
      | inl nothing ↦ rw nothing refl
      | inr (r, there) ↦ rw there refl
    ]

pub transition_status :
    (p q : RunPolicyState) (to : RunStatus) → transition_run p to ≡ ok q → q.status ≡ to
unfolding transition_run
transition_status p q to h = ground arith

abbrev pub the_ok : StoredRun → Result LifecycleCode StoredRun
the_ok s = ok s

-- A run that has failed, with the accounting that it failed with.
pub record IsFailed (accounting : TerminalAccounting) (t : StoredRun) : Type 0 where
  pub has_failed : t.run.status ≡ failed
  pub accounted : t.run.terminal_accounting ≡ some accounting
  pub not_pending : t.run.pending_terminal_failure ≡ none

pub ok_same : {s t : StoredRun} → the_ok s ≡ the_ok t → s ≡ t
ok_same {s} {t} h = ground arith

module _ (hashes : Hashes) where
  enqueued-IsFailed :
      (from : RunStatus) (code : RunFailureCode) (reason : LifecycleReason)
      (category : PublicErrorCategory) (accounting : TerminalAccounting) (now : ℕ) (s t : StoredRun)
      → IsFailed accounting s
      → enqueued hashes from code reason category accounting now s ≡ ok t
      → IsFailed accounting t
  enqueued-IsFailed from code reason category accounting now s t f h =
      elim (Result-cases (enqueue_usage_v2_run_finalization hashes now s)) [
        | inl (e, refused) ↦ absurd (ground (arith, rw (refused, enqueued) at h))
        | inr ((r, u), done) ↦
            let run =
              ap (λ x. x.run) (sym (ok_same (rw (done, enqueued) at h)))
              ∙ append_failure_events_run from code reason category accounting u
              ∙ (enqueue_keeps hashes now s {r = r} {t = u} done).0 in
            record {
              has_failed = ap (λ x. x.status) run ∙ f.has_failed;
              accounted = ap (λ x. x.terminal_accounting) run ∙ f.accounted;
              not_pending = ap (λ x. x.pending_terminal_failure) run ∙ f.not_pending;
            }
      ]

  pub complete-IsFailed :
      (code : RunFailureCode) (reason : LifecycleReason) (category : PublicErrorCategory)
      (accounting : TerminalAccounting) (now : ℕ) (s t : StoredRun)
      → complete_visual_deck_v4_failure hashes code reason category accounting now s ≡ ok t
      → IsFailed accounting t
  unfolding complete_visual_deck_v4_failure
  complete-IsFailed code reason category accounting now s t h =
      let closed = close_active_v4_lifecycle_stages internal_failure s in
      elim (Result-cases (transition_run closed.run.policy failed)) [
        | inl (e, refused) ↦
            absurd (ground (arith, rw (refused, complete_visual_deck_v4_failure) at h))
        | inr (policy, moves) ↦
            enqueued-IsFailed s.run.status code reason category accounting now
              (record closed { run = failed_run closed.run policy accounting now }) t
              (record {
                has_failed = transition_status closed.run.policy policy failed moves;
                accounted = refl;
                not_pending = refl;
              })
              (rw (moves, complete_visual_deck_v4_failure) at h)
      ]

-- A run that waits for its accounting before it fails.
pub record IsPostponed (code : RunFailureCode) (t : StoredRun) : Type 0 where
  pub waits : t.run.status ≡ recovering
  pub pending : PendingTerminalFailure
  pub kept : t.run.pending_terminal_failure ≡ some pending
  pub same_code : pending.error_code ≡ code

abbrev pub given : Bool → StoredRun → Result LifecycleCode (Bool × StoredRun)
given b s = ok (b, s)

pub given_same : {a b : Bool} {s t : StoredRun} → given a s ≡ given b t → (a ≡ b) × (s ≡ t)
given_same {a} {b} {s} {t} h = ground arith

postponed_run :
    (hashes : Hashes) (code : RunFailureCode) (reason : LifecycleReason)
    (category : PublicErrorCategory) (accounting : TerminalAccounting) (now : ℕ) (s : StoredRun)
    (policy : RunPolicyState)
    → policy.status ≡ recovering
    → IsPostponed code (postponed hashes code reason category accounting now s policy)
unfolding append_event
postponed_run hashes code reason category accounting now s policy h = record {
  waits = h;
  pending = _;
  kept = refl;
  same_code = refl;
}

pub is_final_status :
    (a : TerminalAccounting) → is_final a.accounting_status ≡ true → a.accounting_status ≡ final
is_final_status a h = ground arith

module _ (hashes : Hashes) where
  start_outcome :
      (code : RunFailureCode) (reason : Option LifecycleReason)
      (category : Option PublicErrorCategory) (now : ℕ) (s t : StoredRun)
      → start_failure hashes code reason category now s ≡ ok (true, t)
      → let a = derive_v4_terminal_accounting s.run s.steps in
        ((a.accounting_status ≡ final) × IsFailed a t)
        ⊎ ((is_final a.accounting_status ≡ false) × IsPostponed code t)
  unfolding start_failure
  start_outcome code reason category now s t h =
      let a = derive_v4_terminal_accounting s.run s.steps in
      let shown = public_error_category_for_v4_failure code reason category in
      elim (Bool-cases (cannot_fail hashes s.run)) [
        | inl shut ↦ absurd (ground (arith, rw (shut, start_failure) at h))
        | inr may ↦ elim (Bool-cases (is_final a.accounting_status)) [
          | inl ends ↦
              elim (Result-cases
                (complete_visual_deck_v4_failure hashes code (reason_or reason) shown a now s)) [
                  | inl (e, refused) ↦
                      absurd (ground (arith, rw (may, ends, refused, start_failure) at h))
                  | inr (u, done) ↦
                      let (flag, same) = given_same (rw (may, ends, done, start_failure) at h) in
                      inl (
                        is_final_status a ends,
                        rw (← same)
                            (complete-IsFailed hashes code (reason_or reason) shown a now s u done),
                      )
                ]
          | inr open_still ↦ elim (Result-cases (transition_run s.run.policy recovering)) [
            | inl (e, refused) ↦
                absurd (ground (arith, rw (may, open_still, refused, start_failure) at h))
            | inr (policy, moves) ↦
                let (flag, same) = given_same (rw (may, open_still, moves, start_failure) at h) in
                inr (
                  open_still,
                  rw (← same) (
                      postponed_run hashes code (reason_or reason) shown a now s policy
                        (transition_status s.run.policy policy recovering moves)),
                )
          ]
        ]
      ]

  -- A V4 run that begins to fail either has failed at once, with the final accounting of its steps,
  -- or its accounting is not final and it waits in RECOVERING with the failure's code kept.
  pub fail_outcome :
      (code : RunFailureCode) (reason : Option LifecycleReason)
      (category : Option PublicErrorCategory) (now : ℕ) (s t : StoredRun)
      → s.run.pending_terminal_failure ≡ none
      → fail_visual_deck_v4_transaction hashes code reason category now s ≡ ok (true, t)
      → let a = derive_v4_terminal_accounting s.run s.steps in
        ((a.accounting_status ≡ final) × IsFailed a t)
        ⊎ ((is_final a.accounting_status ≡ false) × IsPostponed code t)
  unfolding fail_visual_deck_v4_transaction
  fail_outcome code reason category now s t fresh h =
      start_outcome code reason category now s t (rw (fresh, fail_visual_deck_v4_transaction) at h)
