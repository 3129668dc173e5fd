-- ===== src/Lifecycle/Accounting.antt =====
-- A V4 run whose accounting becomes final later: src/core/v4-lifecycle.ts,
-- reconcileVisualDeckV4TerminalState.
use shan_hai_edu_ppt.Base.{
  ℕ, ◌+◌, ◌≡◌, refl, sym, ◌∙◌, ap, inl, inr, Bool, true, false, not, ◌||◌, Option, none, some, List,
  [], ◌∷◌, ◌++◌, arith, any, ok, Bool-cases, Option-cases,
}
use shan_hai_edu_ppt.Contracts.{recovering, failed, is_status, is_v4}
use shan_hai_edu_ppt.Contracts.Accounting.{TerminalAccounting, is_final, final}
use shan_hai_edu_ppt.Contracts.Failures.{
  LifecycleReason, RunFailureCode, PublicErrorCategory, PendingTerminalFailure, internal_failure,
}
use shan_hai_edu_ppt.Policy.{RunPolicyState, transition_run, can_transition, moved}
use shan_hai_edu_ppt.Ports.{StoredRun, AgentEvent}
use shan_hai_edu_ppt.Ports.Repository.{append_event, get_step}
use shan_hai_edu_ppt.TerminalAccounting.{derive_v4_terminal_accounting}
use shan_hai_edu_ppt.Usage.{usage_v2_finalize_step_key}
use shan_hai_edu_ppt.Usage.Enqueue.{Hashes, enqueue_succeeds}
use shan_hai_edu_ppt.Lifecycle.{close_active_v4_lifecycle_stages}
use shan_hai_edu_ppt.Lifecycle.Codes.{is_accounting_pending}
use shan_hai_edu_ppt.Lifecycle.Failure.{
  failed_run, append_failure_events, complete_visual_deck_v4_failure, enqueued,
  reconcile_visual_deck_v4_terminal_state, reconcile_with, pending_category, publish,
  is_to_reconcile, is_finalized_event, has_finalized, wait_on,
}
use shan_hai_edu_ppt.Lifecycle.Outcome.{close_active_run, IsFailed, complete-IsFailed, given_same}

any-snoc :
    (p : AgentEvent → Bool) (es : List AgentEvent) (e : AgentEvent)
    → p e ≡ true
    → any p (es ++ e ∷ []) ≡ true
any-snoc p [] e holds = rw holds refl
any-snoc p (d ∷ es) e holds = ground (arith, any-snoc p es e holds)

may_fail :
    (p : RunPolicyState) → p.status ≡ recovering → transition_run p failed ≡ ok (moved p failed)
unfolding transition_run can_transition
may_fail p h = ground arith

or-true : (a b c d : Bool) → d ≡ true → (a || b || c || d) ≡ true
or-true a b c d h = ground arith

module _ (hashes : Hashes) where
  reconcile_v4 :
      (now : ℕ) (s : StoredRun) (o : Option PendingTerminalFailure)
      → is_v4 s.run.presentation_mode ≡ true
      → s.run.pending_terminal_failure ≡ o
      → reconcile_visual_deck_v4_terminal_state hashes now s
        ≡ reconcile_with hashes o (derive_v4_terminal_accounting s.run s.steps) now s
  unfolding reconcile_visual_deck_v4_terminal_state
  reconcile_v4 now s o v4 pending = rw v4 (
      ap (λ o. reconcile_with hashes o (derive_v4_terminal_accounting s.run s.steps) now s) pending)

  reconcile_other :
      (now : ℕ) (s : StoredRun)
      → is_v4 s.run.presentation_mode ≡ false
      → reconcile_visual_deck_v4_terminal_state hashes now s ≡ ok (false, s)
  unfolding reconcile_visual_deck_v4_terminal_state
  reconcile_other now s other = rw other refl

  -- From RECOVERING a failure is completed whenever no finalization of the run's usage has been
  -- enqueued before.
  complete_succeeds :
      (code : RunFailureCode) (reason : LifecycleReason) (category : PublicErrorCategory)
      (accounting : TerminalAccounting) (now : ℕ) (s : StoredRun)
      → s.run.status ≡ recovering
      → get_step (usage_v2_finalize_step_key s.run.id) s.steps ≡ none
      → (t : StoredRun) × (complete_visual_deck_v4_failure hashes code reason category accounting
            now s
          ≡ ok t)
  unfolding complete_visual_deck_v4_failure
  complete_succeeds code reason category accounting now s status fresh =
      let closed = close_active_v4_lifecycle_stages internal_failure s in
      let (run, steps) = close_active_run internal_failure s in
      let moves = may_fail closed.run.policy (ap (λ r. r.status) run ∙ status) in
      let after = record closed {
        run = failed_run closed.run (moved closed.run.policy failed) accounting now;
      } in
      let (r, u, done) =
        enqueue_succeeds hashes now after refl (rw (steps, ap (λ r. r.id) run) fresh) in
      (
        append_failure_events s.run.status code reason category accounting u,
        rw (moves, done, complete_visual_deck_v4_failure, enqueued) refl,
      )

  with_final :
      (p : PendingTerminalFailure) (a : TerminalAccounting) (now : ℕ) (s t : StoredRun)
      → is_final a.accounting_status ≡ true
      → complete_visual_deck_v4_failure hashes p.error_code p.reason
          (pending_category hashes p)
          a
          now
          s
        ≡ ok t
      → reconcile_with hashes (some p) a now s ≡ ok (true, t)
  with_final p a now s t ends done = rw (ends, done) refl

  -- A failure that waited for its accounting is not lost: once the accounting of the steps is
  -- final, and if no finalization of the run's usage stands among them, the reconciliation fails
  -- the run with that accounting.
  pub pending_completes :
      (now : ℕ) (s : StoredRun) (p : PendingTerminalFailure)
      → is_v4 s.run.presentation_mode ≡ true
      → s.run.status ≡ recovering
      → s.run.pending_terminal_failure ≡ some p
      → get_step (usage_v2_finalize_step_key s.run.id) s.steps ≡ none
      → (derive_v4_terminal_accounting s.run s.steps).accounting_status ≡ final
      → (t : StoredRun) × (reconcile_visual_deck_v4_terminal_state hashes now s ≡ ok (true, t))
        × IsFailed (derive_v4_terminal_accounting s.run s.steps) t
  pending_completes now s p v4 status pending fresh ends =
      let a = derive_v4_terminal_accounting s.run s.steps in
      let (t, done) =
        complete_succeeds p.error_code p.reason (pending_category hashes p) a now s status fresh in
      (
        t,
        reconcile_v4 now s (some p) v4 pending
            ∙ with_final p a now s t (ap (λ x. is_final x) ends) done,
        complete-IsFailed hashes p.error_code p.reason (pending_category hashes p) a now s t done,
      )

  wait_on_keeps :
      (a : TerminalAccounting) (now : ℕ) (s : StoredRun)
      → let t = wait_on hashes a now s in
        (t.run.pending_terminal_failure ≡ s.run.pending_terminal_failure)
        × (t.run.policy ≡ s.run.policy)
        × (t.events ≡ s.events)
  wait_on_keeps a now s = elim (Option-cases s.run.technical_recovery) [
    | inl nothing ↦ rw nothing (refl, refl, refl)
    | inr (r, there) ↦
        elim (Bool-cases
          (not (is_status s.run.status recovering) || not (is_accounting_pending (some r)))) [
            | inl other ↦ rw (there, other) (refl, refl, refl)
            | inr waits ↦ rw (there, waits) (refl, refl, refl)
          ]
  ]

  -- Until then it waits: the reconciliation keeps the failure, the status and the log.
  pub pending_waits :
      (now : ℕ) (s : StoredRun) (p : PendingTerminalFailure)
      → s.run.pending_terminal_failure ≡ some p
      → is_final (derive_v4_terminal_accounting s.run s.steps).accounting_status ≡ false
      → (t : StoredRun) × (reconcile_visual_deck_v4_terminal_state hashes now s ≡ ok (false, t))
        × (t.run.pending_terminal_failure ≡ some p)
        × (t.run.policy ≡ s.run.policy)
        × (t.events ≡ s.events)
  pending_waits now s p pending not_final = elim (Bool-cases (is_v4 s.run.presentation_mode)) [
    | inr other ↦ (s, reconcile_other now s other, pending, refl, refl)
    | inl v4 ↦
        let a = derive_v4_terminal_accounting s.run s.steps in
        let (kept, policy, events) = wait_on_keeps a now s in
        (
          wait_on hashes a now s,
          reconcile_v4 now s (some p) v4 pending ∙ rw not_final refl,
          kept ∙ pending,
          policy,
          events,
        )
  ]

  publish_once :
      (a : TerminalAccounting) (now : ℕ) (s : StoredRun)
      → has_finalized hashes (publish hashes a now s).events ≡ true
  unfolding append_event
  publish_once a now s = any-snoc (λ e. is_finalized_event hashes e.body) s.events _ refl

  published_run :
      (a : TerminalAccounting) (now : ℕ) (s : StoredRun)
      → (publish hashes a now s).run ≡ record s.run {
        policy = record s.run.policy { version = s.run.version + 1 };
        terminal_accounting = some a;
        updated_at = now;
      }
  unfolding append_event
  published_run a now s = refl

  after_publish :
      (later : ℕ) (s : StoredRun)
      → s.run.pending_terminal_failure ≡ none
      → has_finalized hashes s.events ≡ true
      → reconcile_visual_deck_v4_terminal_state hashes later s ≡ ok (false, s)
  after_publish later s fresh seen = elim (Bool-cases (is_v4 s.run.presentation_mode)) [
    | inr other ↦ reconcile_other later s other
    | inl v4 ↦
        let a = derive_v4_terminal_accounting s.run s.steps in
        let stays =
          or-true (not (is_status s.run.status failed))
            (not (is_to_reconcile hashes s.run.terminal_accounting))
            (not (is_final a.accounting_status)) (has_finalized hashes s.events) seen in
        reconcile_v4 later s none v4 fresh ∙ rw stays refl
  ]

  -- The final accounting of a run that failed before is published once: after the reconciliation
  -- that publishes it, every later one changes nothing.
  pub published_once :
      (now later : ℕ) (s t : StoredRun)
      → s.run.pending_terminal_failure ≡ none
      → reconcile_visual_deck_v4_terminal_state hashes now s ≡ ok (true, t)
      → reconcile_visual_deck_v4_terminal_state hashes later t ≡ ok (false, t)
  published_once now later s t fresh h = elim (Bool-cases (is_v4 s.run.presentation_mode)) [
    | inr other ↦ absurd (ground (arith, given_same (sym (reconcile_other now s other) ∙ h)))
    | inl v4 ↦
        let a = derive_v4_terminal_accounting s.run s.steps in
        let path = sym (reconcile_v4 now s none v4 fresh) ∙ h in
        elim (Bool-cases (
          not (is_status s.run.status failed)
          || not (is_to_reconcile hashes s.run.terminal_accounting)
          || not (is_final a.accounting_status)
          || has_finalized hashes s.events)) [
            | inl stays ↦ absurd (ground (arith, given_same (rw stays at path)))
            | inr new ↦
                let (flag, same) = given_same (rw new at path) in
                rw (← same) (
                  after_publish later (publish hashes a now s)
                    (ap (λ r. r.pending_terminal_failure) (published_run a now s) ∙ fresh)
                    (publish_once a now s))
          ]
  ]
