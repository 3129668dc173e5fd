-- ===== src/Recovery/Attempts.antt =====
-- The attempts of a technical recovery: src/core/technical-recovery.ts.
use shan_hai_edu_ppt.Base.{
  ℕ, suc, ◌+◌, ◌≤◌, ◌<◌, ◌≡◌, refl, sym, ◌∙◌, ap, ◌⊎◌, inl, inr, true, none, some, arith, ok,
}
use shan_hai_edu_ppt.Contracts.{recovering, is_status_iff, has_status}
use shan_hai_edu_ppt.Contracts.Failures.{TechnicalRecovery}
use shan_hai_edu_ppt.Policy.{moved}
use shan_hai_edu_ppt.Ports.{StoredRun}
use shan_hai_edu_ppt.Usage.Enqueue.{Hashes}
use shan_hai_edu_ppt.Lifecycle.Codes.{is_accounting_pending}
use shan_hai_edu_ppt.Lifecycle.Outcome.{transition_status}
use shan_hai_edu_ppt.Recovery.{
  TechnicalFailure, next_attempt, retry_delay_ms, closed_recovery, resumed, is_failure_pending,
  begin_technical_recovery, resume_of, resume_technical_recovery, recoverable_states,
}
use shan_hai_edu_ppt.Recovery.Steps.{
  and-false, recovers_run, resumed_run, begun_fields, next_attempt-pos, next_attempt_same,
  is_due_at, not_due, due, may_recover, may_return, begun, begin_recovers, resume_resumes,
}

module _ (hashes : Hashes) where
  -- A run after a number of recoveries in one state: each begins with a failure that may be retried
  -- and is resumed, and what comes between keeps the state and the last recovery.
  pub data Retries : ℕ → StoredRun → Type 0 where
    not_yet : (s : StoredRun) → Retries 0 s
    again :
        {n : ℕ} (now later : ℕ) (s t u v : StoredRun) (f : TechnicalFailure)
        → Retries n s
        → s.run.pending_terminal_failure ≡ none
        → begin_technical_recovery hashes f now s ≡ ok (some t)
        → (begun f now s).retryable ≡ true
        → resume_technical_recovery hashes later t ≡ ok (some u)
        → v.run.technical_recovery ≡ u.run.technical_recovery
        → v.run.status ≡ u.run.status
        → Retries (suc n) v

  -- What a run remembers of the recoveries.
  abbrev Remembers : ℕ → StoredRun → Type 0
  Remembers n s =
      (n ≡ 0)
      ⊎ ((r : TechnicalRecovery) × (s.run.technical_recovery ≡ some r)
          × (r.resume_state ≡ s.run.status)
          × (n ≤ r.attempt)
          × (r.attempt ≤ 4))

  next_attempt-gt :
      (n : ℕ) (s : StoredRun)
      → Remembers n s
      → n < next_attempt s.run.technical_recovery s.run.status
  next_attempt-gt n s (inl start) =
      omega (arith, start, next_attempt-pos s.run.technical_recovery s.run.status)
  next_attempt-gt n s (inr (r, old, same, enough, few)) = omega (
    arith,
    enough,
    ap (λ o. next_attempt o s.run.status) old,
    next_attempt_same r s.run.status same,
  )

  again-Remembers :
      {n : ℕ} (now later : ℕ) (s t u v : StoredRun) (f : TechnicalFailure)
      → Remembers n s
      → s.run.pending_terminal_failure ≡ none
      → begin_technical_recovery hashes f now s ≡ ok (some t)
      → (begun f now s).retryable ≡ true
      → resume_technical_recovery hashes later t ≡ ok (some u)
      → v.run.technical_recovery ≡ u.run.technical_recovery
      → v.run.status ≡ u.run.status
      → Remembers (suc n) v
  again-Remembers {n} now later s t u v f known fresh begins retry resumes same_recovery
        same_status =
      let r = begun f now s in
      let (shut, (p, moves, t_is)) = begin_recovers hashes f now s t begins retry in
      let (state, attempt, few, time, active) = begun_fields f now s retry in
      let t_run = ap (λ x. x.run) t_is ∙ recovers_run r f.diagnostic_code now s p in
      let (q, back, u_is) =
        resume_resumes hashes later t u r (ap (λ x. x.technical_recovery) t_run)
          (ap (λ x. x.pending_terminal_failure) t_run ∙ fresh) resumes in
      let u_run = ap (λ x. x.run) u_is ∙ resumed_run r later t q in
      inr (
        closed_recovery r,
        same_recovery ∙ ap (λ x. x.technical_recovery) u_run,
        sym (
            same_status
            ∙ ap (λ x. x.status) u_run
            ∙ transition_status t.run.policy q r.resume_state back),
        omega (arith, attempt, next_attempt-gt n s known),
        few,
      )

  Retries-Remembers : {n : ℕ} {s : StoredRun} → Retries n s → Remembers n s
  Retries-Remembers (not_yet s) = inl refl
  Retries-Remembers
        (again now later s t u v f r fresh begins retry resumes same_recovery same_status) =
      again-Remembers now later s t u v f (Retries-Remembers r) fresh begins retry resumes
        same_recovery same_status

  -- A run that keeps failing in one state is retried at most four times there, whatever the
  -- failures and the times are and whatever is done between.
  pub Retries-le : {n : ℕ} {s : StoredRun} → Retries n s → n ≤ 4
  Retries-le r = elim (Retries-Remembers r) [
    | inl start ↦ omega (arith, start)
    | inr (last, told, same, enough, few) ↦ omega (arith, enough, few)
  ]

  -- A failure that may be retried is over after its delay: once the recovery has begun, a
  -- resumption before the delay has passed does nothing, and one after it brings the run back to
  -- the state that it failed in, with the recovery closed. No failure is pending.
  pub resume-begin :
      (f : TechnicalFailure) (now later : ℕ) (s t : StoredRun)
      → s.run.pending_terminal_failure ≡ none
      → begin_technical_recovery hashes f now s ≡ ok (some t)
      → (begun f now s).retryable ≡ true
      → let due = now + retry_delay_ms (begun f now s).attempt in
        (later < due → resume_technical_recovery hashes later t ≡ ok none)
        × (due ≤ later
            → (u : StoredRun) × (resume_technical_recovery hashes later t ≡ ok (some u))
              × (u.run.status ≡ s.run.status)
              × (u.run.technical_recovery ≡ some (closed_recovery (begun f now s))))
  unfolding resume_technical_recovery
  resume-begin f now later s t fresh begins retry =
      let r = begun f now s in
      let (may, (p, moves, t_is)) = begin_recovers hashes f now s t begins retry in
      let (state, attempt, few, time, active) = begun_fields f now s retry in
      let t_run = ap (λ x. x.run) t_is ∙ recovers_run r f.diagnostic_code now s p in
      let told = ap (λ o. resume_of hashes o later t) (ap (λ x. x.technical_recovery) t_run) in
      let waits = ap (λ x. x.status) t_run ∙ transition_status s.run.policy p recovering moves in
      let is_waiting = (is_status_iff t.run.status recovering).1 waits in
      let at_due = is_due_at r later time active retry in
      let idle =
        and-false (is_accounting_pending (some r))
          (ap is_failure_pending (ap (λ x. x.pending_terminal_failure) t_run ∙ fresh)) in
      let back =
        may_return t.run.policy r.resume_state waits
          (ap (λ x. has_status x recoverable_states) state ∙ may_recover s.run may) in
      let u_run = resumed_run r later t (moved t.run.policy r.resume_state) in
      (
        λ early. told ∙ rw (not_due early is_waiting at_due) refl,
        λ late. (
          resumed r later t (moved t.run.policy r.resume_state),
          told ∙ rw (due late is_waiting at_due, idle, back) refl,
          ap (λ x. x.status) u_run ∙ state,
          ap (λ x. x.technical_recovery) u_run,
        ),
      )
