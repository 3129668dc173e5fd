-- ===== src/Recovery/Steps.antt =====
-- One beginning and one resumption of a recovery: src/core/technical-recovery.ts.
use shan_hai_edu_ppt.Base.{
  ℕ, ◌+◌, ◌≤◌, ◌<◌, ◌≡◌, refl, sym, ◌∙◌, ap, inl, inr, Bool, true, false, not, ◌&&◌, ◌||◌, Option,
  none, some, String, arith, min, ltb, leb, Result, ok, Result-cases, Bool-cases, ltb→lt, &&_iff,
}
use shan_hai_edu_ppt.Contracts.{RunStatus, recovering, is_status, is_status_iff, has_status}
use shan_hai_edu_ppt.Contracts.Failures.{TechnicalRecovery}
use shan_hai_edu_ppt.Policy.{RunPolicyState, transition_run, can_transition, moved}
use shan_hai_edu_ppt.Ports.{RunRecord, StoredRun}
use shan_hai_edu_ppt.Ports.Repository.{append_event}
use shan_hai_edu_ppt.Usage.Enqueue.{Hashes}
use shan_hai_edu_ppt.Lifecycle.Codes.{is_accounting_pending}
use shan_hai_edu_ppt.Lifecycle.Failure.{LifecycleCode}
use shan_hai_edu_ppt.Recovery.{
  TechnicalFailure, is_retryable, next_attempt, retry_delay_ms, recovery_state, closed_recovery,
  cannot_recover, recovers, resumed, is_due, is_failure_pending, begin_technical_recovery,
  resume_of, resume_technical_recovery, recoverable_states,
}

abbrev maybe : Option StoredRun → Result LifecycleCode (Option StoredRun)
maybe o = ok o

some_same : {s t : StoredRun} → maybe (some s) ≡ maybe (some t) → s ≡ t
some_same {s} {t} h = ground arith

pub none-some : {s : StoredRun} → maybe none ≡ maybe (some s) → ⊥
none-some {s} h = ground arith

pub and-false : (a : Bool) {b : Bool} → b ≡ false → (a && b) ≡ false
and-false a {b} h = ground arith

pub recovers_run :
    (r : TechnicalRecovery) (reason : String) (now : ℕ) (s : StoredRun) (p : RunPolicyState)
    → (recovers r reason now s p).run
      ≡ record s.run { policy = p; technical_recovery = some r; updated_at = now }
unfolding append_event
recovers_run r reason now s p = refl

pub resumed_run :
    (r : TechnicalRecovery) (now : ℕ) (s : StoredRun) (p : RunPolicyState)
    → (resumed r now s p).run
      ≡ record s.run { policy = p; technical_recovery = some (closed_recovery r); updated_at = now }
unfolding append_event
resumed_run r now s p = refl

-- The recovery that a failure begins.
abbrev pub begun : TechnicalFailure → ℕ → StoredRun → TechnicalRecovery
begun f now s = recovery_state s.run s.run.status f now

pub begun_fields :
    (f : TechnicalFailure) (now : ℕ) (s : StoredRun)
    → (begun f now s).retryable ≡ true
    → ((begun f now s).resume_state ≡ s.run.status)
      × ((begun f now s).attempt ≡ next_attempt s.run.technical_recovery s.run.status)
      × ((begun f now s).attempt ≤ 4)
      × ((begun f now s).next_attempt_at ≡ some (now + retry_delay_ms (begun f now s).attempt))
      × ((begun f now s).active ≡ true)
unfolding recovery_state
begun_fields f now s h =
    let n = next_attempt s.run.technical_recovery s.run.status in
    let few = ltb→lt n 5 ((&&_iff (is_retryable f.disposition) (ltb n 5)).0 h).1 in
    let same : min n 5 ≡ n = omega (arith, few) in
    (
      refl,
      same,
      omega (arith, few),
      rw h (ap (λ m. some (now + retry_delay_ms m)) (sym same)),
      refl,
    )

pub next_attempt-pos : (o : Option TechnicalRecovery) (state : RunStatus) → 0 < next_attempt o state
next_attempt-pos none state = omega arith
next_attempt-pos (some r) state = ground arith

pub next_attempt_same :
    (r : TechnicalRecovery) (state : RunStatus)
    → r.resume_state ≡ state
    → next_attempt (some r) state ≡ r.attempt + 1
next_attempt_same r state same = rw ((is_status_iff r.resume_state state).1 same) refl

pub is_due_at :
    (r : TechnicalRecovery) (now : ℕ) {due : ℕ}
    → r.next_attempt_at ≡ some due
    → r.active ≡ true
    → r.retryable ≡ true
    → is_due r now ≡ leb due now
is_due_at r now {due} time active retry = rw (time, active, retry) refl

pub not_due :
    {due now : ℕ} {waits passed : Bool}
    → now < due
    → waits ≡ true
    → passed ≡ leb due now
    → (not waits || not passed) ≡ true
not_due {due} {now} {waits} {passed} early w p = ground arith

pub due :
    {time now : ℕ} {waits passed : Bool}
    → time ≤ now
    → waits ≡ true
    → passed ≡ leb time now
    → (not waits || not passed) ≡ false
due {time} {now} {waits} {passed} late w p = ground arith

pub may_recover :
    (run : RunRecord) → cannot_recover run ≡ false → has_status run.status recoverable_states ≡ true
may_recover run h = ground arith

-- From RECOVERING each of the recoverable states can be reached again.
pub may_return :
    (q : RunPolicyState) (to : RunStatus)
    → q.status ≡ recovering
    → has_status to recoverable_states ≡ true
    → transition_run q to ≡ ok (moved q to)
unfolding transition_run can_transition
may_return q to waits h = ground arith

module _ (hashes : Hashes) where
  pub begin_recovers :
      (f : TechnicalFailure) (now : ℕ) (s t : StoredRun)
      → begin_technical_recovery hashes f now s ≡ ok (some t)
      → (begun f now s).retryable ≡ true
      → (cannot_recover s.run ≡ false)
        × ((p : RunPolicyState) × (transition_run s.run.policy recovering ≡ ok p)
            × (t ≡ recovers (begun f now s) f.diagnostic_code now s p))
  unfolding begin_technical_recovery
  begin_recovers f now s t h again = elim (Bool-cases (cannot_recover s.run)) [
    | inl shut ↦ absurd (ground (arith, rw (shut, begin_technical_recovery) at h))
    | inr may ↦ elim (Result-cases (transition_run s.run.policy recovering)) [
      | inl (e, refused) ↦
          absurd (ground (arith, rw (may, again, refused, begin_technical_recovery) at h))
      | inr (p, moves) ↦
          (may, (p, moves, sym (some_same (rw (may, again, moves, begin_technical_recovery) at h))))
    ]
  ]

  pub resume_resumes :
      (now : ℕ) (s u : StoredRun) (r : TechnicalRecovery)
      → s.run.technical_recovery ≡ some r
      → s.run.pending_terminal_failure ≡ none
      → resume_technical_recovery hashes now s ≡ ok (some u)
      → (p : RunPolicyState) × (transition_run s.run.policy r.resume_state ≡ ok p)
        × (u ≡ resumed r now s p)
  unfolding resume_technical_recovery
  resume_resumes now s u r old fresh h =
      let path = ap (λ o. resume_of hashes o now s) (sym old) ∙ h in
      elim (Bool-cases (not (is_status s.run.status recovering) || not (is_due r now))) [
        | inl early ↦ absurd (none-some (rw early at path))
        | inr due ↦
            let idle = and-false (is_accounting_pending (some r)) (ap is_failure_pending fresh) in
            elim (Result-cases (transition_run s.run.policy r.resume_state)) [
              | inl (e, refused) ↦ absurd (ground (arith, rw (due, idle, refused) at path))
              | inr (p, moves) ↦ (p, moves, sym (some_same (rw (due, idle, moves) at path)))
            ]
      ]
