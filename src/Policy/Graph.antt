-- ===== src/Policy/Graph.antt =====
-- The life of a run: every sequence of the operations of src/core/policy.ts.
use shan_hai_edu_ppt.Base.{◌+◌, ◌≤◌, ◌<◌, ◌≡◌, refl, ◌⊎◌, inl, inr, Bool, true, arith, ok}
use shan_hai_edu_ppt.Base.Int.{Number}
use shan_hai_edu_ppt.Contracts.{RunStatus, delivering, RunAction, ActorRole, VersionedAction}
use shan_hai_edu_ppt.Policy.{
  RunPolicyState, transition_run, apply_run_action, recover_media_execution, recover_media_revision,
  recover_v4_quality_failure, fail_completed_usage_v2_finalization,
  restore_completed_usage_v2_finalization, reserve_budget, release_budget,
}
use shan_hai_edu_ppt.Policy.Invariant.{
  IsWellFormed, Outcome, transits, funds, overrides, apply_run_action-Outcome,
  apply_run_action-IsWellFormed, recoveries-IsWellFormed, transition_run-IsWellFormed,
  transition_run-eq-ok,
}
use shan_hai_edu_ppt.Policy.Budget.{reserve_budget-IsWellFormed, release_budget-IsWellFormed}

abbrev pub Recovers : RunPolicyState → RunPolicyState → Type 0
Recovers s t =
    (recover_media_execution s ≡ ok t)
    ⊎ (recover_media_revision s ≡ ok t)
    ⊎ (recover_v4_quality_failure s ≡ ok t)
    ⊎ (fail_completed_usage_v2_finalization s ≡ ok t)
    ⊎ (restore_completed_usage_v2_finalization s ≡ ok t)

-- One operation, the actions by the roles that take part.
pub data Step (takes_part : ActorRole → Bool) (s : RunPolicyState) (t : RunPolicyState)
    : Type 0 where
  acts :
      (a : VersionedAction) (role : ActorRole)
      → takes_part role ≡ true
      → apply_run_action s a role ≡ ok t
      → Step takes_part s t
  moves : (to : RunStatus) → transition_run s to ≡ ok t → Step takes_part s t
  recovers : Recovers s t → Step takes_part s t
  reserves : (n : Number) → reserve_budget s n ≡ ok t → Step takes_part s t
  releases : (n : Number) → release_budget s n ≡ ok t → Step takes_part s t

pub data Reach (takes_part : ActorRole → Bool) (s : RunPolicyState) : RunPolicyState → Type 0 where
  here : Reach takes_part s s
  next : {t u : RunPolicyState} → Reach takes_part s t → Step takes_part t u → Reach takes_part s u

Step-IsWellFormed :
    {p : ActorRole → Bool} {s t : RunPolicyState} → Step p s t → IsWellFormed s → IsWellFormed t
Step-IsWellFormed {s} (acts a role k h) w = apply_run_action-IsWellFormed s a role h w
Step-IsWellFormed {s} (moves to h) w = transition_run-IsWellFormed s to h w
Step-IsWellFormed {s} (recovers h) w = recoveries-IsWellFormed s h w
Step-IsWellFormed {s} (reserves n h) w = reserve_budget-IsWellFormed s n h w
Step-IsWellFormed {s} (releases n h) w = release_budget-IsWellFormed s n h w

-- A run that starts well formed is so after any sequence of operations, by any roles: it never
-- commits more than its budget, and it keeps a resume state exactly while it is paused.
pub Reach-IsWellFormed :
    {p : ActorRole → Bool} {s t : RunPolicyState} → Reach p s t → IsWellFormed s → IsWellFormed t
Reach-IsWellFormed here w = w
Reach-IsWellFormed (next r st) w = Step-IsWellFormed st (Reach-IsWellFormed r w)

-- What no operation does: leave the version, or change the mode.
pub record Moves (s : RunPolicyState) (t : RunPolicyState) : Type 0 where
  pub version_up : t.version ≡ s.version + 1
  pub mode_kept : t.presentation_mode ≡ s.presentation_mode

transition_run-Moves :
    (s : RunPolicyState) (to : RunStatus) {t : RunPolicyState}
    → transition_run s to ≡ ok t
    → Moves s t
transition_run-Moves s to h = ground (arith, transition_run-eq-ok s to h)

Outcome-Moves :
    {s t : RunPolicyState} {a : RunAction} {role : ActorRole} → Outcome s a role t → Moves s t
Outcome-Moves {s} (transits to h) = transition_run-Moves s to h
Outcome-Moves (funds n live e) = ground arith
Outcome-Moves {s} (overrides h e o n v) = ground (arith, transition_run-eq-ok s delivering h)

reserve-Moves :
    (s : RunPolicyState) (n : Number) {t : RunPolicyState} → reserve_budget s n ≡ ok t → Moves s t
unfolding reserve_budget
reserve-Moves s n h = ground arith

release-Moves :
    (s : RunPolicyState) (n : Number) {t : RunPolicyState} → release_budget s n ≡ ok t → Moves s t
unfolding release_budget
release-Moves s n h = ground arith

Recovers-Moves : (s t : RunPolicyState) → Recovers s t → Moves s t
unfolding recover_media_execution recover_media_revision recover_v4_quality_failure
    fail_completed_usage_v2_finalization restore_completed_usage_v2_finalization
Recovers-Moves s t h = ground arith

pub Step-Moves : {p : ActorRole → Bool} {s t : RunPolicyState} → Step p s t → Moves s t
Step-Moves {s} (acts a role k h) = Outcome-Moves (apply_run_action-Outcome s a role h)
Step-Moves {s} (moves to h) = transition_run-Moves s to h
Step-Moves {s} {t} (recovers h) = Recovers-Moves s t h
Step-Moves {s} (reserves n h) = reserve-Moves s n h
Step-Moves {s} (releases n h) = release-Moves s n h

Reach-version : {p : ActorRole → Bool} {s t : RunPolicyState} → Reach p s t → s.version ≤ t.version
Reach-version here = omega arith
Reach-version (next r st) = omega (arith, Reach-version r, (Step-Moves st).version_up)

-- The version identifies the state in the history of a run: a later state is either the same state
-- or has a larger version.
pub version_identifies :
    {p : ActorRole → Bool} {s t : RunPolicyState} → Reach p s t → (t ≡ s) ⊎ (s.version < t.version)
version_identifies here = inl refl
version_identifies (next r st) = inr (omega (arith, Reach-version r, (Step-Moves st).version_up))
