-- ===== src/Policy/Actions.antt =====
-- What the actions of a user do to a run: src/core/policy.ts, applyRunAction.
use shan_hai_edu_ppt.Base.{
  ◌+◌, ◌≡◌, refl, ◌≢◌, ◌⊎◌, inl, inr, Bool, true, false, Option, none, some, String, arith, ok, err,
  Option-cases,
}
use shan_hai_edu_ppt.Contracts.{
  RunStatus, planning, paused, cancelled, needs_human, is_status, has_status, is_status_self,
  is_status_iff, delivering, RunAction, pause, resume, cancel, ActorRole, admin, is_v4,
  VersionedAction, is_override,
}
use shan_hai_edu_ppt.Policy.{
  RunPolicyState, run_version_conflict, pausable_states, is_terminal_status, moved, can_transition,
  transition_run, apply_action, apply_run_action,
}
use shan_hai_edu_ppt.Policy.Invariant.{
  IsWellFormed, transition_run-eq-ok, Outcome, transits, funds, overrides, apply_run_action-eq-ok,
  apply_run_action-Outcome,
}

-- An action that its sender addresses to the present version.
abbrev pub now : RunPolicyState → RunAction → VersionedAction
now s a = record { expected_version = s.version; action = a }

cancel_possible :
    (s : RunStatus) (r : Option RunStatus)
    → is_terminal_status s ≡ false
    → can_transition s cancelled r ≡ true
unfolding can_transition
cancel_possible planning r h = ground arith
cancel_possible _ r h = ground arith

-- A run is cancelled from every state that is not final, a paused one too.
pub cancel_succeeds :
    (s : RunPolicyState) (stop : Bool) (reason : Option String) (role : ActorRole)
    → is_terminal_status s.status ≡ false
    → apply_run_action s (now s (cancel stop reason)) role ≡ ok (moved s cancelled)
unfolding apply_run_action apply_action transition_run
cancel_succeeds s stop reason role h = ground (arith, cancel_possible s.status s.resume_state h)

pause_possible :
    (s : RunStatus) (r : Option RunStatus)
    → has_status s pausable_states ≡ true
    → can_transition s paused r ≡ true
unfolding can_transition
pause_possible planning r h = ground arith
pause_possible _ r h = ground arith

not_paused : (s : RunStatus) → has_status s pausable_states ≡ true → is_status s paused ≡ false
not_paused s h = ground arith

resume_possible : (s : RunStatus) → can_transition paused s (some s) ≡ true
unfolding can_transition
resume_possible s = rw (is_status_self s) (ground arith)

-- Pausing a pausable run succeeds, and resuming the paused run brings back the status it had, with
-- its budget untouched, no resume state left and the version moved by two.
pub resume-pause :
    (s : RunPolicyState) (role role' : ActorRole)
    → has_status s.status pausable_states ≡ true
    → (t : RunPolicyState) × (apply_run_action s (now s pause) role ≡ ok t)
      × (t.status ≡ paused)
      × (apply_run_action t (now t resume) role'
          ≡ ok (record s { resume_state = none; version = s.version + 1 + 1 }))
unfolding apply_run_action apply_action transition_run
resume-pause s role role' h = (
  moved s paused,
  ground (arith, pause_possible s.status s.resume_state h),
  refl,
  ground (arith, not_paused s.status h, resume_possible s.status),
)

-- A paused run that is well formed is never stuck: resuming it succeeds, and leads to the state
-- that was kept, one that can be paused again.
pub resume_succeeds :
    (s : RunPolicyState) (role : ActorRole)
    → IsWellFormed s
    → s.status ≡ paused
    → (r : RunStatus) × (s.resume_state ≡ some r)
      × (has_status r pausable_states ≡ true)
      × (apply_run_action s (now s resume) role ≡ ok (moved s r))
unfolding apply_run_action apply_action transition_run can_transition
resume_succeeds s role w p = elim (Option-cases s.resume_state) [
  | inl e ↦ absurd (ground (arith, w.resume_kept))
  | inr (r, e) ↦ (r, e, ground (arith, w.resume_kept), ground (arith, is_status_self r))
]

version_of_Outcome :
    {s t : RunPolicyState} {a : RunAction} {role : ActorRole}
    → Outcome s a role t
    → t.version ≡ s.version + 1
version_of_Outcome {s} (transits to h) = ground (arith, transition_run-eq-ok s to h)
version_of_Outcome (funds n live e) = ground arith
version_of_Outcome {s} (overrides h e o n v) = ground (arith, transition_run-eq-ok s delivering h)

-- Of two actions that saw the same version at most one takes effect: once the first is accepted,
-- the second is refused with RUN_VERSION_CONFLICT, whatever it is.
pub stale_refused :
    (s : RunPolicyState) (a b : VersionedAction) (role role' : ActorRole) {t : RunPolicyState}
    → apply_run_action s a role ≡ ok t
    → b.expected_version ≡ a.expected_version
    → apply_run_action t b role' ≡ err run_version_conflict
unfolding apply_run_action
stale_refused s a b role role' {t} h same = ground (
  arith,
  version_of_Outcome (apply_run_action-Outcome s a role h),
  apply_run_action-eq-ok s a role h,
)

leaves_live :
    (s to : RunStatus) (r : Option RunStatus)
    → can_transition s to r ≡ true
    → is_terminal_status s ≡ false
unfolding can_transition
leaves_live planning to r h = refl
leaves_live _ to r h = ground arith

transits_needs_live :
    (s : RunPolicyState) (to : RunStatus) {t : RunPolicyState}
    → transition_run s to ≡ ok t
    → is_terminal_status s.status ≡ false
transits_needs_live s to h = leaves_live s.status to s.resume_state (transition_run-eq-ok s to h).0

-- COMPLETED, FAILED and CANCELLED are final for a user: no action is accepted in them.
pub terminal_refuses :
    (s : RunPolicyState) (a : VersionedAction) (role : ActorRole) (t : RunPolicyState)
    → is_terminal_status s.status ≡ true
    → apply_run_action s a role ≢ ok t
terminal_refuses s a role t h p = elim (apply_run_action-Outcome s a role p) [
  | transits to q ↦ cc (transits_needs_live s to q)
  | funds n live e ↦ cc
  | overrides q e o n v ↦ cc (transits_needs_live s delivering q)
]

-- The quality gate: an action that turns on the override is ACCEPT_WITH_OVERRIDE on a run that
-- waits for a human, an administrator's if the run is V4, and it leads to DELIVERING.
pub override_needs_admin :
    (s : RunPolicyState) (a : VersionedAction) (role : ActorRole) {t : RunPolicyState}
    → apply_run_action s a role ≡ ok t
    → s.quality_override ≡ false
    → t.quality_override ≡ true
    → (s.status ≡ needs_human)
      × (t.status ≡ delivering)
      × (is_override a.action ≡ true)
      × ((is_v4 s.presentation_mode ≡ false) ⊎ (role ≡ admin))
override_needs_admin s a role h before after = elim (apply_run_action-Outcome s a role h) [
  | transits to q ↦ absurd (ground (arith, transition_run-eq-ok s to q))
  | funds n live e ↦ absurd (ground arith)
  | overrides q e o n v ↦ (
    (is_status_iff _ _).0 n,
    ground (arith, transition_run-eq-ok s delivering q),
    o,
    ground arith,
  )
]
