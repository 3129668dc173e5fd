-- ===== src/Policy/Lives.antt =====
-- Where the life of a run may lead: src/core/policy.ts.
use shan_hai_edu_ppt.Base.{
  ◌≡◌, refl, ◌∙◌, inl, inr, Bool, true, false, some, Option, arith, ok, Bool-cases, Option-cases,
}
use shan_hai_edu_ppt.Base.Int.{Number}
use shan_hai_edu_ppt.Contracts.{
  RunStatus, planning, awaiting_blueprint_approval, executing, page_review, deck_review,
  awaiting_revision_approval, revising, paused, recovering, needs_human, delivering, completed,
  failed, cancelled, is_status, is_status_self, has_status, ActorRole, user, admin, is_v4,
  VersionedAction,
}
use shan_hai_edu_ppt.Policy.{
  RunPolicyState, pausable_states, is_terminal_status, can_transition, moved, transition_run,
  apply_run_action, recover_media_execution, recover_media_revision, recover_v4_quality_failure,
  fail_completed_usage_v2_finalization, restore_completed_usage_v2_finalization, reserve_budget,
  release_budget,
}
use shan_hai_edu_ppt.Policy.Invariant.{IsWellFormed, transition_run-eq-ok}
use shan_hai_edu_ppt.Policy.Actions.{override_needs_admin}
use shan_hai_edu_ppt.Policy.Graph.{Step, acts, moves, recovers, reserves, releases, Recovers}

abbrev pub users_only : ActorRole → Bool
users_only user = true
users_only admin = false

-- Transitions of the table, one after the other, and nothing else.
pub data Transits : RunPolicyState → RunPolicyState → Type 0 where
  arrived : {s : RunPolicyState} → Transits s s
  via :
      {s t u : RunPolicyState} (to : RunStatus)
      → transition_run s to ≡ ok t
      → Transits t u
      → Transits s u

abbrev Completes : RunPolicyState → Type 0
Completes s = (t : RunPolicyState) × Transits s t × (t.status ≡ completed)

through :
    (s : RunPolicyState) (to : RunStatus)
    → can_transition s.status to s.resume_state ≡ true
    → Completes (moved s to)
    → Completes s
unfolding transition_run
through s to h (t, r, e) = (t, via to (ground arith) r, e)

delivering-Completes : (s : RunPolicyState) → s.status ≡ delivering → Completes s
unfolding can_transition
delivering-Completes s e = through s completed (ground arith) (moved s completed, arrived, refl)

deck_review-Completes : (s : RunPolicyState) → s.status ≡ deck_review → Completes s
unfolding can_transition
deck_review-Completes s e =
    through s delivering (ground arith) (delivering-Completes (moved s delivering) refl)

page_review-Completes : (s : RunPolicyState) → s.status ≡ page_review → Completes s
unfolding can_transition
page_review-Completes s e =
    through s deck_review (ground arith) (deck_review-Completes (moved s deck_review) refl)

executing-Completes : (s : RunPolicyState) → s.status ≡ executing → Completes s
unfolding can_transition
executing-Completes s e =
    through s page_review (ground arith) (page_review-Completes (moved s page_review) refl)

revising-Completes : (s : RunPolicyState) → s.status ≡ revising → Completes s
unfolding can_transition
revising-Completes s e =
    through s executing (ground arith) (executing-Completes (moved s executing) refl)

unpaused-Completes :
    (s : RunPolicyState) (st : RunStatus)
    → s.status ≡ st
    → is_terminal_status st ≡ false
    → is_status st paused ≡ false
    → Completes s
unfolding can_transition
unpaused-Completes s planning e h n =
    through s executing (ground arith) (executing-Completes (moved s executing) refl)
unpaused-Completes s awaiting_blueprint_approval e h n =
    through s executing (ground arith) (executing-Completes (moved s executing) refl)
unpaused-Completes s executing e h n = executing-Completes s e
unpaused-Completes s page_review e h n = page_review-Completes s e
unpaused-Completes s deck_review e h n = deck_review-Completes s e
unpaused-Completes s awaiting_revision_approval e h n =
    through s revising (ground arith) (revising-Completes (moved s revising) refl)
unpaused-Completes s revising e h n = revising-Completes s e
unpaused-Completes s paused e h n = absurd (ground arith)
unpaused-Completes s recovering e h n =
    through s delivering (ground arith) (delivering-Completes (moved s delivering) refl)
unpaused-Completes s needs_human e h n =
    through s delivering (ground arith) (delivering-Completes (moved s delivering) refl)
unpaused-Completes s delivering e h n = delivering-Completes s e
unpaused-Completes s completed e h n = absurd (ground arith)
unpaused-Completes s failed e h n = absurd (ground arith)
unpaused-Completes s cancelled e h n = absurd (ground arith)

pausable_works :
    (r : RunStatus)
    → has_status r pausable_states ≡ true
    → (is_terminal_status r ≡ false) × (is_status r paused ≡ false)
pausable_works r h = ground arith

resume_possible :
    (s r : RunStatus) (o : Option RunStatus)
    → is_status s paused ≡ true
    → o ≡ some r
    → can_transition s r o ≡ true
unfolding can_transition
resume_possible s r o h e = ground (arith, is_status_self r)

-- No well-formed run is trapped: from every status but the final ones, a paused run included,
-- transitions of the table alone, each of which succeeds, lead to COMPLETED.
pub live_completes :
    (s : RunPolicyState)
    → IsWellFormed s
    → is_terminal_status s.status ≡ false
    → (t : RunPolicyState) × Transits s t × (t.status ≡ completed)
live_completes s w live = elim (Bool-cases (is_status s.status paused)) [
  | inr off ↦ unpaused-Completes s s.status refl live off
  | inl on ↦ elim (Option-cases s.resume_state) [
    | inl e ↦ absurd (ground (arith, w.resume_kept))
    | inr (r, e) ↦
        let works : has_status r pausable_states ≡ true = ground (arith, w.resume_kept) in
        let (terminal, off) = pausable_works r works in
        through s r (resume_possible s.status r s.resume_state on e)
          (unpaused-Completes (moved s r) r refl terminal off)
  ]
]

-- The part of a state on which the quality gate depends.
abbrev pub GateShut : RunPolicyState → Type 0
GateShut s = (is_v4 s.presentation_mode ≡ true) × (s.quality_override ≡ false)

transition_run-override_kept :
    (s : RunPolicyState) (to : RunStatus) {t : RunPolicyState}
    → transition_run s to ≡ ok t
    → t.quality_override ≡ s.quality_override
transition_run-override_kept s to h = ground (arith, transition_run-eq-ok s to h)

Recovers-override_kept :
    (s t : RunPolicyState) → Recovers s t → t.quality_override ≡ s.quality_override
unfolding recover_media_execution recover_media_revision recover_v4_quality_failure
    fail_completed_usage_v2_finalization restore_completed_usage_v2_finalization
Recovers-override_kept s t h = ground arith

reserve-override_kept :
    (s : RunPolicyState) (n : Number) {t : RunPolicyState}
    → reserve_budget s n ≡ ok t
    → t.quality_override ≡ s.quality_override
unfolding reserve_budget
reserve-override_kept s n h = ground arith

release-override_kept :
    (s : RunPolicyState) (n : Number) {t : RunPolicyState}
    → release_budget s n ≡ ok t
    → t.quality_override ≡ s.quality_override
unfolding release_budget
release-override_kept s n h = ground arith

user_action-override_kept :
    (s : RunPolicyState) (a : VersionedAction) (role : ActorRole) {t : RunPolicyState}
    → users_only role ≡ true
    → GateShut s
    → apply_run_action s a role ≡ ok t
    → t.quality_override ≡ false
user_action-override_kept s a role {t} u g h = elim (Bool-cases t.quality_override) [
  | inr off ↦ off
  | inl on ↦ absurd (ground (arith, override_needs_admin s a role h g.1 on))
]

pub Step-override_kept :
    {s t : RunPolicyState} → Step users_only s t → GateShut s → t.quality_override ≡ false
Step-override_kept {s} (acts a role u h) g = user_action-override_kept s a role u g h
Step-override_kept {s} (moves to h) g = transition_run-override_kept s to h ∙ g.1
Step-override_kept {s} {t} (recovers h) g = Recovers-override_kept s t h ∙ g.1
Step-override_kept {s} (reserves n h) g = reserve-override_kept s n h ∙ g.1
Step-override_kept {s} (releases n h) g = release-override_kept s n h ∙ g.1
