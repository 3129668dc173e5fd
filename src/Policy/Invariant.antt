-- ===== src/Policy/Invariant.antt =====
-- What holds of a run between two operations of src/core/policy.ts.
use shan_hai_edu_ppt.Base.{
  ℕ, ◌≤◌, ◌≡◌, refl, sym, ◌⊎◌, Bool, true, false, not, ◌&&◌, Option, none, some, arith,
  if◌then◌else◌, Option-cases, Result, err, ok, inl, inr, ◌+◌, subst,
}
use shan_hai_edu_ppt.Contracts.{
  RunStatus, planning, paused, delivering, executing, revising, needs_human, cancelled, is_status,
  has_status, RunAction, approve_blueprint, retry_planning, retry_delivery, replan,
  request_blueprint_revision, pause, resume, cancel, add_budget, approve_revision,
  submit_limited_revision, reject_revision, accept_with_override, ActorRole, is_v4, is_override,
  VersionedAction,
}
use shan_hai_edu_ppt.Policy.{
  is_admin, PolicyCode, with_override, RunPolicyState, pausable_states, can_transition,
  transition_run, apply_action, apply_run_action, is_terminal_status, moved,
  recover_media_execution, recover_media_revision, recover_v4_quality_failure,
  fail_completed_usage_v2_finalization, restore_completed_usage_v2_finalization,
}

-- A resume state is kept exactly while the run is paused, and it is one that can be paused.
abbrev pub resume_matches : RunStatus → Option RunStatus → Bool
resume_matches s none = if is_status s paused then false else true
resume_matches s (some r) = if is_status s paused then has_status r pausable_states else false

pub record IsWellFormed (s : RunPolicyState) : Type 0 where
  pub resume_kept : resume_matches s.status s.resume_state ≡ true
  pub within : s.committed_budget_units ≤ s.budget_units

-- Only a pausable run moves to the paused state.
pub can_pause :
    (from : RunStatus) (r : Option RunStatus)
    → can_transition from paused r ≡ true
    → resume_matches from r ≡ true
    → has_status from pausable_states ≡ true
unfolding can_transition
can_pause planning r h w = ground arith
can_pause _ r h w = ground arith

pub transition_run-eq-ok :
    (s : RunPolicyState) (to : RunStatus) {t : RunPolicyState}
    → transition_run s to ≡ ok t
    → (can_transition s.status to s.resume_state ≡ true) × (moved s to ≡ t)
unfolding transition_run
transition_run-eq-ok s to h = ground arith

resume_matches-moved :
    (from to : RunStatus) (r : Option RunStatus)
    → can_transition from to r ≡ true
    → resume_matches from r ≡ true
    → resume_matches to (if is_status to paused then some from else none) ≡ true
resume_matches-moved from paused r h w = can_pause from r h w
resume_matches-moved from _ r h w = refl

pub transition_run-IsWellFormed :
    (s : RunPolicyState) (to : RunStatus) {t : RunPolicyState}
    → transition_run s to ≡ ok t
    → IsWellFormed s
    → IsWellFormed t
transition_run-IsWellFormed s to {t} h w =
    let (can, e) = transition_run-eq-ok s to h in
    subst IsWellFormed e (record {
      resume_kept = resume_matches-moved s.status to s.resume_state can w.resume_kept;
      within = w.within;
    })

-- An action that is accepted goes through the table, only adds to the budget, or is the override.
pub data Outcome (s : RunPolicyState) (a : RunAction) (role : ActorRole) (t : RunPolicyState)
    : Type 0 where
  transits : (to : RunStatus) → transition_run s to ≡ ok t → Outcome s a role t
  funds :
      (n : ℕ)
      → is_terminal_status s.status ≡ false
      → t ≡ record s { budget_units = s.budget_units + n; version = s.version + 1 }
      → Outcome s a role t
  overrides :
      {u : RunPolicyState}
      → transition_run s delivering ≡ ok u
      → t ≡ record u { quality_override = true }
      → is_override a ≡ true
      → is_status s.status needs_human ≡ true
      → is_v4 s.presentation_mode && not (is_admin role) ≡ false
      → Outcome s a role t

-- A guard that a successful call has passed.
if-eq-ok {ℓ} :
    {E : Type 0} {A : Type ℓ} (b : Bool) (m : Result E A) (e : E) {t : A}
    → (if b then m else err e) ≡ ok t
    → (b ≡ true) × (m ≡ ok t)
if-eq-ok true m e h = (refl, h)
if-eq-ok false m e h = cc

unless-eq-ok {ℓ} :
    {E : Type 0} {A : Type ℓ} (b : Bool) (m : Result E A) (e : E) {t : A}
    → (if b then err e else m) ≡ ok t
    → (m ≡ ok t) × (b ≡ false)
unless-eq-ok true m e h = cc
unless-eq-ok false m e h = (h, refl)

with_override-eq-ok :
    (m : Result PolicyCode RunPolicyState) {t : RunPolicyState}
    → with_override m ≡ ok t
    → (u : RunPolicyState) × (m ≡ ok u) × (t ≡ record u { quality_override = true })
with_override-eq-ok (ok u) h = (u, refl, cc)
with_override-eq-ok (err e) h = cc

apply_action-Outcome :
    (s : RunPolicyState) (a : RunAction) (role : ActorRole) {t : RunPolicyState}
    → apply_action s a role ≡ ok t
    → Outcome s a role t
unfolding apply_action
apply_action-Outcome s approve_blueprint role h = transits executing h
apply_action-Outcome s retry_planning role h = transits planning (if-eq-ok _ _ _ h).1
apply_action-Outcome s (replan n d) role h = transits planning (if-eq-ok _ _ _ h).1
apply_action-Outcome s retry_delivery role h = transits delivering (if-eq-ok _ _ _ h).1
apply_action-Outcome s (request_blueprint_revision i) role h = transits planning h
apply_action-Outcome s pause role h = transits paused (if-eq-ok _ _ _ h).1
apply_action-Outcome s resume role h = elim (Option-cases s.resume_state) [
  | inl e ↦ absurd (ground arith)
  | inr (r, e) ↦ transits r (ground arith)
]
apply_action-Outcome s (cancel m r) role h = transits cancelled (ground arith)
apply_action-Outcome s (add_budget n) role h = funds n (ground arith) (ground arith)
apply_action-Outcome s approve_revision role h = transits revising h
apply_action-Outcome s (submit_limited_revision i d t e) role h =
    transits revising (if-eq-ok _ _ _ h).1
apply_action-Outcome s (reject_revision r) role h = transits needs_human h
apply_action-Outcome s (accept_with_override r is) role h =
    let (waits, inner) = if-eq-ok _ _ _ h in
    let (moves, entitled) = unless-eq-ok _ _ _ inner in
    let (u, accepted, e) = with_override-eq-ok _ moves in overrides accepted e refl waits entitled

pub apply_run_action-eq-ok :
    (s : RunPolicyState) (a : VersionedAction) (role : ActorRole) {t : RunPolicyState}
    → apply_run_action s a role ≡ ok t
    → (a.expected_version ≡ s.version) × (apply_action s a.action role ≡ ok t)
unfolding apply_run_action
apply_run_action-eq-ok s a role h = ground arith

pub apply_run_action-Outcome :
    (s : RunPolicyState) (a : VersionedAction) (role : ActorRole) {t : RunPolicyState}
    → apply_run_action s a role ≡ ok t
    → Outcome s a.action role t
apply_run_action-Outcome s a role h =
    apply_action-Outcome s a.action role (apply_run_action-eq-ok s a role h).1

Outcome-IsWellFormed :
    {s t : RunPolicyState} {a : RunAction} {role : ActorRole}
    → Outcome s a role t
    → IsWellFormed s
    → IsWellFormed t
Outcome-IsWellFormed {s} (transits to h) w = transition_run-IsWellFormed s to h w
Outcome-IsWellFormed (funds n live e) w = ground arith
Outcome-IsWellFormed {s} (overrides h e o n a) w =
    let kept = transition_run-IsWellFormed s delivering h w in
    subst IsWellFormed (sym e) (record { resume_kept = kept.resume_kept; within = kept.within })

-- Every accepted action keeps the run well formed: a resume state exactly while it is paused, and
-- no more committed than the budget.
pub apply_run_action-IsWellFormed :
    (s : RunPolicyState) (a : VersionedAction) (role : ActorRole) {t : RunPolicyState}
    → apply_run_action s a role ≡ ok t
    → IsWellFormed s
    → IsWellFormed t
apply_run_action-IsWellFormed s a role h w =
    Outcome-IsWellFormed (apply_run_action-Outcome s a role h) w

-- The technical recoveries, which leave the table, keep the run well formed too.
pub recoveries-IsWellFormed :
    (s : RunPolicyState) {t : RunPolicyState}
    → (recover_media_execution s ≡ ok t)
      ⊎ (recover_media_revision s ≡ ok t)
      ⊎ (recover_v4_quality_failure s ≡ ok t)
      ⊎ (fail_completed_usage_v2_finalization s ≡ ok t)
      ⊎ (restore_completed_usage_v2_finalization s ≡ ok t)
    → IsWellFormed s
    → IsWellFormed t
unfolding recover_media_execution recover_media_revision recover_v4_quality_failure
    fail_completed_usage_v2_finalization restore_completed_usage_v2_finalization
recoveries-IsWellFormed s h w = ground arith
