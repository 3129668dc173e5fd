-- ===== src/Policy.antt =====
-- src/core/policy.ts: the state machine of a run and its budget.
pub mod Invariant
pub mod Actions
pub mod Budget
pub mod Graph
pub mod Lives
mod Examples
use shan_hai_edu_ppt.Base.{
  ℕ, ◌+◌, ◌-◌, Bool, true, false, not, ◌&&◌, ◌||◌, Option, none, some, List, [], ◌∷◌, ltb, ◌==◌,
  if◌then◌else◌, Result, ok, err,
}
use shan_hai_edu_ppt.Base.Int.{ℤ, Number, sub_ℕ, is_positive_safe, amount, is_below, minus}
use shan_hai_edu_ppt.Contracts.{
  RunStatus, planning, awaiting_blueprint_approval, executing, page_review, deck_review,
  awaiting_revision_approval, revising, paused, recovering, needs_human, delivering, completed,
  failed, cancelled, is_status, has_status, PresentationMode, is_v4, ActorRole, user, admin,
  RunAction, approve_blueprint, retry_planning, retry_delivery, replan, request_blueprint_revision,
  pause, resume, cancel, add_budget, approve_revision, submit_limited_revision, reject_revision,
  accept_with_override, VersionedAction,
}

-- The `code` of a `PolicyError`; its message, which repeats the statuses, is left out.
pub data PolicyCode : Type 0 where
  invalid_state_transition media_recovery_not_allowed quality_failure_recovery_not_allowed :
      PolicyCode
  usage_v2_finalization_failure_not_allowed usage_v2_finalization_recovery_not_allowed : PolicyCode
  run_version_conflict planning_retry_not_allowed delivery_retry_not_allowed : PolicyCode
  run_not_pausable run_not_resumable run_already_terminal limited_revision_not_allowed : PolicyCode
  quality_override_not_allowed quality_override_admin_required : PolicyCode
  invalid_amount run_not_active budget_exceeded budget_release_exceeds_commitment : PolicyCode

pub record RunPolicyState : Type 0 where
  pub status : RunStatus
  pub resume_state : Option RunStatus
  pub version : ℕ
  pub budget_units : ℕ
  pub committed_budget_units : ℕ
  pub quality_override : Bool
  pub presentation_mode : Option PresentationMode

abbrev pub terminal_states : List RunStatus
terminal_states = completed ∷ failed ∷ cancelled ∷ []

abbrev pub pausable_states : List RunStatus
pausable_states = executing ∷ page_review ∷ deck_review ∷ awaiting_revision_approval ∷ revising ∷ []

-- The table of transitions. A paused run has no row: `can_transition` treats it apart.
abbrev pub transitions : RunStatus → List RunStatus
transitions planning =
    awaiting_blueprint_approval ∷ executing ∷ recovering ∷ needs_human ∷ failed ∷ cancelled ∷ []
transitions awaiting_blueprint_approval = planning ∷ executing ∷ cancelled ∷ []
transitions executing = page_review ∷ paused ∷ recovering ∷ needs_human ∷ failed ∷ cancelled ∷ []
transitions page_review =
    deck_review ∷ revising ∷ paused ∷ recovering ∷ needs_human ∷ failed ∷ cancelled ∷ []
transitions deck_review =
    awaiting_revision_approval ∷ revising ∷ paused ∷ recovering ∷ needs_human ∷ delivering ∷ failed
    ∷ cancelled ∷ []
transitions awaiting_revision_approval = revising ∷ paused ∷ needs_human ∷ cancelled ∷ []
transitions revising =
    executing ∷ page_review ∷ deck_review ∷ paused ∷ recovering ∷ needs_human ∷ failed ∷ cancelled
    ∷ []
transitions needs_human = planning ∷ revising ∷ delivering ∷ cancelled ∷ []
transitions delivering = completed ∷ recovering ∷ needs_human ∷ failed ∷ cancelled ∷ []
transitions recovering =
    planning ∷ executing ∷ page_review ∷ deck_review ∷ revising ∷ delivering ∷ failed ∷ cancelled
    ∷ []
transitions completed = []
transitions failed = []
transitions cancelled = []
transitions paused = []

abbrev pub is_terminal_status : RunStatus → Bool
is_terminal_status s = has_status s terminal_states

-- `resumeState !== null && to === resumeState`.
abbrev pub is_resume_state : RunStatus → Option RunStatus → Bool
is_resume_state to none = false
is_resume_state to (some r) = is_status to r

unfoldable pub can_transition : RunStatus → RunStatus → Option RunStatus → Bool
can_transition from to resume_state =
    if is_status from paused
    then is_status to cancelled || is_resume_state to resume_state
    else has_status to (transitions from)

-- The state after a transition that is allowed.
abbrev pub moved : RunPolicyState → RunStatus → RunPolicyState
moved s to = record s {
  status = to;
  resume_state = if is_status to paused then some s.status else none;
  version = s.version + 1;
}

unfoldable pub transition_run : RunPolicyState → RunStatus → Result PolicyCode RunPolicyState
transition_run s to =
    if can_transition s.status to s.resume_state
    then ok (moved s to)
    else err invalid_state_transition

-- The technical recoveries move a run outside the table, each from one status.
abbrev jump : RunPolicyState → RunStatus → RunPolicyState
jump s to = record s { status = to; resume_state = none; version = s.version + 1 }

unfoldable pub recover_media_execution : RunPolicyState → Result PolicyCode RunPolicyState
recover_media_execution s =
    if is_status s.status needs_human then ok (jump s executing) else err media_recovery_not_allowed

unfoldable pub recover_media_revision : RunPolicyState → Result PolicyCode RunPolicyState
recover_media_revision s =
    if is_status s.status needs_human then ok (jump s revising) else err media_recovery_not_allowed

unfoldable pub recover_v4_quality_failure : RunPolicyState → Result PolicyCode RunPolicyState
recover_v4_quality_failure s =
    if not (is_status s.status failed) || not (is_v4 s.presentation_mode)
    then err quality_failure_recovery_not_allowed
    else ok (jump s deck_review)

unfoldable pub fail_completed_usage_v2_finalization :
    RunPolicyState → Result PolicyCode RunPolicyState
fail_completed_usage_v2_finalization s =
    if not (is_status s.status completed) || not (is_v4 s.presentation_mode)
    then err usage_v2_finalization_failure_not_allowed
    else ok (jump s failed)

unfoldable pub restore_completed_usage_v2_finalization :
    RunPolicyState → Result PolicyCode RunPolicyState
restore_completed_usage_v2_finalization s =
    if not (is_status s.status failed) || not (is_v4 s.presentation_mode)
    then err usage_v2_finalization_recovery_not_allowed
    else ok (jump s completed)

abbrev pub is_admin : ActorRole → Bool
is_admin admin = true
is_admin user = false

abbrev pub with_override : Result PolicyCode RunPolicyState → Result PolicyCode RunPolicyState
with_override (ok s) = ok (record s { quality_override = true })
with_override (err e) = err e

-- The actions, once the version has been checked.
unfoldable pub apply_action :
    RunPolicyState → RunAction → ActorRole → Result PolicyCode RunPolicyState
apply_action s approve_blueprint role = transition_run s executing
apply_action s retry_planning role =
    if is_status s.status needs_human
    then transition_run s planning
    else err planning_retry_not_allowed
apply_action s (replan n d) role =
    if is_status s.status needs_human
    then transition_run s planning
    else err planning_retry_not_allowed
apply_action s retry_delivery role =
    if is_status s.status needs_human
    then transition_run s delivering
    else err delivery_retry_not_allowed
apply_action s (request_blueprint_revision i) role = transition_run s planning
apply_action s pause role =
    if has_status s.status pausable_states then transition_run s paused else err run_not_pausable
apply_action s resume role = elim s.resume_state [
  | none ↦ err run_not_resumable
  | some r ↦ if is_status s.status paused then transition_run s r else err run_not_resumable
]
apply_action s (cancel m r) role =
    if is_terminal_status s.status then err run_already_terminal else transition_run s cancelled
apply_action s (add_budget n) role =
    if is_terminal_status s.status
    then err run_already_terminal
    else ok (record s { budget_units = s.budget_units + n; version = s.version + 1 })
apply_action s approve_revision role = transition_run s revising
apply_action s (submit_limited_revision i d t e) role =
    if is_status s.status needs_human
    then transition_run s revising
    else err limited_revision_not_allowed
apply_action s (reject_revision r) role = transition_run s needs_human
apply_action s (accept_with_override r is) role =
    if is_status s.status needs_human
    then if is_v4 s.presentation_mode && not (is_admin role)
      then err quality_override_admin_required
      else with_override (transition_run s delivering)
    else err quality_override_not_allowed

unfoldable pub apply_run_action :
    RunPolicyState → VersionedAction → ActorRole → Result PolicyCode RunPolicyState
unfolding apply_action
apply_run_action s a role =
    if a.expected_version == s.version
    then apply_action s a.action role
    else err run_version_conflict

pub data BudgetRefusal : Type 0 where
  invalid_amount_reason run_not_active_reason budget_exceeded_reason : BudgetRefusal

pub data BudgetDecision : Type 0 where
  allowed : (remaining_budget_units : ℤ) → BudgetDecision
  refused : (reason : BudgetRefusal) (remaining_budget_units : ℤ) → BudgetDecision

-- `state.budgetUnits - state.committedBudgetUnits`, which a broken state makes negative.
abbrev pub remaining : RunPolicyState → ℤ
remaining s = sub_ℕ s.budget_units s.committed_budget_units

abbrev pub is_inactive : RunStatus → Bool
is_inactive s = is_terminal_status s || is_status s paused || is_status s needs_human

unfoldable pub evaluate_budget : RunPolicyState → Number → BudgetDecision
evaluate_budget s n =
    if not (is_positive_safe n)
    then refused invalid_amount_reason (remaining s)
    else if is_inactive s.status
    then refused run_not_active_reason (remaining s)
    else if is_below (remaining s) (amount n)
    then refused budget_exceeded_reason (remaining s)
    else allowed (minus (remaining s) (amount n))

abbrev refusal_code : BudgetRefusal → PolicyCode
refusal_code invalid_amount_reason = invalid_amount
refusal_code run_not_active_reason = run_not_active
refusal_code budget_exceeded_reason = budget_exceeded

unfoldable pub reserve_budget : RunPolicyState → Number → Result PolicyCode RunPolicyState
unfolding evaluate_budget
reserve_budget s n = elim (evaluate_budget s n) [
  | refused r left ↦ err (refusal_code r)
  | allowed left ↦ ok (record s {
    committed_budget_units = s.committed_budget_units + amount n;
    version = s.version + 1;
  })
]

unfoldable pub release_budget : RunPolicyState → Number → Result PolicyCode RunPolicyState
release_budget s n =
    if not (is_positive_safe n)
    then err invalid_amount
    else if ltb s.committed_budget_units (amount n)
    then err budget_release_exceeds_commitment
    else ok (record s {
      committed_budget_units = s.committed_budget_units - amount n;
      version = s.version + 1;
    })
