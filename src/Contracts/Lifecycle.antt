-- ===== src/Contracts/Lifecycle.antt =====
-- src/contracts.ts: the stages of a V4 run and the payload of the events that report them.
use shan_hai_edu_ppt.Base.{ℕ, Bool, true, false, ◌&&◌, Option, none, some, List, [], ◌∷◌, ◌==◌}
use shan_hai_edu_ppt.Contracts.Accounting.{TerminalAccounting}
use shan_hai_edu_ppt.Contracts.Failures.{
  LifecycleReason, budget_insufficient, provider_temporarily_unavailable, revision_limit_reached,
  user_confirmation_required, planning_failed, page_review_rejected, page_review_failed,
  deck_review_rejected, deck_review_failed, revision_failed, revision_rejected_by_user,
  delivery_failed, internal_failure, paused_by_user, cancelled_by_user, RunFailureCode,
  PublicErrorCategory,
}

pub data LifecycleStage : Type 0 where
  planning generation page_review revision deck_review delivery run_stage : LifecycleStage

abbrev stage_number : LifecycleStage → ℕ
stage_number planning = 0
stage_number generation = 1
stage_number page_review = 2
stage_number revision = 3
stage_number deck_review = 4
stage_number delivery = 5
stage_number run_stage = 6

abbrev pub is_stage : LifecycleStage → LifecycleStage → Bool
is_stage a b = stage_number a == stage_number b

pub data LifecycleEventType : Type 0 where
  planning_started planning_completed : LifecycleEventType
  generation_started generation_progress generation_completed : LifecycleEventType
  page_review_started page_review_completed : LifecycleEventType
  revision_started revision_progress revision_completed : LifecycleEventType
  deck_review_started deck_review_completed : LifecycleEventType
  delivery_started delivery_completed : LifecycleEventType

-- What follows the point in an event's type.
pub data Phase : Type 0 where
  started progress completed : Phase

abbrev pub is_phase : Phase → Phase → Bool
is_phase started started = true
is_phase progress progress = true
is_phase completed completed = true
is_phase _ _ = false

pub data RevisionKind : Type 0 where
  page_visual deck_content deck_visual : RevisionKind

pub data NextAction : Type 0 where
  approve_blueprint_next add_budget_next approve_revision_next : NextAction
  retry_next review_result_next contact_support_next : NextAction

pub record LifecyclePayload : Type 0 where
  pub stage : LifecycleStage
  pub completed_count : ℕ
  pub total : ℕ
  pub page_numbers : List ℕ
  pub revision_kind : Option RevisionKind
  pub revision_round : ℕ
  pub max_revision_rounds : ℕ
  pub budget_units : ℕ
  pub committed_budget_units : ℕ
  pub reason : Option LifecycleReason
  pub retryable : Option Bool
  pub requires_user_action : Bool
  pub next_action : Option NextAction

-- The payload of `run.failed` in V4; its public error repeats the code and carries the category.
pub record RunFailure : Type 0 where
  pub payload : LifecyclePayload
  pub error_code : RunFailureCode
  pub category : PublicErrorCategory
  pub accounting : Option TerminalAccounting

abbrev reason_number : LifecycleReason → ℕ
reason_number budget_insufficient = 1
reason_number provider_temporarily_unavailable = 2
reason_number revision_limit_reached = 3
reason_number user_confirmation_required = 4
reason_number planning_failed = 5
reason_number page_review_rejected = 6
reason_number page_review_failed = 7
reason_number deck_review_rejected = 8
reason_number deck_review_failed = 9
reason_number revision_failed = 10
reason_number revision_rejected_by_user = 11
reason_number delivery_failed = 12
reason_number internal_failure = 13
reason_number paused_by_user = 14
reason_number cancelled_by_user = 15

abbrev kind_number : RevisionKind → ℕ
kind_number page_visual = 1
kind_number deck_content = 2
kind_number deck_visual = 3

abbrev action_number : NextAction → ℕ
action_number approve_blueprint_next = 1
action_number add_budget_next = 2
action_number approve_revision_next = 3
action_number retry_next = 4
action_number review_result_next = 5
action_number contact_support_next = 6

abbrev truth_number : Bool → ℕ
truth_number true = 1
truth_number false = 2

-- The number of a field that may be null, which is 0.
abbrev number_of {ℓ} : {A : Type ℓ} → (A → ℕ) → Option A → ℕ
number_of f none = 0
number_of f (some x) = f x

is_list : List ℕ → List ℕ → Bool
is_list [] [] = true
is_list (x ∷ xs) (y ∷ ys) = x == y && is_list xs ys
is_list _ _ = false

-- `JSON.stringify(p) === JSON.stringify(q)`: the same fields, in the same order.
unfoldable pub is_payload : LifecyclePayload → LifecyclePayload → Bool
unfolding is_list
is_payload p q =
    is_stage p.stage q.stage
    && p.completed_count == q.completed_count
    && p.total == q.total
    && is_list p.page_numbers q.page_numbers
    && number_of kind_number p.revision_kind == number_of kind_number q.revision_kind
    && p.revision_round == q.revision_round
    && p.max_revision_rounds == q.max_revision_rounds
    && p.budget_units == q.budget_units
    && p.committed_budget_units == q.committed_budget_units
    && number_of reason_number p.reason == number_of reason_number q.reason
    && number_of truth_number p.retryable == number_of truth_number q.retryable
    && truth_number p.requires_user_action == truth_number q.requires_user_action
    && number_of action_number p.next_action == number_of action_number q.next_action
