-- ===== src/Contracts.antt =====
-- src/contracts.ts: the run's statuses, the presentation modes and the actions of a user.
pub mod Accounting
pub mod Failures
pub mod Lifecycle
pub mod Quality
pub mod UsageAccounting
use shan_hai_edu_ppt.Base.{
  ℕ, zero, suc, ◌≡◌, refl, sym, ap, ◌∙◌, ◌↔◌, Bool, true, false, Option, some, List, String, ◌==◌,
  ==_iff, any,
}

pub data RunStatus : Type 0 where
  planning awaiting_blueprint_approval executing page_review deck_review : RunStatus
  awaiting_revision_approval revising paused recovering needs_human : RunStatus
  delivering completed failed cancelled : RunStatus

-- The position in the enumeration, by which statuses are compared.
abbrev rank : RunStatus → ℕ
rank planning = 0
rank awaiting_blueprint_approval = 1
rank executing = 2
rank page_review = 3
rank deck_review = 4
rank awaiting_revision_approval = 5
rank revising = 6
rank paused = 7
rank recovering = 8
rank needs_human = 9
rank delivering = 10
rank completed = 11
rank failed = 12
rank cancelled = 13

-- `===` on statuses.
abbrev pub is_status : RunStatus → RunStatus → Bool
is_status a b = rank a == rank b

abbrev at_rank : ℕ → RunStatus
at_rank zero = planning
at_rank (suc zero) = awaiting_blueprint_approval
at_rank (suc (suc zero)) = executing
at_rank (suc (suc (suc zero))) = page_review
at_rank (suc (suc (suc (suc zero)))) = deck_review
at_rank (suc (suc (suc (suc (suc zero))))) = awaiting_revision_approval
at_rank (suc (suc (suc (suc (suc (suc zero)))))) = revising
at_rank (suc (suc (suc (suc (suc (suc (suc zero))))))) = paused
at_rank (suc (suc (suc (suc (suc (suc (suc (suc zero)))))))) = recovering
at_rank (suc (suc (suc (suc (suc (suc (suc (suc (suc zero))))))))) = needs_human
at_rank (suc (suc (suc (suc (suc (suc (suc (suc (suc (suc zero)))))))))) = delivering
at_rank (suc (suc (suc (suc (suc (suc (suc (suc (suc (suc (suc zero))))))))))) = completed
at_rank (suc (suc (suc (suc (suc (suc (suc (suc (suc (suc (suc (suc zero)))))))))))) = failed
at_rank _ = cancelled

at_rank-rank : (s : RunStatus) → at_rank (rank s) ≡ s
at_rank-rank planning = refl
at_rank-rank awaiting_blueprint_approval = refl
at_rank-rank executing = refl
at_rank-rank page_review = refl
at_rank-rank deck_review = refl
at_rank-rank awaiting_revision_approval = refl
at_rank-rank revising = refl
at_rank-rank paused = refl
at_rank-rank recovering = refl
at_rank-rank needs_human = refl
at_rank-rank delivering = refl
at_rank-rank completed = refl
at_rank-rank failed = refl
at_rank-rank cancelled = refl

pub is_status_iff : (a b : RunStatus) → (is_status a b ≡ true) ↔ (a ≡ b)
is_status_iff a b = (
  λ h. sym (at_rank-rank a) ∙ ap at_rank ((==_iff _ _).0 h) ∙ at_rank-rank b,
  λ e. (==_iff _ _).1 (ap rank e),
)

pub is_status_self : (s : RunStatus) → is_status s s ≡ true
is_status_self s = (is_status_iff s s).1 refl

-- `Set.has`.
abbrev pub has_status : RunStatus → List RunStatus → Bool
has_status s = any (is_status s)

pub data PresentationMode : Type 0 where
  slide_image_v2 slide_image_v2_1 layered_courseware_v3 visual_deck_v4 : PresentationMode

-- `mode === 'VISUAL_DECK_V4'`; the mode is optional on a stored run.
abbrev pub is_v4 : Option PresentationMode → Bool
is_v4 (some visual_deck_v4) = true
is_v4 _ = false

pub data ActorRole : Type 0 where
  user admin : ActorRole

pub data RepairDomain : Type 0 where
  knowledge asset layout : RepairDomain

pub data RunAction : Type 0 where
  approve_blueprint retry_planning retry_delivery : RunAction
  replan : (slide_count : ℕ) (visual_direction : String) → RunAction
  request_blueprint_revision : (instruction : String) → RunAction
  pause resume : RunAction
  cancel : (stop_new_submissions : Bool) (reason : Option String) → RunAction
  add_budget : (additional_budget_units : ℕ) → RunAction
  approve_revision : RunAction
  submit_limited_revision :
      (slide_id : String) (domain : RepairDomain) (instruction : String)
      (target_element_id : Option String)
      → RunAction
  reject_revision : (reason : String) → RunAction
  accept_with_override : (reason : String) (issue_ids : List String) → RunAction

-- `action.type === 'ACCEPT_WITH_OVERRIDE'`.
abbrev pub is_override : RunAction → Bool
is_override (accept_with_override r is) = true
is_override _ = false

-- Every action carries the version that its sender has seen.
pub record VersionedAction : Type 0 where
  pub expected_version : ℕ
  pub action : RunAction
