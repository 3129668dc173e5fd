-- ===== src/Quality.antt =====
-- src/core/v4-lifecycle.ts: the open issues of a run, and how they are fixed or accepted.
pub mod Automated
pub mod Open
pub mod Accept
pub mod Limit
pub mod Override
mod Examples
use shan_hai_edu_ppt.Base.{
  ℕ, Bool, true, false, not, ◌&&◌, ◌||◌, Option, none, some, List, [], ◌∷◌, ◌++◌, map, String,
  is_text, is_some_text, has_text, append_text, distinct, any, keep, ◌==◌, if◌then◌else◌,
}
use shan_hai_edu_ppt.Contracts.{RepairDomain, knowledge}
use shan_hai_edu_ppt.Contracts.Failures.{
  provider_temporarily_unavailable, budget_insufficient, internal_failure,
}
use shan_hai_edu_ppt.Contracts.Lifecycle.{LifecyclePayload, revision_completed}
use shan_hai_edu_ppt.Contracts.Quality.{
  IssueCategory, duplication, cover_impact, visual_consistency, composition_conflict, image_quality,
  asset_relevance, layering_conflict, child_readability, IssueSeverity, critical, IssueSummary,
  IssueResolution, fixed, accepted,
}
use shan_hai_edu_ppt.Ports.{
  Tool, other_tool, StepStatus, completed, Output, revision_plan_output, slide_review_output,
  StepRecord, NewAgentEvent, issue_detected, issue_resolved, lifecycle, AgentEvent, StoredRun,
}
use shan_hai_edu_ppt.Ports.Repository.{append_event}

-- The map of issues by their id: `get`, `set` and `delete`. An entry that is set again keeps its
-- place.
unfoldable pub get_issue : String → List IssueSummary → Option IssueSummary
get_issue id [] = none
get_issue id (p ∷ ps) = let rest = get_issue id ps in if is_text p.id id then some p else rest

unfoldable pub set_issue : IssueSummary → List IssueSummary → List IssueSummary
set_issue q [] = q ∷ []
set_issue q (p ∷ ps) = let rest = set_issue q ps in if is_text p.id q.id then q ∷ ps else p ∷ rest

unfoldable pub delete_issue : String → List IssueSummary → List IssueSummary
delete_issue id = keep (λ p. not (is_text p.id id))

-- What an event says of an issue: that it was detected, that it was resolved, or nothing.
pub data IssueNews : Type 0 where
  detects : IssueSummary → IssueNews
  resolves : (id : String) (resolution : IssueResolution) → IssueNews
  no_news : IssueNews

abbrev pub news : NewAgentEvent → IssueNews
news (issue_detected p) = detects p
news (issue_resolved id r) = resolves id r
news _ = no_news

-- One round of the loop over the events.
abbrev pub track_issue : List IssueSummary → IssueNews → List IssueSummary
track_issue ps (detects q) = set_issue q ps
track_issue ps (resolves id r) = delete_issue id ps
track_issue ps no_news = ps

unfoldable pub track_issues : List IssueSummary → List AgentEvent → List IssueSummary
track_issues ps [] = ps
track_issues ps (e ∷ es) = track_issues (track_issue ps (news e.body)) es

-- The issues that the log leaves open.
unfoldable pub open_issues : List AgentEvent → List IssueSummary
open_issues es = track_issues [] es

abbrev pub issue_ids : List IssueSummary → List String
issue_ids = map (λ p. p.id)

-- `transaction.appendEvent` of one resolution for each id.
unfoldable pub resolve_fixed : List String → StoredRun → StoredRun
resolve_fixed [] s = s
resolve_fixed (id ∷ ids) s = resolve_fixed ids (append_event s (issue_resolved id fixed))

unfoldable pub resolve_accepted : List String → StoredRun → StoredRun
resolve_accepted [] s = s
resolve_accepted (id ∷ ids) s = resolve_accepted ids (append_event s (issue_resolved id accepted))

unfoldable pub append_fixed_issue_resolutions : StoredRun → List String → List String → StoredRun
append_fixed_issue_resolutions s issues still_open =
    let open_ids = issue_ids (open_issues s.events) in
    resolve_fixed
      (keep (λ id. not (not (has_text id open_ids) || has_text id still_open)) (distinct [] issues))
      s

abbrev pub quality_override_issue_limit : ℕ
quality_override_issue_limit = 50

abbrev pub is_non_blocking_category : IssueCategory → Bool
is_non_blocking_category duplication = true
is_non_blocking_category cover_impact = true
is_non_blocking_category visual_consistency = true
is_non_blocking_category composition_conflict = true
is_non_blocking_category image_quality = true
is_non_blocking_category asset_relevance = true
is_non_blocking_category layering_conflict = true
is_non_blocking_category child_readability = true
is_non_blocking_category _ = false

abbrev pub is_critical : IssueSeverity → Bool
is_critical critical = true
is_critical _ = false

abbrev pub is_knowledge : Option RepairDomain → Bool
is_knowledge (some knowledge) = true
is_knowledge _ = false

pub is_hard_quality_issue : IssueSummary → Bool
is_hard_quality_issue p =
    is_critical p.severity
    || is_knowledge p.repair_domain
    || not (is_non_blocking_category p.category)

abbrev is_tool : Tool → List String → Bool
is_tool (other_tool name) names = has_text name names
is_tool _ names = false

abbrev is_completed : StepStatus → Bool
is_completed completed = true
is_completed _ = false

abbrev failed_technically : LifecyclePayload → Bool
failed_technically p = elim p.reason [
  | some provider_temporarily_unavailable ↦ true
  | some budget_insufficient ↦ true
  | some internal_failure ↦ true
  | _ ↦ false
]

-- The rounds whose revision was completed with a technical failure.
technically_failed_revision_rounds : List AgentEvent → List ℕ
technically_failed_revision_rounds [] = []
technically_failed_revision_rounds (e ∷ es) =
    let rest = technically_failed_revision_rounds es in
    elim e.body [
      | lifecycle revision_completed p ↦
          if failed_technically p then p.revision_round ∷ rest else rest
      | _ ↦ rest
    ]

concat : List (List String) → List String
concat [] = []
concat (xs ∷ xss) = xs ++ concat xss

abbrev failed_operations : List ℕ → Output → List String
failed_operations rounds (revision_plan_output round operations) =
    if any (λ r. r == round) rounds then concat operations else []
failed_operations rounds _ = []

failed_revision_issues : List ℕ → List StepRecord → List String
failed_revision_issues rounds [] = []
failed_revision_issues rounds (s ∷ ss) =
    let rest = failed_revision_issues rounds ss in
    if is_tool s.tool ("plan_revision" ∷ "plan_page_revision" ∷ []) && is_completed s.status
    then failed_operations rounds s.output ++ rest
    else rest

unfoldable pub issues_with_failed_revision_execution : StoredRun → List String
unfolding technically_failed_revision_rounds failed_revision_issues concat
issues_with_failed_revision_execution s =
    failed_revision_issues (technically_failed_revision_rounds s.events) s.steps

-- `approved === false` and an impact on the quality.
abbrev is_hard_review : Output → Bool
is_hard_review (slide_review_output (some false) impact) =
    not (is_some_text impact "NON_BLOCKING_RECOMMENDATION")
is_hard_review _ = false

hard_review_issues : List StepRecord → List String
hard_review_issues [] = []
hard_review_issues (s ∷ ss) =
    let rest = hard_review_issues ss in
    if is_tool s.tool ("review_slide_image" ∷ [])
      && is_completed s.status
      && is_hard_review s.output
    then append_text s.id ":visual-review" ∷ rest
    else rest

unfoldable pub issues_with_hard_page_review_disposition : StoredRun → List String
unfolding hard_review_issues
issues_with_hard_page_review_disposition s = hard_review_issues s.steps

-- `!selected || selected.has(id)`.
abbrev pub is_selected : Option (List String) → String → Bool
is_selected none id = true
is_selected (some ids) id = has_text id ids

-- An issue that no policy may accept.
unfoldable pub is_blocking : StoredRun → IssueSummary → Bool
is_blocking s p =
    is_hard_quality_issue p
    || has_text p.id (issues_with_failed_revision_execution s)
    || has_text p.id (issues_with_hard_page_review_disposition s)

pub record AcceptanceDisposition : Type 0 where
  pub accepted_issue_ids : List String
  pub blocking_issue_ids : List String

abbrev pub dispose : List String → List String → AcceptanceDisposition
dispose ids [] = record { accepted_issue_ids = ids; blocking_issue_ids = [] }
dispose ids (b ∷ bs) = record { accepted_issue_ids = []; blocking_issue_ids = b ∷ bs }

unfoldable pub classify_open_quality_issues_for_acceptance :
    StoredRun → Option (List String) → AcceptanceDisposition
classify_open_quality_issues_for_acceptance s selected =
    let open_now = open_issues s.events in
    dispose (issue_ids (keep (λ p. is_selected selected p.id) open_now))
      (issue_ids (keep (is_blocking s) open_now))

abbrev pub append_unless_blocked : StoredRun → AcceptanceDisposition → StoredRun
append_unless_blocked s d = elim d.blocking_issue_ids [
  | [] ↦ resolve_accepted d.accepted_issue_ids s
  | _ ∷ _ ↦ s
]

unfoldable pub append_accepted_quality_issue_resolutions :
    StoredRun → Option (List String) → AcceptanceDisposition × StoredRun
append_accepted_quality_issue_resolutions s selected =
    let d = classify_open_quality_issues_for_acceptance s selected in (d, append_unless_blocked s d)
