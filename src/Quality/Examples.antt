-- ===== src/Quality/Examples.antt =====
-- The theorems about quality issues at a run with two open issues.
use shan_hai_edu_ppt.Base.{
  ℕ, ◌≡◌, refl, ◌⊎◌, true, false, none, some, [], ◌∷◌, String, has_text, any, append_text,
  take_text, if◌then◌else◌, ok, err, distinct, is_text,
}
use shan_hai_edu_ppt.Contracts.{is_v4}
use shan_hai_edu_ppt.Contracts.Quality.{
  bounded_auto, IssueCategory, duplication, factual_risk, warning, open_issue, IssueSummary,
  accepted,
}
use shan_hai_edu_ppt.Ports.{RunRecord, issue_detected, issue_resolved, StoredRun}
use shan_hai_edu_ppt.Ports.Repository.Examples.{event, sample}
use shan_hai_edu_ppt.Quality.{
  get_issue, open_issues, is_blocking, append_accepted_quality_issue_resolutions, is_selected,
  is_hard_quality_issue, issues_with_failed_revision_execution,
  issues_with_hard_page_review_disposition,
}
use shan_hai_edu_ppt.Quality.Automated.{
  QualityKey, no_actionable_issue, accepted_issue_overflow, is_bounded_auto, first_accepted_at,
  audit_for, mark_automated_quality_acceptance, ensure_automated_quality_acceptance_issue,
  detections, accepted_issues, ensure_for, complete_accepted_issue_ids,
  classify_automated_quality_acceptance_issues, is_invalid_acceptance,
}
use shan_hai_edu_ppt.Quality.Open.{last_news, left_by, open_issues-last_news}
use shan_hai_edu_ppt.Quality.Accept.{accept_all_or_nothing}
use shan_hai_edu_ppt.Quality.Override.{
  OverrideHistory, here, next, accepts_by_policy, IsByPolicy, users_cannot_override,
}
use shan_hai_edu_ppt.Quality.Limit.{IsIssueList, audit_whole}

abbrev issue : String → IssueCategory → IssueSummary
issue id category = record {
  id = id;
  category = category;
  severity = warning;
  summary = "两页内容重复";
  slide_ids = [];
  source_chunk_ids = [];
  status = open_issue;
  repair_domain = none;
}

abbrev with_issues : StoredRun
with_issues = record sample {
  run = record sample.run { automation_level = bounded_auto };
  events =
      event 1 (issue_detected (issue "a" duplication))
      ∷ event 2 (issue_detected (issue "b" duplication))
      ∷ event 3 (issue_resolved "b" accepted)
      ∷ [];
}

open_issues-last_news_example :
    get_issue "b" (open_issues with_issues.events) ≡ left_by (last_news "b" with_issues.events) none
open_issues-last_news_example = open_issues-last_news "b" with_issues.events

accept_all_or_nothing_example :
    let r = append_accepted_quality_issue_resolutions with_issues none in
    ((any (is_blocking with_issues) (open_issues with_issues.events) ≡ true)
      × (r.1 ≡ with_issues)
      × (r.0.accepted_issue_ids ≡ []))
    ⊎ ((any (is_blocking with_issues) (open_issues with_issues.events) ≡ false)
        × ((id : String)
            → get_issue id (open_issues r.1.events) ≡ (
                if is_selected none id
                then none
                else get_issue id (open_issues with_issues.events))))
accept_all_or_nothing_example = accept_all_or_nothing with_issues none

abbrev hash_input : QualityKey → String
hash_input (no_actionable_issue run_id round) = "0123456789abcdef0123456789abcdef0123456789abcdef"
hash_input (accepted_issue_overflow run_id) = "fedcba9876543210fedcba9876543210fedcba9876543210"

abbrev marked : RunRecord
marked = elim (mark_automated_quality_acceptance with_issues.run ("b" ∷ []) 5000) [
  | ok run ↦ run
  | err e ↦ with_issues.run
]

ensured :
    ensure_automated_quality_acceptance_issue hash_input with_issues ("b" ∷ [])
    ≡ ok ("b" ∷ [], with_issues)
unfolding ensure_automated_quality_acceptance_issue classify_automated_quality_acceptance_issues
    is_invalid_acceptance accepted_issues detections complete_accepted_issue_ids ensure_for distinct
    is_text is_hard_quality_issue issues_with_failed_revision_execution
    issues_with_hard_page_review_disposition append_text take_text
ensured = refl

accepts : mark_automated_quality_acceptance with_issues.run ("b" ∷ []) 5000 ≡ ok marked
unfolding mark_automated_quality_acceptance distinct
accepts = refl

audit_whole_example :
    IsIssueList ("b" ∷ [])
    × (marked.quality_override_issue_ids ≡ "b" ∷ [])
    × (marked.quality_policy_audit
        ≡ some (record (audit_for with_issues.run ("b" ∷ []) 5000) { issue_ids = "b" ∷ [] }))
    × (is_v4 with_issues.run.presentation_mode ≡ true)
    × (is_bounded_auto with_issues.run.automation_level ≡ true)
    × ((again : ℕ)
        → first_accepted_at marked.quality_policy_audit again
          ≡ first_accepted_at with_issues.run.quality_policy_audit 5000)
audit_whole_example =
    audit_whole hash_input with_issues with_issues marked ("b" ∷ []) ("b" ∷ []) 5000 ensured accepts

abbrev no_override : RunRecord
no_override = record with_issues.run {
  policy = record with_issues.run.policy { quality_override = false };
}

accepts_first : mark_automated_quality_acceptance no_override ("b" ∷ []) 5000 ≡ ok marked
unfolding mark_automated_quality_acceptance distinct
accepts_first = refl

overrides : OverrideHistory no_override marked
overrides = next here (accepts_by_policy ("b" ∷ []) 5000 accepts_first)

users_cannot_override_example :
    (is_v4 marked.policy.presentation_mode ≡ true)
    × ((marked.policy.quality_override ≡ false) ⊎ IsByPolicy marked)
users_cannot_override_example = users_cannot_override overrides refl refl

-- The accepted issue is a factual risk.
abbrev with_hard_issue : StoredRun
with_hard_issue = record with_issues {
  events =
      event 1 (issue_detected (issue "b" factual_risk))
      ∷ event 2 (issue_resolved "b" accepted)
      ∷ [];
}

is_accepted : has_text "b" (accepted_issues with_hard_issue.events) ≡ true
unfolding accepted_issues distinct is_text
is_accepted = refl

is_hard : any is_hard_quality_issue (detections "b" with_hard_issue.events) ≡ true
unfolding is_hard_quality_issue detections is_text
is_hard = refl
