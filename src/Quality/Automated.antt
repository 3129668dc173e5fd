-- ===== src/Quality/Automated.antt =====
-- src/core/v4-lifecycle.ts: accepting a deck by the system's quality policy.
use shan_hai_edu_ppt.Base.{
  ℕ, ◌-◌, Bool, true, false, not, ◌&&◌, ◌||◌, Option, none, some, List, [], ◌∷◌, ◌++◌, map, String,
  is_text, has_text, distinct, append_text, decimal, take_text, any, keep, take, length, ltb,
  if◌then◌else◌, Result, ok, err,
}
use shan_hai_edu_ppt.Contracts.{is_v4}
use shan_hai_edu_ppt.Contracts.Quality.{
  AutomationLevel, supervised, bounded_auto, visual_consistency, warning, open_issue, IssueSummary,
  fixed, accepted, QualityPolicyAudit,
}
use shan_hai_edu_ppt.Lifecycle.{all_page_numbers}
use shan_hai_edu_ppt.Ports.{
  RunRecord, system_policy_accepted, issue_detected, issue_resolved, AgentEvent, StoredRun,
}
use shan_hai_edu_ppt.Ports.Repository.{append_event}
use shan_hai_edu_ppt.Quality.{
  detects, resolves, no_news, news, quality_override_issue_limit, is_hard_quality_issue,
  issues_with_failed_revision_execution, issues_with_hard_page_review_disposition,
}

-- The errors that the acceptance throws.
pub data QualityError : Type 0 where
  system_quality_policy_not_allowed system_quality_policy_issue_invalid : QualityError

abbrev pub v4_non_blocking_quality_policy_id : String
v4_non_blocking_quality_policy_id = "v4-non-blocking-quality-v1"

abbrev pub v4_non_blocking_quality_policy_reason : String
v4_non_blocking_quality_policy_reason = "PPT Agent 按非阻断质量策略接受当前版本并继续交付。"

abbrev pub is_bounded_auto : AutomationLevel → Bool
is_bounded_auto supervised = false
is_bounded_auto bounded_auto = true

-- `run.qualityPolicyAudit?.acceptedAt ?? acceptedAt`.
abbrev pub first_accepted_at : Option QualityPolicyAudit → ℕ → ℕ
first_accepted_at none at = at
first_accepted_at (some audit) at = audit.accepted_at

abbrev pub prior_issue_ids : Option QualityPolicyAudit → List String
prior_issue_ids none = []
prior_issue_ids (some audit) = audit.issue_ids

abbrev pub audit_for : RunRecord → List String → ℕ → QualityPolicyAudit
audit_for run ids at = record {
  policy_id = v4_non_blocking_quality_policy_id;
  reason = v4_non_blocking_quality_policy_reason;
  issue_ids = take quality_override_issue_limit (distinct [] ids);
  accepted_at = first_accepted_at run.quality_policy_audit at;
}

unfoldable pub mark_automated_quality_acceptance :
    RunRecord → List String → ℕ → Result QualityError RunRecord
mark_automated_quality_acceptance run ids at =
    let audit = audit_for run ids at in
    if not (is_v4 run.presentation_mode) || not (is_bounded_auto run.automation_level)
    then err system_quality_policy_not_allowed
    else ok (record run {
      policy = record run.policy { quality_override = true };
      quality_override_reason = some audit.reason;
      quality_override_by = none;
      quality_override_role = none;
      quality_override_issue_ids = audit.issue_ids;
      quality_override_at = some audit.accepted_at;
      quality_disposition = some system_policy_accepted;
      quality_policy_audit = some audit;
    })

-- `detections.get(id)`: every detection of the issue, also one that was resolved since.
unfoldable pub detections : String → List AgentEvent → List IssueSummary
detections id [] = []
detections id (e ∷ es) =
    let rest = detections id es in
    elim (news e.body) [
      | detects p ↦ if is_text p.id id then p ∷ rest else rest
      | resolves gone r ↦ rest
      | no_news ↦ rest
    ]

accepted_events : List AgentEvent → List String
accepted_events [] = []
accepted_events (e ∷ es) =
    let rest = accepted_events es in
    elim (news e.body) [
      | detects p ↦ rest
      | resolves id r ↦ elim r [ accepted ↦ id ∷ rest | fixed ↦ rest ]
      | no_news ↦ rest
    ]

-- The issues that the log accepts, each once.
unfoldable pub accepted_issues : List AgentEvent → List String
unfolding accepted_events
accepted_issues es = distinct [] (accepted_events es)

-- What `hashInput` hashes for the id of an issue that stands for the policy's own decision.
pub data QualityKey : Type 0 where
  no_actionable_issue : (run_id : String) (revision_round : ℕ) → QualityKey
  accepted_issue_overflow : (run_id : String) → QualityKey

abbrev has_detections : List IssueSummary → Bool
has_detections [] = false
has_detections (p ∷ ps) = true

pub record AutomatedDisposition : Type 0 where
  pub accepted_issue_ids : List String
  pub invalid_issue_ids : List String

module _ (hash_input : QualityKey → String) where
  abbrev pub quality_policy_issue_id : QualityKey → String
  quality_policy_issue_id key = append_text "quality-policy-" (take_text 32 (hash_input key))

  abbrev pub quality_policy_overflow_issue_id : String → String
  quality_policy_overflow_issue_id run_id = quality_policy_issue_id (accepted_issue_overflow run_id)

  unfoldable pub is_invalid_acceptance : StoredRun → List String → String → Bool
  is_invalid_acceptance s newly id =
      let found = detections id s.events in
      let prior = prior_issue_ids s.run.quality_policy_audit in
      not (has_detections found)
      || any is_hard_quality_issue found
      || has_text id (issues_with_failed_revision_execution s)
      || has_text id (issues_with_hard_page_review_disposition s)
      || (not (has_text (quality_policy_overflow_issue_id s.run.id) prior)
          && not (has_text id (prior ++ newly)))

  unfoldable pub classify_automated_quality_acceptance_issues :
      StoredRun → List String → AutomatedDisposition
  classify_automated_quality_acceptance_issues s newly =
      let ids = accepted_issues s.events in
      record {
        accepted_issue_ids = keep (λ id. not (is_invalid_acceptance s newly id)) ids;
        invalid_issue_ids = keep (is_invalid_acceptance s newly) ids;
      }

slide_id : String → ℕ → String
slide_id run_id page = append_text run_id (append_text ":slide:" (decimal page))

abbrev policy_issue : RunRecord → String → String → IssueSummary
policy_issue run id summary = record {
  id = id;
  category = visual_consistency;
  severity = warning;
  summary = summary;
  slide_ids = map (slide_id run.id) (all_page_numbers run);
  source_chunk_ids = [];
  status = open_issue;
  repair_domain = none;
}

abbrev is_resolution_of : String → AgentEvent → Bool
is_resolution_of id e = elim (news e.body) [
  | detects p ↦ false
  | resolves gone r ↦ is_text gone id
  | no_news ↦ false
]

unfoldable pub ensure_accepted_quality_policy_issue : StoredRun → String → String → StoredRun
unfolding slide_id
ensure_accepted_quality_policy_issue s id summary =
    let detected =
      if has_detections (detections id s.events)
      then s
      else append_event s (issue_detected (policy_issue s.run id summary)) in
    if any (is_resolution_of id) detected.events
    then detected
    else append_event detected (issue_resolved id accepted)

-- `if (invalid.length > 0) throw ...`.
abbrev pub unless_invalid :
    List String → List String × StoredRun → Result QualityError (List String × StoredRun)
unless_invalid [] r = ok r
unless_invalid (id ∷ ids) r = err system_quality_policy_issue_invalid

module _ (hash_input : QualityKey → String) where
  -- The accepted issues of the policy so far, without the one that stands for the others.
  unfoldable pub complete_accepted_issue_ids : StoredRun → List String → List String
  complete_accepted_issue_ids s classified =
      keep (λ id. not (is_text id (quality_policy_overflow_issue_id hash_input s.run.id)))
        (distinct [] (prior_issue_ids s.run.quality_policy_audit ++ classified))

  unfoldable pub ensure_for : StoredRun → List String → List String × StoredRun
  ensure_for s complete =
      let overflow = quality_policy_overflow_issue_id hash_input s.run.id in
      let none_id =
        quality_policy_issue_id hash_input (no_actionable_issue s.run.id s.run.revision_round) in
      if ltb quality_override_issue_limit (length complete)
      then (
        take (quality_override_issue_limit - 1) complete ++ overflow ∷ [],
        ensure_accepted_quality_policy_issue s overflow
            "已按非阻断质量策略接受超过交付合同枚举上限的问题；完整清单保留在 Issue 事件流中。",
      )
      else if ltb 0 (length complete)
      then (complete, s)
      else (
        none_id ∷ [],
        ensure_accepted_quality_policy_issue s none_id "模型质量评分未达到设定阈值，但没有返回可执行的具体问题。",
      )

  unfoldable pub ensure_automated_quality_acceptance_issue :
      StoredRun → List String → Result QualityError (List String × StoredRun)
  ensure_automated_quality_acceptance_issue s newly =
      let d = classify_automated_quality_acceptance_issues hash_input s newly in
      unless_invalid d.invalid_issue_ids
        (ensure_for s (complete_accepted_issue_ids s d.accepted_issue_ids))
