-- ===== src/Contracts/Quality.antt =====
-- src/contracts.ts: the issues of a deck's quality, and the audit of an accepted one.
use shan_hai_edu_ppt.Base.{ℕ, Option, List, String}
use shan_hai_edu_ppt.Contracts.{RepairDomain}

pub data AutomationLevel : Type 0 where
  supervised bounded_auto : AutomationLevel

pub data IssueCategory : Type 0 where
  curriculum_gap factual_risk sequence_break duplication cover_impact : IssueCategory
  visual_consistency composition_conflict image_quality asset_relevance : IssueCategory
  layering_conflict child_readability source_incomplete planning_failed : IssueCategory
  budget_reservation_unknown provider_submission_unknown provider_result_failed : IssueCategory

pub data IssueSeverity : Type 0 where
  info warning critical : IssueSeverity

pub data IssueStatus : Type 0 where
  open_issue resolved_issue accepted_issue : IssueStatus

-- The diagnosis of a failed planning, which an issue may carry, is left out.
pub record IssueSummary : Type 0 where
  pub id : String
  pub category : IssueCategory
  pub severity : IssueSeverity
  pub summary : String
  pub slide_ids : List String
  pub source_chunk_ids : List String
  pub status : IssueStatus
  pub repair_domain : Option RepairDomain

pub data IssueResolution : Type 0 where
  fixed accepted : IssueResolution

-- `provenance` is always the system's policy.
pub record QualityPolicyAudit : Type 0 where
  pub policy_id : String
  pub reason : String
  pub issue_ids : List String
  pub accepted_at : ℕ
