-- ===== src/Contracts/Failures.antt =====
-- src/contracts.ts: the public categories of errors, and a run's technical recovery.
use shan_hai_edu_ppt.Base.{ℕ, Bool, Option, String}
use shan_hai_edu_ppt.Contracts.{RunStatus}

pub data PublicErrorCategory : Type 0 where
  authentication authorization request quality provider usage_v2 contract delivery internal :
      PublicErrorCategory

pub data LifecycleReason : Type 0 where
  budget_insufficient provider_temporarily_unavailable revision_limit_reached : LifecycleReason
  user_confirmation_required planning_failed page_review_rejected : LifecycleReason
  page_review_failed deck_review_rejected deck_review_failed revision_failed : LifecycleReason
  revision_rejected_by_user delivery_failed internal_failure paused_by_user : LifecycleReason
  cancelled_by_user : LifecycleReason

pub data RunFailureCode : Type 0 where
  worker_fatal quality_remediation_exhausted quality_issue_state_inconsistent : RunFailureCode
  technical_recovery_exhausted technical_configuration_required : RunFailureCode
  v4_chain4_protocol_unsupported v4_legacy_model_snapshot_unavailable : RunFailureCode
  v4_manuscript_context_too_large v4_planning_request_replay_mismatch : RunFailureCode
  image_edit_unavailable technical_contract_invalid : RunFailureCode
  usage_v2_finalization_rejected : RunFailureCode

-- Times are the milliseconds of the ISO text.
pub record TechnicalRecovery : Type 0 where
  pub resume_state : RunStatus
  pub reason : String
  pub category : Option PublicErrorCategory
  pub retryable : Bool
  pub attempt : ℕ
  pub max_attempts : ℕ
  pub next_attempt_at : Option ℕ
  pub active : Bool

pub record PendingTerminalFailure : Type 0 where
  pub error_code : RunFailureCode
  pub reason : LifecycleReason
  pub category : Option PublicErrorCategory
  pub requested_at : ℕ
