-- ===== src/Lifecycle/Codes.antt =====
-- src/core/v4-lifecycle.ts: the codes and the public categories of failures.
use shan_hai_edu_ppt.Base.{Bool, true, false, Option, none, some, String, is_text, if◌then◌else◌}
use shan_hai_edu_ppt.Contracts.Failures.{
  PublicErrorCategory, LifecycleReason, RunFailureCode, TechnicalRecovery, quality, contract,
  delivery, internal, quality_remediation_exhausted, quality_issue_state_inconsistent,
  v4_chain4_protocol_unsupported, v4_legacy_model_snapshot_unavailable,
  v4_manuscript_context_too_large, v4_planning_request_replay_mismatch, technical_contract_invalid,
  delivery_failed, internal_failure,
}

abbrev pub is_accounting_pending : Option TechnicalRecovery → Bool
is_accounting_pending none = false
is_accounting_pending (some r) = is_text r.reason "TERMINAL_ACCOUNTING_PENDING"

-- A failure code as the text that the log holds.
unfoldable pub code_text : RunFailureCode → String
code_text RunFailureCode.worker_fatal = "WORKER_FATAL"
code_text quality_remediation_exhausted = "QUALITY_REMEDIATION_EXHAUSTED"
code_text quality_issue_state_inconsistent = "QUALITY_ISSUE_STATE_INCONSISTENT"
code_text RunFailureCode.technical_recovery_exhausted = "TECHNICAL_RECOVERY_EXHAUSTED"
code_text RunFailureCode.technical_configuration_required = "TECHNICAL_CONFIGURATION_REQUIRED"
code_text v4_chain4_protocol_unsupported = "V4_CHAIN4_PROTOCOL_UNSUPPORTED"
code_text v4_legacy_model_snapshot_unavailable = "V4_LEGACY_MODEL_SNAPSHOT_UNAVAILABLE"
code_text v4_manuscript_context_too_large = "V4_MANUSCRIPT_CONTEXT_TOO_LARGE"
code_text v4_planning_request_replay_mismatch = "V4_PLANNING_REQUEST_REPLAY_MISMATCH"
code_text RunFailureCode.image_edit_unavailable = "IMAGE_EDIT_UNAVAILABLE"
code_text technical_contract_invalid = "TECHNICAL_CONTRACT_INVALID"
code_text RunFailureCode.usage_v2_finalization_rejected = "USAGE_V2_FINALIZATION_REJECTED"

abbrev is_delivery_failed : Option LifecycleReason → Bool
is_delivery_failed (some delivery_failed) = true
is_delivery_failed _ = false

abbrev category_or_internal : Option PublicErrorCategory → PublicErrorCategory
category_or_internal none = internal
category_or_internal (some c) = c

-- The tests on the reason and on the category that the caller gives.
abbrev category_by_reason :
    RunFailureCode → Option LifecycleReason → Option PublicErrorCategory → PublicErrorCategory
category_by_reason technical_contract_invalid reason category =
    if is_delivery_failed reason then delivery else contract
category_by_reason code reason category =
    if is_delivery_failed reason then delivery else category_or_internal category

unfoldable pub public_error_category_for_v4_failure :
    RunFailureCode → Option LifecycleReason → Option PublicErrorCategory → PublicErrorCategory
public_error_category_for_v4_failure quality_remediation_exhausted r c = quality
public_error_category_for_v4_failure quality_issue_state_inconsistent r c = quality
public_error_category_for_v4_failure v4_legacy_model_snapshot_unavailable r c = contract
public_error_category_for_v4_failure v4_chain4_protocol_unsupported r c = contract
public_error_category_for_v4_failure v4_manuscript_context_too_large r c = contract
public_error_category_for_v4_failure v4_planning_request_replay_mismatch r c = contract
public_error_category_for_v4_failure code r c = category_by_reason code r c

abbrev pub reason_or : Option LifecycleReason → LifecycleReason
reason_or none = internal_failure
reason_or (some r) = r
