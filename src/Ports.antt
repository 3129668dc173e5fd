-- ===== src/Ports.antt =====
-- src/core/ports.ts: the records of a run and of its steps, and the transaction over them as
-- src/adapters/in-memory-repository.ts carries it out.
pub mod Repository
use shan_hai_edu_ppt.Base.{ℕ, Bool, Option, List, String}
use shan_hai_edu_ppt.Contracts.{RunStatus, ActorRole}
use shan_hai_edu_ppt.Contracts.Accounting.{StoredGenerationBatch, TerminalAccounting}
use shan_hai_edu_ppt.Contracts.Failures.{TechnicalRecovery, PendingTerminalFailure}
use shan_hai_edu_ppt.Contracts.Lifecycle.{LifecycleEventType, LifecyclePayload, RunFailure}
use shan_hai_edu_ppt.Contracts.Quality.{
  AutomationLevel, IssueSummary, IssueResolution, QualityPolicyAudit,
}
use shan_hai_edu_ppt.Contracts.UsageAccounting.{UsageEvent, BillStatus}
use shan_hai_edu_ppt.Policy.{RunPolicyState}

pub data StepStatus : Type 0 where
  running reserved submitting waiting completed releasing failed : StepStatus
  reservation_unknown submission_unknown : StepStatus
  completed_after_cancel failed_not_charged failed_charged billing_unknown : StepStatus

-- The tools that the accounting code names, and any other by its text.
pub data Tool : Type 0 where
  generate_slide_image generate_image_batch report_usage_v2 finalize_usage_v2 : Tool
  other_tool : String → Tool

pub data DeliveryState : Type 0 where
  pending acknowledged review_required : DeliveryState

-- Of an event of the usage outbox.
pub data EventDelivery : Type 0 where
  event_pending event_acknowledged event_rejected : EventDelivery

-- The `output` of a step, which is unknown JSON: a batch, the state of a run's usage bill, a
-- revision's plan, the review of a slide's image, an event of the usage outbox, or nothing that reads as one of these.
pub data Output : Type 0 where
  no_output : Output
  batch_output : StoredGenerationBatch → Output
  finalize_output :
      (idempotency_key : String) (delivery_state : DeliveryState) (next_attempt_at : Option ℕ)
      (bill : Option BillStatus)
      → Output
  revision_plan_output : (revision_round : ℕ) (operation_issue_ids : List (List String)) → Output
  slide_review_output : (approved : Option Bool) (quality_impact : Option String) → Output
  usage_event_output :
      (event : UsageEvent) (delivery_state : Option EventDelivery) (next_attempt_at : Option ℕ)
      (bill_status : Option BillStatus) (blocked_run_status : Option RunStatus)
      → Output
  other_output : Output

pub record StepRecord : Type 0 where
  pub id : String
  pub run_id : String
  pub idempotency_key : String
  pub input_hash : String
  pub tool : Tool
  pub status : StepStatus
  pub budget_units : ℕ
  pub budget_reservation_id : Option String
  pub external_operation_id : Option String
  pub error_code : Option String
  pub output : Output
  pub created_at : ℕ
  pub updated_at : ℕ

pub data QualityDisposition : Type 0 where
  pending_quality review_passed system_policy_accepted : QualityDisposition
  admin_override hard_failure : QualityDisposition

pub data AccountingProtocol : Type 0 where
  legacy_reservation_v1 frameflow_usage_v2 : AccountingProtocol

-- The fields of a run that the modelled code reads or writes. `policy` holds those that the state
-- machine changes, as `{ ...run, ...policy }` does.
pub record RunRecord : Type 0 where
  pub id : String
  pub policy : RunPolicyState
  pub open policy use *
  pub accounting_protocol : Option AccountingProtocol
  pub slide_count : ℕ
  pub revision_round : ℕ
  pub max_revision_rounds : ℕ
  pub technical_recovery : Option TechnicalRecovery
  pub pending_terminal_failure : Option PendingTerminalFailure
  pub terminal_accounting : Option TerminalAccounting
  pub quality_disposition : Option QualityDisposition
  pub automation_level : AutomationLevel
  pub quality_override_reason : Option String
  pub quality_override_by : Option String
  pub quality_override_role : Option ActorRole
  pub quality_override_issue_ids : List String
  pub quality_override_at : Option ℕ
  pub quality_policy_audit : Option QualityPolicyAudit
  pub lease_token : Option String
  pub lease_until : Option ℕ
  pub lease_version : ℕ
  pub updated_at : ℕ

-- The events that the modelled code appends or reads, and any other by its type.
pub data NewAgentEvent : Type 0 where
  phase_changed : (from to : RunStatus) (reason : String) → NewAgentEvent
  budget_updated : (budget_units committed_budget_units : ℕ) → NewAgentEvent
  technical_recovery_started technical_recovery_completed : TechnicalRecovery → NewAgentEvent
  tool_failed : (step_id error_code : String) (retryable : Bool) → NewAgentEvent
  generation_batch_created generation_batch_updated : StoredGenerationBatch → NewAgentEvent
  issue_detected : IssueSummary → NewAgentEvent
  issue_resolved : (issue_id : String) (resolution : IssueResolution) → NewAgentEvent
  tool_progress : (step_id : String) (completed total : ℕ) → NewAgentEvent
  tool_completed : (step_id : String) → NewAgentEvent
  run_resumed run_cancelled : NewAgentEvent
  run_completed : (payload : Option LifecyclePayload) → NewAgentEvent
  lifecycle : (type : LifecycleEventType) (payload : LifecyclePayload) → NewAgentEvent
  run_accounting_finalized : LifecyclePayload → TerminalAccounting → NewAgentEvent
  run_failed : RunFailure → NewAgentEvent
  legacy_run_failed : (error_code : String) → NewAgentEvent
  other_event : String → NewAgentEvent

pub record AgentEvent : Type 0 where
  pub sequence : ℕ
  pub created_at : ℕ
  pub body : NewAgentEvent

-- What the repository holds of one run; a transaction works on a copy of it.
pub record StoredRun : Type 0 where
  pub run : RunRecord
  pub steps : List StepRecord
  pub events : List AgentEvent
