-- ===== src/Recovery.antt =====
-- src/core/technical-recovery.ts: how a V4 run recovers from a technical failure.
pub mod Patterns
pub mod Classification
pub mod Persisted
pub mod Steps
pub mod Attempts
mod Examples
use shan_hai_edu_ppt.Base.{
  ℕ, ◌+◌, ◌-◌, min, Bool, true, false, not, ◌&&◌, ◌||◌, Option, none, some, List, [], ◌∷◌, String,
  is_text, ltb, leb, if◌then◌else◌, Result, ok, err,
}
use shan_hai_edu_ppt.Contracts.{
  RunStatus, planning, executing, page_review, deck_review, revising, delivering, recovering,
  is_status, has_status, is_v4,
}
use shan_hai_edu_ppt.Contracts.Failures.{
  PublicErrorCategory, provider, usage_v2, contract, internal, LifecycleReason, planning_failed,
  page_review_failed, deck_review_failed, revision_failed, delivery_failed, internal_failure,
  RunFailureCode, v4_legacy_model_snapshot_unavailable, v4_chain4_protocol_unsupported,
  v4_manuscript_context_too_large, v4_planning_request_replay_mismatch,
  technical_recovery_exhausted, technical_contract_invalid, technical_configuration_required,
  TechnicalRecovery, PendingTerminalFailure,
}
use shan_hai_edu_ppt.Policy.{RunPolicyState, transition_run}
use shan_hai_edu_ppt.Ports.{
  RunRecord, phase_changed, technical_recovery_started, technical_recovery_completed, StoredRun,
}
use shan_hai_edu_ppt.Ports.Repository.{append_event}
use shan_hai_edu_ppt.Usage.Enqueue.{Hashes}
use shan_hai_edu_ppt.Lifecycle.Codes.{is_accounting_pending}
use shan_hai_edu_ppt.Lifecycle.Failure.{
  LifecycleCode, policy_error, fail_visual_deck_v4_transaction,
  reconcile_visual_deck_v4_terminal_state,
}

pub data FailureCategory : Type 0 where
  provider_failure contract_failure usage_v2_failure host_failure internal_category :
      FailureCategory

pub data FailureDisposition : Type 0 where
  retryable non_retryable : FailureDisposition

pub record TechnicalFailure : Type 0 where
  pub category : FailureCategory
  pub disposition : FailureDisposition
  pub diagnostic_code : String

abbrev pub max_technical_recovery_attempts : ℕ
max_technical_recovery_attempts = 5

abbrev pub recoverable_states : List RunStatus
recoverable_states = planning ∷ executing ∷ page_review ∷ deck_review ∷ revising ∷ delivering ∷ []

abbrev is_contract : FailureCategory → Bool
is_contract contract_failure = true
is_contract _ = false

unfoldable pub terminal_failure_code : TechnicalFailure → ℕ → RunFailureCode
terminal_failure_code f attempt =
    if is_text f.diagnostic_code "V4_LEGACY_MODEL_SNAPSHOT_UNAVAILABLE"
    then v4_legacy_model_snapshot_unavailable
    else if is_text f.diagnostic_code "V4_CHAIN4_PROTOCOL_UNSUPPORTED"
    then v4_chain4_protocol_unsupported
    else if is_text f.diagnostic_code "V4_MANUSCRIPT_CONTEXT_TOO_LARGE"
    then v4_manuscript_context_too_large
    else if is_text f.diagnostic_code "V4_PLANNING_REQUEST_REPLAY_MISMATCH"
    then v4_planning_request_replay_mismatch
    else if leb max_technical_recovery_attempts attempt
    then technical_recovery_exhausted
    else if is_contract f.category
    then technical_contract_invalid
    else technical_configuration_required

-- The states that a recovery resumes are the six recoverable ones; none other is asked for.
unfoldable pub terminal_lifecycle_reason : RunStatus → LifecycleReason
terminal_lifecycle_reason planning = planning_failed
terminal_lifecycle_reason page_review = page_review_failed
terminal_lifecycle_reason deck_review = deck_review_failed
terminal_lifecycle_reason revising = revision_failed
terminal_lifecycle_reason delivering = delivery_failed
terminal_lifecycle_reason _ = internal_failure

abbrev pub retry_delay_ms : ℕ → ℕ
retry_delay_ms attempt =
    if leb attempt 1
    then 2000
    else if leb attempt 2
    then 10000
    else if leb attempt 3
    then 30000
    else 60000

unfoldable pub public_category_for_technical_failure : FailureCategory → PublicErrorCategory
public_category_for_technical_failure provider_failure = provider
public_category_for_technical_failure usage_v2_failure = usage_v2
public_category_for_technical_failure contract_failure = contract
public_category_for_technical_failure host_failure = contract
public_category_for_technical_failure internal_category = internal

abbrev pub is_retryable : FailureDisposition → Bool
is_retryable retryable = true
is_retryable non_retryable = false

-- One more attempt in the state of the recovery before, the first in another.
abbrev pub next_attempt : Option TechnicalRecovery → RunStatus → ℕ
next_attempt none state = 1
next_attempt (some r) state = if is_status r.resume_state state then r.attempt + 1 else 1

unfoldable pub recovery_state : RunRecord → RunStatus → TechnicalFailure → ℕ → TechnicalRecovery
recovery_state run state f now =
    let attempt = next_attempt run.technical_recovery state in
    let again = is_retryable f.disposition && ltb attempt max_technical_recovery_attempts in
    record {
      resume_state = state;
      reason = f.diagnostic_code;
      category = some (public_category_for_technical_failure f.category);
      retryable = again;
      attempt = min attempt max_technical_recovery_attempts;
      max_attempts = max_technical_recovery_attempts;
      next_attempt_at = if again then some (now + retry_delay_ms attempt) else none;
      active = true;
    }

abbrev pub closed_recovery : TechnicalRecovery → TechnicalRecovery
closed_recovery r = record r { active = false; next_attempt_at = none }

abbrev pub cannot_recover : RunRecord → Bool
cannot_recover run =
    not (is_v4 run.presentation_mode) || not (has_status run.status recoverable_states)

-- The run as it stands when its recovery is given up, before it fails.
abbrev pub gave_up : TechnicalRecovery → ℕ → StoredRun → StoredRun
gave_up recovery now s =
    append_event
      (record s {
        run = record s.run {
          technical_recovery = some (closed_recovery recovery);
          updated_at = now;
        };
      })
      (technical_recovery_completed (closed_recovery recovery))

abbrev pub recovers : TechnicalRecovery → String → ℕ → StoredRun → RunPolicyState → StoredRun
recovers recovery reason now s policy =
    append_event
      (append_event
        (record s {
          run = record s.run {
            policy = policy;
            technical_recovery = some recovery;
            updated_at = now;
          };
        })
        (phase_changed s.run.status recovering reason))
      (technical_recovery_started recovery)

abbrev pub resumed : TechnicalRecovery → ℕ → StoredRun → RunPolicyState → StoredRun
resumed recovery now s policy =
    append_event
      (append_event
        (record s {
          run = record s.run {
            policy = policy;
            technical_recovery = some (closed_recovery recovery);
            updated_at = now;
          };
        })
        (phase_changed recovering recovery.resume_state "TECHNICAL_RECOVERY_RETRY"))
      (technical_recovery_completed (closed_recovery recovery))

-- `recovery.active && recovery.retryable && Date.parse(recovery.nextAttemptAt) <= now`.
abbrev pub is_due : TechnicalRecovery → ℕ → Bool
is_due r now = elim r.next_attempt_at [
  | none ↦ false
  | some t ↦ r.active && r.retryable && leb t now
]

abbrev pub is_failure_pending : Option PendingTerminalFailure → Bool
is_failure_pending none = false
is_failure_pending (some p) = true

module _ (hashes : Hashes) where
  abbrev pub begin_with :
      TechnicalRecovery → TechnicalFailure → ℕ → StoredRun → Result LifecycleCode StoredRun
  begin_with recovery f now s =
      if not recovery.retryable
      then elim (fail_visual_deck_v4_transaction hashes (terminal_failure_code f recovery.attempt)
          (some (terminal_lifecycle_reason recovery.resume_state))
          (some (public_category_for_technical_failure f.category)) now (gave_up recovery now s)) [
            | err e ↦ err e
            | ok (begun, t) ↦ ok t
          ]
      else elim (transition_run s.run.policy recovering) [
        | err e ↦ err (policy_error e)
        | ok policy ↦ ok (recovers recovery f.diagnostic_code now s policy)
      ]

  -- `none` where the code returns null. The branch that moves a run to NEEDS_HUMAN is for runs that
  -- are not V4, which the first test sends back: no run takes it.
  unfoldable pub begin_technical_recovery :
      TechnicalFailure → ℕ → StoredRun → Result LifecycleCode (Option StoredRun)
  begin_technical_recovery f now s =
      if cannot_recover s.run
      then ok none
      else elim (begin_with (recovery_state s.run s.run.status f now) f now s) [
        | err e ↦ err e
        | ok t ↦ ok (some t)
      ]

  abbrev pub resume_with :
      TechnicalRecovery → ℕ → StoredRun → Result LifecycleCode (Option StoredRun)
  resume_with recovery now s =
      if is_accounting_pending (some recovery) && is_failure_pending s.run.pending_terminal_failure
      then elim (reconcile_visual_deck_v4_terminal_state hashes now s) [
        | err e ↦ err e
        | ok (done, t) ↦ ok (some t)
      ]
      else elim (transition_run s.run.policy recovery.resume_state) [
        | err e ↦ err (policy_error e)
        | ok policy ↦ ok (some (resumed recovery now s policy))
      ]

  abbrev pub resume_of :
      Option TechnicalRecovery → ℕ → StoredRun → Result LifecycleCode (Option StoredRun)
  resume_of none now s = ok none
  resume_of (some recovery) now s =
      if not (is_status s.run.status recovering) || not (is_due recovery now)
      then ok none
      else resume_with recovery now s

  unfoldable pub resume_technical_recovery : ℕ → StoredRun → Result LifecycleCode (Option StoredRun)
  resume_technical_recovery now s = resume_of s.run.technical_recovery now s
