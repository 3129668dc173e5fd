-- ===== src/Lifecycle/Failure.antt =====
-- src/core/v4-lifecycle.ts: how a V4 run fails, at once or when its accounting is final.
use shan_hai_edu_ppt.Base.{
  ℕ, ◌+◌, Bool, true, false, not, ◌||◌, Option, none, some, List, [], ◌∷◌, is_text, any,
  if◌then◌else◌, Result, ok, err,
}
use shan_hai_edu_ppt.Contracts.{
  RunStatus, paused, needs_human, awaiting_blueprint_approval, awaiting_revision_approval,
  recovering, failed, is_status, has_status, is_v4,
}
use shan_hai_edu_ppt.Contracts.Accounting.{TerminalAccounting, is_final}
use shan_hai_edu_ppt.Contracts.Failures.{
  PublicErrorCategory, LifecycleReason, RunFailureCode, TechnicalRecovery, PendingTerminalFailure,
  internal_failure,
}
use shan_hai_edu_ppt.Contracts.Lifecycle.{run_stage}
use shan_hai_edu_ppt.Policy.{PolicyCode, RunPolicyState, transition_run, is_terminal_status}
use shan_hai_edu_ppt.Ports.{
  RunRecord, hard_failure, NewAgentEvent, phase_changed, technical_recovery_started,
  technical_recovery_completed, run_failed, run_accounting_finalized, AgentEvent, StoredRun,
}
use shan_hai_edu_ppt.Ports.Repository.{append_event}
use shan_hai_edu_ppt.TerminalAccounting.{derive_v4_terminal_accounting}
use shan_hai_edu_ppt.Usage.Enqueue.{Hashes, UsageCode, enqueue_usage_v2_run_finalization}
use shan_hai_edu_ppt.Lifecycle.{
  LifecyclePayloadInput, v4_lifecycle_payload, all_page_numbers, close_active_v4_lifecycle_stages,
}
use shan_hai_edu_ppt.Lifecycle.Codes.{
  is_accounting_pending, code_text, public_error_category_for_v4_failure, reason_or,
}

pub data LifecycleCode : Type 0 where
  policy_error : PolicyCode → LifecycleCode
  usage_error : UsageCode → LifecycleCode

abbrev pub run_input : RunRecord → ℕ → LifecycleReason → LifecyclePayloadInput
run_input run count reason = record {
  completed_count = count;
  total = 1;
  page_numbers = all_page_numbers run;
  revision_kind = none;
  revision_round = none;
  reason = some reason;
  retryable = some false;
  requires_user_action = false;
  next_action = none;
}

-- A recovery that waited for the accounting is over; another is kept as it is.
abbrev pub completed_recovery : Option TechnicalRecovery → Option TechnicalRecovery
completed_recovery none = none
completed_recovery (some r) =
    if is_accounting_pending (some r)
    then some (record r { active = false; next_attempt_at = none })
    else some r

abbrev pub failed_run : RunRecord → RunPolicyState → TerminalAccounting → ℕ → RunRecord
failed_run run policy accounting now = record run {
  policy = policy;
  pending_terminal_failure = none;
  technical_recovery = completed_recovery run.technical_recovery;
  terminal_accounting = some accounting;
  quality_disposition = some hard_failure;
  updated_at = now;
}

abbrev pub append_recovery_completed : Option TechnicalRecovery → StoredRun → StoredRun
append_recovery_completed none s = s
append_recovery_completed (some r) s = append_event s (technical_recovery_completed r)

-- The events of a failure, once the run has failed.
abbrev pub append_failure_events :
    RunStatus
    → RunFailureCode
    → LifecycleReason
    → PublicErrorCategory
    → TerminalAccounting
    → StoredRun
    → StoredRun
append_failure_events from code reason category accounting s =
    append_event
      (append_event (append_recovery_completed s.run.technical_recovery s)
        (phase_changed from failed (code_text code)))
      (run_failed (record {
        payload = v4_lifecycle_payload s.run run_stage (run_input s.run 0 reason);
        error_code = code;
        category = category;
        accounting = some accounting;
      }))

-- The clock stands still during a transaction: every reading of it is `now`.
module _ (hashes : Hashes) where
  abbrev pub enqueued :
      RunStatus
      → RunFailureCode
      → LifecycleReason
      → PublicErrorCategory
      → TerminalAccounting
      → ℕ
      → StoredRun
      → Result LifecycleCode StoredRun
  enqueued from code reason category accounting now s =
      elim (enqueue_usage_v2_run_finalization hashes now s) [
        | err e ↦ err (usage_error e)
        | ok (step, t) ↦ ok (append_failure_events from code reason category accounting t)
      ]

  unfoldable pub complete_visual_deck_v4_failure :
      RunFailureCode
      → LifecycleReason
      → PublicErrorCategory
      → TerminalAccounting
      → ℕ
      → StoredRun
      → Result LifecycleCode StoredRun
  complete_visual_deck_v4_failure code reason category accounting now s =
      let closed = close_active_v4_lifecycle_stages internal_failure s in
      elim (transition_run closed.run.policy failed) [
        | err e ↦ err (policy_error e)
        | ok policy ↦
            enqueued s.run.status code reason category accounting now
              (record closed { run = failed_run closed.run policy accounting now })
      ]

  abbrev pub accounting_recovery : RunStatus → PublicErrorCategory → ℕ → TechnicalRecovery
  accounting_recovery from category now = record {
    resume_state = from;
    reason = "TERMINAL_ACCOUNTING_PENDING";
    category = some category;
    retryable = true;
    attempt = 1;
    max_attempts = 5;
    next_attempt_at = some (now + 2000);
    active = true;
  }

  -- The accounting is not final: the failure is kept on the run until it is.
  abbrev pub postponed :
      RunFailureCode
      → LifecycleReason
      → PublicErrorCategory
      → TerminalAccounting
      → ℕ
      → StoredRun
      → RunPolicyState
      → StoredRun
  postponed code reason category accounting now s policy =
      let recovery = accounting_recovery s.run.status category now in
      let waiting = record s {
        run = record s.run {
          policy = policy;
          technical_recovery = some recovery;
          pending_terminal_failure = some (record {
            error_code = code;
            reason = reason;
            category = some category;
            requested_at = now;
          });
          terminal_accounting = some accounting;
          updated_at = now;
        };
      } in
      append_event
        (append_event waiting (phase_changed s.run.status recovering "TERMINAL_ACCOUNTING_PENDING"))
        (technical_recovery_started recovery)

  -- A run that waits for a decision does not fail, nor one that has ended.
  abbrev pub cannot_fail : RunRecord → Bool
  cannot_fail run =
      not (is_v4 run.presentation_mode)
      || is_terminal_status run.status
      || has_status run.status
          (paused ∷ needs_human ∷ awaiting_blueprint_approval ∷ awaiting_revision_approval ∷ [])

  unfoldable pub start_failure :
      RunFailureCode
      → Option LifecycleReason
      → Option PublicErrorCategory
      → ℕ
      → StoredRun
      → Result LifecycleCode (Bool × StoredRun)
  start_failure code reason category now s =
      if cannot_fail s.run
      then ok (false, s)
      else let accounting = derive_v4_terminal_accounting s.run s.steps in
        let shown = public_error_category_for_v4_failure code reason category in
        if not (is_final accounting.accounting_status)
        then elim (transition_run s.run.policy recovering) [
          | err e ↦ err (policy_error e)
          | ok policy ↦ ok (true, postponed code (reason_or reason) shown accounting now s policy)
        ]
        else elim (complete_visual_deck_v4_failure code (reason_or reason) shown accounting now s) [
          | err e ↦ err e
          | ok t ↦ ok (true, t)
        ]

  unfoldable pub fail_visual_deck_v4_transaction :
      RunFailureCode
      → Option LifecycleReason
      → Option PublicErrorCategory
      → ℕ
      → StoredRun
      → Result LifecycleCode (Bool × StoredRun)
  fail_visual_deck_v4_transaction code reason category now s = elim s.run.pending_terminal_failure [
    | none ↦ start_failure code reason category now s
    | some p ↦
        if is_status s.run.status recovering
        then ok (is_text (code_text p.error_code) (code_text code), s)
        else start_failure code reason category now s
  ]

  abbrev pub pending_category : PendingTerminalFailure → PublicErrorCategory
  pending_category p = elim p.category [
    | some c ↦ c
    | none ↦ public_error_category_for_v4_failure p.error_code (some p.reason) none
  ]

  -- A recovery that waits for the accounting waits two seconds more.
  abbrev pub wait_on : TerminalAccounting → ℕ → StoredRun → StoredRun
  wait_on accounting now s = elim s.run.technical_recovery [
    | none ↦ s
    | some r ↦
        if not (is_status s.run.status recovering) || not (is_accounting_pending (some r))
        then s
        else record s {
          run = record s.run {
            terminal_accounting = some accounting;
            technical_recovery =
                some (record r {
                  active = true;
                  retryable = true;
                  next_attempt_at = some (now + 2000);
                });
            updated_at = now;
          };
        }
  ]

  abbrev pub is_to_reconcile : Option TerminalAccounting → Bool
  is_to_reconcile none = false
  is_to_reconcile (some t) = not (is_final t.accounting_status)

  abbrev pub is_finalized_event : NewAgentEvent → Bool
  is_finalized_event (run_accounting_finalized p t) = true
  is_finalized_event _ = false

  abbrev pub has_finalized : List AgentEvent → Bool
  has_finalized = any (λ e. is_finalized_event e.body)

  -- The accounting of a failed run has become final: it is published once.
  abbrev pub publish : TerminalAccounting → ℕ → StoredRun → StoredRun
  publish accounting now s =
      let run = record s.run {
        policy = record s.run.policy { version = s.run.version + 1 };
        terminal_accounting = some accounting;
        updated_at = now;
      } in
      append_event (record s { run = run })
        (run_accounting_finalized
          (v4_lifecycle_payload run run_stage (run_input run 1 internal_failure)) accounting)

  -- A failure that waits is completed once the accounting is final; without one, a failed run's
  -- accounting is published if it was to be reconciled and has become final.
  abbrev pub reconcile_with :
      Option PendingTerminalFailure
      → TerminalAccounting
      → ℕ
      → StoredRun
      → Result LifecycleCode (Bool × StoredRun)
  reconcile_with (some p) accounting now s =
      if not (is_final accounting.accounting_status)
      then ok (false, wait_on accounting now s)
      else elim (complete_visual_deck_v4_failure p.error_code p.reason (pending_category p)
          accounting now s) [ err e ↦ err e | ok t ↦ ok (true, t) ]
  reconcile_with none accounting now s =
      if not (is_status s.run.status failed)
        || not (is_to_reconcile s.run.terminal_accounting)
        || not (is_final accounting.accounting_status)
        || has_finalized s.events
      then ok (false, s)
      else ok (true, publish accounting now s)

  unfoldable pub reconcile_visual_deck_v4_terminal_state :
      ℕ → StoredRun → Result LifecycleCode (Bool × StoredRun)
  reconcile_visual_deck_v4_terminal_state now s =
      if not (is_v4 s.run.presentation_mode)
      then ok (false, s)
      else reconcile_with s.run.pending_terminal_failure
          (derive_v4_terminal_accounting s.run s.steps) now s
