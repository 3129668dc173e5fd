-- ===== src/Lifecycle/Examples.antt =====
-- A failing V4 run on concrete data: src/core/v4-lifecycle.ts and src/core/usage-v2-coordinator.ts.
use shan_hai_edu_ppt.Base.{◌≡◌, refl, true, false, none, some, [], ◌∷◌, ok, ◌⊎◌, is_text}
use shan_hai_edu_ppt.Contracts.{executing, recovering, failed, visual_deck_v4}
use shan_hai_edu_ppt.Contracts.Accounting.{final, reconciliation_required, is_final}
use shan_hai_edu_ppt.Contracts.Failures.{
  PendingTerminalFailure, worker_fatal, internal, internal_failure,
}
use shan_hai_edu_ppt.Contracts.Lifecycle.{generation, LifecyclePayload, generation_started}
use shan_hai_edu_ppt.Policy.{moved, transition_run, can_transition}
use shan_hai_edu_ppt.Contracts.Quality.{supervised}
use shan_hai_edu_ppt.Ports.{
  waiting, generate_slide_image, no_output, RunRecord, frameflow_usage_v2, lifecycle, StoredRun,
}
use shan_hai_edu_ppt.Ports.Repository.{get_step, put_step}
use shan_hai_edu_ppt.TerminalAccounting.{derive_v4_terminal_accounting}
use shan_hai_edu_ppt.Usage.{usage_v2_finalize_step_key}
use shan_hai_edu_ppt.Usage.Enqueue.{Hashes, enqueue_usage_v2_run_finalization, new_finalize_step}
use shan_hai_edu_ppt.Lifecycle.Codes.{public_error_category_for_v4_failure}
use shan_hai_edu_ppt.Lifecycle.Failure.{
  fail_visual_deck_v4_transaction, start_failure, postponed, publish,
  reconcile_visual_deck_v4_terminal_state,
}
use shan_hai_edu_ppt.Lifecycle.Outcome.{IsFailed, IsPostponed, fail_outcome}
use shan_hai_edu_ppt.Lifecycle.Accounting.{pending_completes, published_once}

abbrev hashes : Hashes
hashes = record { input_hash = λ run_id key. key; step_hash = λ run_id. run_id }

abbrev run : RunRecord
run = record {
  id = "run-1";
  policy = record {
    status = executing;
    resume_state = none;
    version = 3;
    budget_units = 10;
    committed_budget_units = 0;
    quality_override = false;
    presentation_mode = some visual_deck_v4;
  };
  accounting_protocol = some frameflow_usage_v2;
  slide_count = 2;
  revision_round = 0;
  max_revision_rounds = 2;
  technical_recovery = none;
  pending_terminal_failure = none;
  terminal_accounting = none;
  quality_disposition = none;
  automation_level = supervised;
  quality_override_reason = none;
  quality_override_by = none;
  quality_override_role = none;
  quality_override_issue_ids = [];
  quality_override_at = none;
  quality_policy_audit = none;
  lease_token = none;
  lease_until = none;
  lease_version = 4;
  updated_at = 1000;
}

abbrev payload : LifecyclePayload
payload = record {
  stage = generation;
  completed_count = 0;
  total = 2;
  page_numbers = 1 ∷ 2 ∷ [];
  revision_kind = none;
  revision_round = 0;
  max_revision_rounds = 2;
  budget_units = 10;
  committed_budget_units = 0;
  reason = none;
  retryable = none;
  requires_user_action = false;
  next_action = none;
}

abbrev generating : StoredRun
generating = record {
  run = run;
  steps = [];
  events =
      record { sequence = 1; created_at = 900; body = lifecycle generation_started payload } ∷ [];
}

-- Its image step is not settled: the accounting is open.
abbrev unsettled : StoredRun
unsettled = record generating {
  steps =
      record {
        id = "step-1";
        run_id = "run-1";
        idempotency_key = "page-1";
        input_hash = "";
        tool = generate_slide_image;
        status = waiting;
        budget_units = 1;
        budget_reservation_id = none;
        external_operation_id = none;
        error_code = none;
        output = no_output;
        created_at = 900;
        updated_at = 900;
      }
      ∷ [];
}

abbrev waiting_run : StoredRun
waiting_run =
    postponed hashes worker_fatal internal_failure internal
      (derive_v4_terminal_accounting unsettled.run unsettled.steps) 2000 unsettled
      (moved unsettled.run.policy recovering)

starts_to_fail :
    fail_visual_deck_v4_transaction hashes worker_fatal none none 2000 unsettled
    ≡ ok (true, waiting_run)
unfolding fail_visual_deck_v4_transaction start_failure derive_v4_terminal_accounting transition_run
    can_transition is_text public_error_category_for_v4_failure
starts_to_fail = refl

fail_outcome_example :
    let a = derive_v4_terminal_accounting unsettled.run unsettled.steps in
    ((a.accounting_status ≡ final) × IsFailed a waiting_run)
    ⊎ ((is_final a.accounting_status ≡ false) × IsPostponed worker_fatal waiting_run)
fail_outcome_example =
    fail_outcome hashes worker_fatal none none 2000 unsettled waiting_run refl starts_to_fail

abbrev failure : PendingTerminalFailure
failure = record {
  error_code = worker_fatal;
  reason = internal_failure;
  category = some internal;
  requested_at = 2000;
}

abbrev settled_run : StoredRun
settled_run = record generating {
  run = record run {
    policy = moved run.policy recovering;
    pending_terminal_failure = some failure;
  };
}

settled_final :
    (derive_v4_terminal_accounting settled_run.run settled_run.steps).accounting_status ≡ final
unfolding derive_v4_terminal_accounting
settled_final = refl

no_step : get_step (usage_v2_finalize_step_key settled_run.run.id) settled_run.steps ≡ none
unfolding get_step
no_step = refl

pending_completes_example :
    (t : StoredRun) × (reconcile_visual_deck_v4_terminal_state hashes 5000 settled_run
      ≡ ok (true, t))
    × IsFailed (derive_v4_terminal_accounting settled_run.run settled_run.steps) t
pending_completes_example =
    pending_completes hashes 5000 settled_run failure refl refl refl no_step settled_final

abbrev unsettled_run : StoredRun
unsettled_run = record settled_run { steps = unsettled.steps }

unsettled_open :
    is_final (derive_v4_terminal_accounting unsettled_run.run unsettled_run.steps).accounting_status
    ≡ false
unfolding derive_v4_terminal_accounting is_text
unsettled_open = refl

abbrev failed_before : StoredRun
failed_before = record generating {
  run = record run {
    policy = record run.policy { status = failed };
    terminal_accounting = some (record {
      authorized_units = 10;
      submitted_units = 1;
      settled_units = 0;
      released_units = 10;
      reconciliation_units = 1;
      accounting_status = reconciliation_required;
    });
  };
}

abbrev published : StoredRun
published =
    publish hashes (derive_v4_terminal_accounting failed_before.run failed_before.steps) 6000
      failed_before

publishes : reconcile_visual_deck_v4_terminal_state hashes 6000 failed_before ≡ ok (true, published)
unfolding reconcile_visual_deck_v4_terminal_state derive_v4_terminal_accounting
publishes = refl

published_once_example :
    reconcile_visual_deck_v4_terminal_state hashes 7000 published ≡ ok (false, published)
published_once_example = published_once hashes 6000 7000 failed_before published refl publishes

abbrev enqueued_run : StoredRun
enqueued_run = record failed_before {
  steps = put_step (new_finalize_step hashes failed_before.run 6000) [];
}

enqueues :
    enqueue_usage_v2_run_finalization hashes 6000 failed_before
    ≡ ok (some (new_finalize_step hashes failed_before.run 6000), enqueued_run)
unfolding enqueue_usage_v2_run_finalization get_step
enqueues = refl
