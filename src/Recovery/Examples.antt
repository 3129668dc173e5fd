-- ===== src/Recovery/Examples.antt =====
-- A provider that is unavailable for a while: src/core/technical-recovery.ts.
use shan_hai_edu_ppt.Base.{◌+◌, ◌≤◌, ◌<◌, ◌≡◌, refl, true, false, none, some, [], ok, is_text}
use shan_hai_edu_ppt.Contracts.{executing, recovering, visual_deck_v4}
use shan_hai_edu_ppt.Policy.{moved, transition_run, can_transition}
use shan_hai_edu_ppt.Contracts.Quality.{supervised}
use shan_hai_edu_ppt.Ports.{StoredRun}
use shan_hai_edu_ppt.Ports.Repository.{append_event}
use shan_hai_edu_ppt.Usage.Enqueue.{Hashes}
use shan_hai_edu_ppt.Recovery.{
  TechnicalFailure, provider_failure, retryable, non_retryable, retry_delay_ms, closed_recovery,
  recovers, resumed, begin_technical_recovery, resume_technical_recovery, recovery_state,
}
use shan_hai_edu_ppt.Recovery.Patterns.{
  to_upper_case, is_codes, contains, has_word_from, has_server_status,
}
use shan_hai_edu_ppt.Recovery.Classification.{
  is_technical_contract_failure, disposition_of, technical_failure_disposition,
  technical_failure_for_code, ProviderOptions, provider_technical_failure,
  usage_v2_technical_failure, host_technical_failure, contract_technical_failure,
  technical_failure_from_step,
}
use shan_hai_edu_ppt.Recovery.Persisted.{persist, failures_survive}
use shan_hai_edu_ppt.Recovery.Steps.{begun}
use shan_hai_edu_ppt.Recovery.Attempts.{not_yet, again, Retries-le, resume-begin}

abbrev hashes : Hashes
hashes = record { input_hash = λ run_id key. key; step_hash = λ run_id. run_id }

abbrev run : StoredRun
run = record {
  run = record {
    id = "run-1";
    policy = record {
      status = executing;
      resume_state = none;
      version = 3;
      budget_units = 10;
      committed_budget_units = 5;
      quality_override = false;
      presentation_mode = some visual_deck_v4;
    };
    accounting_protocol = none;
    slide_count = 5;
    revision_round = 0;
    max_revision_rounds = 2;
    technical_recovery = none;
    pending_terminal_failure = none;
    terminal_accounting = none;
    quality_disposition = none;
    automation_level = supervised;
    quality_override_reason = none;
    quality_override_by = none;
    quality_override_role = none;
    quality_override_issue_ids = [];
    quality_override_at = none;
    quality_policy_audit = none;
    lease_token = none;
    lease_until = none;
    lease_version = 4;
    updated_at = 1000;
  };
  steps = [];
  events = [];
}

abbrev outage : TechnicalFailure
outage = record {
  category = provider_failure;
  disposition = retryable;
  diagnostic_code = "PROVIDER_UNAVAILABLE";
}

abbrev interrupted : StoredRun
interrupted =
    recovers (begun outage 2000 run) outage.diagnostic_code 2000 run
      (moved run.run.policy recovering)

begins : begin_technical_recovery hashes outage 2000 run ≡ ok (some interrupted)
unfolding begin_technical_recovery transition_run can_transition recovery_state
begins = refl

may_retry : (begun outage 2000 run).retryable ≡ true
unfolding recovery_state
may_retry = refl

abbrev continued : StoredRun
continued =
    resumed (begun outage 2000 run) 4000 interrupted (moved interrupted.run.policy executing)

resumes : resume_technical_recovery hashes 4000 interrupted ≡ ok (some continued)
unfolding resume_technical_recovery transition_run can_transition recovery_state is_text
    append_event
resumes = refl

Retries-le_example : 1 ≤ 4
Retries-le_example = Retries-le hashes (
    again 2000 4000 run interrupted continued continued outage (not_yet run) refl begins may_retry
      resumes refl refl)

resume-begin_example :
    let due = 2000 + retry_delay_ms (begun outage 2000 run).attempt in
    (4000 < due → resume_technical_recovery hashes 4000 interrupted ≡ ok none)
    × (due ≤ 4000
        → (u : StoredRun) × (resume_technical_recovery hashes 4000 interrupted ≡ ok (some u))
          × (u.run.status ≡ executing)
          × (u.run.technical_recovery ≡ some (closed_recovery (begun outage 2000 run))))
resume-begin_example = resume-begin hashes outage 2000 4000 run interrupted refl begins may_retry

abbrev options : ProviderOptions
options = record { http_status = some 503; disposition = none; category = none }

failures_survive_example :
    let read = λ (f : TechnicalFailure). technical_failure_from_step (some (persist f)) none in
    (read (provider_technical_failure " http_503 " options)
      ≡ some (provider_technical_failure " http_503 " options))
    × (read (usage_v2_technical_failure " http_503 " true)
        ≡ some (usage_v2_technical_failure " http_503 " true))
    × (read (host_technical_failure " http_503 " retryable)
        ≡ some (host_technical_failure " http_503 " retryable))
    × (read (contract_technical_failure " http_503 ")
        ≡ some (contract_technical_failure " http_503 "))
    × ((f : TechnicalFailure) → technical_failure_for_code " http_503 " ≡ some f → read f ≡ some f)
failures_survive_example = failures_survive " http_503 " options true retryable none

-- A code that the source's own tables name: a rejected content is final, a server's status is not.
runs_on_codes :
    (technical_failure_disposition "V4_MANUSCRIPT_CONTEXT_TOO_LARGE" ≡ some non_retryable)
    × (technical_failure_disposition "LLM_HTTP_404" ≡ some non_retryable)
    × (technical_failure_disposition "MODEL_4041_ODD" ≡ none)
    × (technical_failure_disposition "provider_http_503" ≡ some retryable)
    × (technical_failure_disposition "BLUEPRINT_CONTRACT_INVALID_X" ≡ some non_retryable)
    × (technical_failure_disposition "SOMETHING_ELSE" ≡ none)
unfolding technical_failure_disposition disposition_of is_technical_contract_failure to_upper_case
    is_codes contains has_word_from has_server_status
runs_on_codes = (refl, refl, refl, refl, refl, refl)
