-- ===== src/Batches/Examples.antt =====
-- The theorems about src/core/generation-batch.ts at a concrete run.
use shan_hai_edu_ppt.Base.{
  arith, ℕ, ◌+◌, ◌≤◌, ◌≡◌, refl, true, false, none, some, [], ◌∷◌, String, List, is_text, length,
  Result, ok, err,
}
use shan_hai_edu_ppt.Contracts.{executing, visual_deck_v4}
use shan_hai_edu_ppt.Contracts.Accounting.{
  text_to_image, StoredGenerationBatch, is_valid_batch, Authorization, Settlement, BatchStatus,
}
use shan_hai_edu_ppt.Contracts.Quality.{supervised}
use shan_hai_edu_ppt.Usage.Enqueue.{Hashes}
use shan_hai_edu_ppt.Base.Int.{pos, int}
use shan_hai_edu_ppt.Policy.{RunPolicyState, reserve_budget}
use shan_hai_edu_ppt.Ports.{
  frameflow_usage_v2, StepRecord, StepStatus, Tool, generate_slide_image, generate_image_batch,
  Output, no_output, batch_output, RunRecord, StoredRun,
}
use shan_hai_edu_ppt.Ports.Repository.{get_step}
use shan_hai_edu_ppt.TerminalAccounting.{parse_batch}
use shan_hai_edu_ppt.Batches.{
  revision_scope, generation_batch_step_key_for, BatchCode, batch_from_steps,
}
use shan_hai_edu_ppt.Batches.Reserve.{Reservation, usage_v2_batch_reservation_id, reserve_usage_v2}
use shan_hai_edu_ppt.Batches.Reserve.Hosted.{not_reserved, reserve_generation_batch}
use shan_hai_edu_ppt.Batches.Finalize.{finalize_usage_v2_generation_batch}
use shan_hai_edu_ppt.Batches.Identity.{
  generation_batch_identity_from_step_key, identity_from_step_key-step_key_for,
}
use shan_hai_edu_ppt.Batches.Refresh.{batch_from_steps-ok}
use shan_hai_edu_ppt.Batches.Refused.{Unreserved, Returned, refusal_returns}

abbrev pub generating : RunRecord
generating = record {
  id = "run-1";
  policy = record {
    status = executing;
    resume_state = none;
    version = 9;
    budget_units = 10;
    committed_budget_units = 1;
    quality_override = false;
    presentation_mode = some visual_deck_v4;
  };
  accounting_protocol = some frameflow_usage_v2;
  slide_count = 2;
  revision_round = 0;
  max_revision_rounds = 2;
  technical_recovery = none;
  pending_terminal_failure = none;
  terminal_accounting = none;
  quality_disposition = none;
  automation_level = supervised;
  quality_override_reason = none;
  quality_override_by = none;
  quality_override_role = none;
  quality_override_issue_ids = [];
  quality_override_at = none;
  quality_policy_audit = none;
  lease_token = none;
  lease_until = none;
  lease_version = 4;
  updated_at = 1000;
}

abbrev pub digest : String
digest = "0123456789abcdef0123456789abcdef0123456789abcdef0123456789abcdef"

abbrev pub two_pages : StoredGenerationBatch
two_pages = record {
  batch_id = "genbatch_0123456789abcdef0123456789abcdef";
  proposal_hash = digest;
  revision_round = 0;
  page_count = 2;
  pages =
      record {
        page_number = 1;
        idempotency_key = "page-1";
        prompt_hash = digest;
        render_strategy = none;
      }
      ∷ record {
        page_number = 2;
        idempotency_key = "page-2";
        prompt_hash = digest;
        render_strategy = none;
      }
      ∷ [];
  accounting = record {
    estimated_units = 6;
    committed_units = 0;
    settled_units = 0;
    released_units = 0;
    reconciliation_units = 0;
    authorization = Authorization.pending;
    settlement = Settlement.not_ready;
  };
  progress = record { submitted = 0; completed = 0; failed = 0 };
  status = BatchStatus.prepared;
  created_at = 0;
  updated_at = 0;
  accounting_model = some "model";
  operation_mode = none;
}

abbrev pub step_of : Tool → String → StepStatus → ℕ → Output → StepRecord
step_of tool key status units output = record {
  id = key;
  run_id = "run-1";
  idempotency_key = key;
  input_hash = "";
  tool = tool;
  status = status;
  budget_units = units;
  budget_reservation_id = none;
  external_operation_id = none;
  error_code = none;
  output = output;
  created_at = 0;
  updated_at = 0;
}

-- One image is there, and one was not charged.
abbrev images : List StepRecord
images =
    step_of generate_slide_image "page-1" StepStatus.completed 3 no_output
    ∷ step_of generate_slide_image "page-2" StepStatus.failed_not_charged 3 no_output
    ∷ []

abbrev before : StoredRun
before = record {
  run = generating;
  steps =
      step_of generate_image_batch "batch" StepStatus.running 6 (batch_output two_pages) ∷ images;
  events = [];
}

-- What the operations give, where they do.
abbrev left_by {ℓ} : {A : Type ℓ} → Result BatchCode (A × StoredRun) → StoredRun
left_by (err e) = before
left_by (ok (a, t)) = t

abbrev after_reserving : StoredRun
after_reserving = left_by (reserve_usage_v2 "batch" true 2000 before)

abbrev after_settling : StoredRun
after_settling = left_by (finalize_usage_v2_generation_batch "batch" true 3000 after_reserving)

abbrev reservation : Reservation
reservation = record {
  batch_id = "genbatch_0123456789abcdef0123456789abcdef";
  reservation_id = usage_v2_batch_reservation_id two_pages;
}

two_pages_valid : is_valid_batch two_pages ≡ true
unfolding is_valid_batch is_text
two_pages_valid = refl

batch_from_steps-ok_example :
    (next : StoredGenerationBatch) × (batch_from_steps two_pages images 4000 ≡ ok next)
    × (is_valid_batch next ≡ true)
    × (next.pages ≡ two_pages.pages)
    × (next.progress.submitted ≤ length two_pages.pages)
    × (next.progress.completed + next.progress.failed ≤ length two_pages.pages)
batch_from_steps-ok_example = batch_from_steps-ok two_pages images 4000 two_pages_valid

round_fits : 12 ≤ 9007199254740991
round_fits = omega arith

identity_from_step_key-step_key_for_example :
    generation_batch_identity_from_step_key "run-1"
      (generation_batch_step_key_for "run-1" 12 revision_scope)
    ≡ some (record { revision_round = 12; scope = revision_scope })
identity_from_step_key-step_key_for_example =
    identity_from_step_key-step_key_for "run-1" 12 revision_scope round_fits

-- A batch whose budget the host reserves.
abbrev hosted_batch : StoredGenerationBatch
hosted_batch = record two_pages { operation_mode = some text_to_image }

abbrev hosted_step : StepRecord
hosted_step = step_of generate_image_batch "batch" StepStatus.running 6 (batch_output hosted_batch)

abbrev hosted : StoredRun
hosted = record {
  run = record generating { accounting_protocol = none };
  steps = hosted_step ∷ images;
  events = [];
}

abbrev hashes : Hashes
hashes = record { input_hash = λ run_id key. digest; step_hash = λ run_id. digest }

hosted-Unreserved : Unreserved "batch" hosted hosted_step hosted_batch
unfolding get_step parse_batch is_valid_batch is_text
hosted-Unreserved = record {
  found = record { there = refl; is_batch = refl; reads = refl };
  is_hosted = refl;
  is_paid = refl;
  unheld = refl;
  alive = refl;
  fresh = refl;
  routed = refl;
}

abbrev hosted_policy : RunPolicyState
hosted_policy = record generating.policy { committed_budget_units = 7; version = 10 }

hosted_allows : reserve_budget generating.policy (int (pos 6)) ≡ ok hosted_policy
unfolding reserve_budget
hosted_allows = refl

refusal_returns_example :
    (u : StoredRun) × (reserve_generation_batch hashes
        (λ b. not_reserved "NO_CREDIT")
        "batch"
        true
        2000
        hosted
      ≡ (ok none, u))
    × Returned "batch" "NO_CREDIT" hosted u
refusal_returns_example =
    refusal_returns hashes "batch" true 2000 "NO_CREDIT" hosted hosted_step hosted_batch
      hosted_policy hosted-Unreserved hosted_allows
