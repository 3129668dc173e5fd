-- ===== src/Batches/Create/Examples.antt =====
-- Making a batch twice, in src/core/generation-batch.ts, at a concrete run.
use shan_hai_edu_ppt.Base.{
  ◌≡◌, refl, Bool, true, false, none, some, [], ◌∷◌, append_text, decimal, take_text, trim,
  text_length, ◌==◌, is_text, String, Result, ok, err,
}
use shan_hai_edu_ppt.Base.Int.{pos, int}
use shan_hai_edu_ppt.Contracts.Accounting.{
  controlled_raster, text_to_image, StoredGenerationBatch, is_valid_batch,
}
use shan_hai_edu_ppt.Ports.{StepStatus, generate_image_batch, batch_output, StoredRun}
use shan_hai_edu_ppt.Ports.Repository.{get_step}
use shan_hai_edu_ppt.TerminalAccounting.{parse_batch}
use shan_hai_edu_ppt.Batches.{initial_scope, generation_batch_step_key_for, BatchCode, read_batch}
use shan_hai_edu_ppt.Batches.Examples.{generating, digest, two_pages, step_of}
use shan_hai_edu_ppt.Batches.Create.{
  Request, HashInput, schema_model, batch_input_hash, legacy_batch_input_hash, is_known_hash,
  batch_id_for, initial_batch, ensure_generation_batch,
}
use shan_hai_edu_ppt.Batches.Create.Again.{ensure_once}

-- Every hash is the same, which the theorem allows.
abbrev constant_hash : HashInput → String
constant_hash input = digest

abbrev two_images : Request
two_images = record {
  run_id = "run-1";
  revision_round = 1;
  scope = initial_scope;
  proposal = digest;
  requirements =
      record {
        page_number = 1;
        idempotency_key = "page-1";
        prompt = "a lake";
        budget_units = none;
        render_strategy = none;
      }
      ∷ record {
        page_number = 2;
        idempotency_key = "page-2";
        prompt = "a hill";
        budget_units = some (int (pos 0));
        render_strategy = some controlled_raster;
      }
      ∷ [];
  unit_budget_units = int (pos 3);
  accounting_model = "model";
  operation_mode = text_to_image;
}

-- A batch that was made before batches named their model and their mode.
abbrev older_batch : StoredGenerationBatch
older_batch = record two_pages { accounting_model = none; operation_mode = none }

abbrev older : StoredRun
older = record {
  run = generating;
  steps =
      record (step_of generate_image_batch "run-1:generation-batch:r1" StepStatus.running 3
        (batch_output older_batch)) { input_hash = digest }
      ∷ [];
  events = [];
}

abbrev upgraded : StoredGenerationBatch
upgraded = record older_batch {
  accounting_model = some "model";
  operation_mode = some text_to_image;
}

abbrev made_by : Result BatchCode (StoredGenerationBatch × StoredRun) → StoredRun
made_by (err e) = older
made_by (ok (b, t)) = t

abbrev after_upgrade : StoredRun
after_upgrade = made_by (ensure_generation_batch constant_hash two_images 2000 older)

older_upgrades :
    ensure_generation_batch constant_hash two_images 2000 older ≡ ok (upgraded, after_upgrade)
unfolding ensure_generation_batch batch_input_hash is_known_hash legacy_batch_input_hash get_step
    generation_batch_step_key_for append_text decimal read_batch parse_batch is_valid_batch is_text
    trim text_length
older_upgrades = refl

model_trimmed : schema_model "model" ≡ ok "model"
unfolding trim text_length
model_trimmed = refl

ensure_once_example :
    ensure_generation_batch constant_hash two_images 5000 after_upgrade
    ≡ ok (upgraded, after_upgrade)
ensure_once_example =
    ensure_once constant_hash two_images 2000 older after_upgrade upgraded model_trimmed
      older_upgrades 5000

-- A run without a batch gets one.
abbrev unmade : StoredRun
unmade = record { run = generating; steps = []; events = [] }

abbrev is_made : Result BatchCode (StoredGenerationBatch × StoredRun) → Bool
is_made (err e) = false
is_made (ok (b, t)) = b.accounting.estimated_units == 3

unmade_made : is_made (ensure_generation_batch constant_hash two_images 2000 unmade) ≡ true
unfolding ensure_generation_batch batch_input_hash get_step initial_batch batch_id_for
    generation_batch_step_key_for append_text decimal take_text is_valid_batch is_text trim
    text_length
unmade_made = refl
