-- ===== src/TerminalAccounting/Examples.antt =====
-- The theorems about src/core/v4-terminal-accounting.ts at a concrete run.
use shan_hai_edu_ppt.Base.{◌+◌, ◌≤◌, ◌≡◌, refl, true, none, some, [], ◌∷◌, String, List, is_text}
use shan_hai_edu_ppt.Contracts.{completed, visual_deck_v4}
use shan_hai_edu_ppt.Contracts.Accounting.{
  StoredGenerationBatch, is_valid_batch, Authorization, Settlement, BatchStatus, final,
}
use shan_hai_edu_ppt.Contracts.Quality.{supervised}
use shan_hai_edu_ppt.Ports.{
  StepRecord, StepStatus, Tool, generate_slide_image, generate_image_batch, Output, no_output,
  batch_output, RunRecord,
}
use shan_hai_edu_ppt.TerminalAccounting.{derive_v4_terminal_accounting}
use shan_hai_edu_ppt.TerminalAccounting.Final.{final_allocates}

abbrev finished : RunRecord
finished = record {
  id = "run-1";
  policy = record {
    status = completed;
    resume_state = none;
    version = 9;
    budget_units = 10;
    committed_budget_units = 3;
    quality_override = true;
    presentation_mode = some visual_deck_v4;
  };
  accounting_protocol = none;
  slide_count = 1;
  revision_round = 0;
  max_revision_rounds = 2;
  technical_recovery = none;
  pending_terminal_failure = none;
  terminal_accounting = none;
  quality_disposition = none;
  automation_level = supervised;
  quality_override_reason = none;
  quality_override_by = none;
  quality_override_role = none;
  quality_override_issue_ids = [];
  quality_override_at = none;
  quality_policy_audit = none;
  lease_token = none;
  lease_until = none;
  lease_version = 4;
  updated_at = 1000;
}

abbrev digest : String
digest = "0123456789abcdef0123456789abcdef0123456789abcdef0123456789abcdef"

abbrev one_page : StoredGenerationBatch
one_page = record {
  batch_id = "genbatch_0123456789abcdef0123456789abcdef";
  proposal_hash = digest;
  revision_round = 0;
  page_count = 1;
  pages =
      record {
        page_number = 1;
        idempotency_key = "page-1";
        prompt_hash = digest;
        render_strategy = none;
      }
      ∷ [];
  accounting = record {
    estimated_units = 3;
    committed_units = 3;
    settled_units = 3;
    released_units = 0;
    reconciliation_units = 0;
    authorization = Authorization.reserved;
    settlement = Settlement.settled;
  };
  progress = record { submitted = 1; completed = 1; failed = 0 };
  status = BatchStatus.completed;
  created_at = 0;
  updated_at = 1000;
  accounting_model = some "model";
  operation_mode = none;
}

abbrev step_of : Tool → String → Output → StepRecord
step_of tool key output = record {
  id = key;
  run_id = "run-1";
  idempotency_key = key;
  input_hash = "";
  tool = tool;
  status = StepStatus.completed;
  budget_units = 3;
  budget_reservation_id = some "reservation";
  external_operation_id = some "operation";
  error_code = none;
  output = output;
  created_at = 0;
  updated_at = 1000;
}

abbrev steps : List StepRecord
steps =
    step_of generate_image_batch "batch" (batch_output one_page)
    ∷ step_of generate_slide_image "page-1" no_output
    ∷ []

steps_final : (derive_v4_terminal_accounting finished steps).accounting_status ≡ final
unfolding derive_v4_terminal_accounting is_text is_valid_batch
steps_final = refl

final_allocates_example :
    let a = derive_v4_terminal_accounting finished steps in
    (a.settled_units ≡ 3)
    × (a.settled_units ≤ 10)
    × (a.settled_units + a.released_units ≡ 10)
    × (a.reconciliation_units ≡ 0)
final_allocates_example = final_allocates finished steps steps_final
