-- ===== src/Batches/Create.antt =====
-- src/core/generation-batch.ts: the batch is made from the required images, or found again.
pub mod Again
mod Examples
use shan_hai_edu_ppt.Base.{
  ℕ, ◌+◌, Bool, true, false, not, ◌&&◌, ◌||◌, Option, none, some, is_some, List, [], ◌∷◌, String,
  is_text, is_empty_text, append_text, decimal, take_text, trim, text_length, length, ltb, leb,
  if◌then◌else◌, Result, ok, err, ◌>>=◌,
}
use shan_hai_edu_ppt.Base.Int.{pos, negsuc, Number, int, not_int, max_safe_integer}
use shan_hai_edu_ppt.Contracts.Accounting.{
  RenderStrategy, full_generative, OperationMode, text_to_image, image_edit, BatchPage,
  Authorization, Settlement, BatchStatus, prepared, StoredGenerationBatch,
}
use shan_hai_edu_ppt.Ports.{
  running, generate_image_batch, batch_output, StepRecord, generation_batch_created, StoredRun,
}
use shan_hai_edu_ppt.Ports.Repository.{get_step, append_event}
use shan_hai_edu_ppt.Batches.{
  BatchScope, initial_scope, revision_scope, is_initial, BatchCode, batch_invalid,
  idempotency_conflict, accounting_model_conflict, operation_mode_conflict,
  requirement_budget_invalid, generation_batch_step_key_for, parsed, read_batch, is_batch_tool, put,
}

pub record Requirement : Type 0 where
  pub page_number : ℕ
  pub idempotency_key : String
  pub prompt : String
  pub budget_units : Option Number
  pub render_strategy : Option RenderStrategy

-- The input of `ensureGenerationBatch`; `proposal` is the hash of the blueprint's proposal.
pub record Request : Type 0 where
  pub run_id : String
  pub revision_round : ℕ
  pub scope : BatchScope
  pub proposal : String
  pub requirements : List Requirement
  pub unit_budget_units : Number
  pub accounting_model : String
  pub operation_mode : OperationMode

-- What the code hashes; `none` is a field that the object does not have.
pub record HashedPage : Type 0 where
  pub page_number : ℕ
  pub key : String
  pub prompt_hash : String
  pub budget_units : Option ℕ
  pub render_strategy : Option RenderStrategy

pub data HashInput : Type 0 where
  hash_prompt : (prompt : String) → HashInput
  hash_pages :
      (proposal : String) (unit_budget_units : Number) (pages : List HashedPage)
      (accounting_model : Option String) (operation_mode : Option OperationMode)
      → HashInput
  hash_id :
      (run_id : String) (revision_round : ℕ) (scope : Option BatchScope)
      (proposal accounting_model : String) (operation_mode : OperationMode)
      → HashInput

abbrev pub units_of : Number → Result BatchCode ℕ
units_of (int (pos n)) = if leb n max_safe_integer then ok n else err requirement_budget_invalid
units_of (int (negsuc n)) = err requirement_budget_invalid
units_of not_int = err requirement_budget_invalid

abbrev pub requirement_budget_units : Option Number → Number → Result BatchCode ℕ
requirement_budget_units none fallback = units_of fallback
requirement_budget_units (some n) fallback = units_of n

abbrev strategy_of : Option RenderStrategy → RenderStrategy
strategy_of none = full_generative
strategy_of (some strategy) = strategy

-- The sum of `initialBatch`; one that is no safe integer is not parsed.
total_units : List Requirement → Number → Result BatchCode ℕ
total_units [] fallback = ok 0
total_units (r ∷ rs) fallback = requirement_budget_units r.budget_units fallback >>= λ units.
    total_units rs fallback >>= λ rest. ok (units + rest)

-- A field of the hashed object, which an empty text leaves out.
abbrev field_of : String → Option String
field_of s = if is_empty_text s then none else some s

abbrev scope_field : BatchScope → Option BatchScope
scope_field initial_scope = none
scope_field revision_scope = some revision_scope

-- `accountingModel` in the schema: trimmed, and of 1 to 120 characters.
abbrev pub schema_model : String → Result BatchCode String
schema_model model =
    let text = trim model in
    if is_empty_text text || ltb 120 (text_length text) then err batch_invalid else ok text

abbrev pub request_key : Request → String
request_key q = generation_batch_step_key_for q.run_id q.revision_round q.scope

abbrev scope_text : BatchScope → String
scope_text initial_scope = "generation-batch"
scope_text revision_scope = "revision-generation-batch"

unfoldable pub batch_step_id : Request → String
batch_step_id q = append_text "step-" (
    append_text q.run_id (
      append_text "-"
        (append_text (scope_text q.scope) (append_text "-r" (decimal q.revision_round)))))

abbrev pub batch_step : Request → String → ℕ → StoredGenerationBatch → StepRecord
batch_step q current now b = record {
  id = batch_step_id q;
  run_id = q.run_id;
  idempotency_key = request_key q;
  input_hash = current;
  tool = generate_image_batch;
  status = running;
  budget_units = b.accounting.estimated_units;
  budget_reservation_id = none;
  external_operation_id = none;
  error_code = none;
  output = batch_output b;
  created_at = now;
  updated_at = now;
}

-- `appendGenerationBatchEvent` of a batch that is new.
abbrev pub announce_created : Bool → StoredGenerationBatch → StoredRun → StoredRun
announce_created publish b s = if publish then append_event s (generation_batch_created b) else s

abbrev pub is_other_model : Option String → String → Bool
is_other_model none model = false
is_other_model (some stored) model = not (is_text stored model)

abbrev pub is_same_mode : OperationMode → OperationMode → Bool
is_same_mode text_to_image text_to_image = true
is_same_mode image_edit image_edit = true
is_same_mode _ _ = false

abbrev pub is_other_mode : Option OperationMode → OperationMode → Bool
is_other_mode none mode = false
is_other_mode (some stored) mode = not (is_same_mode stored mode)

abbrev pub upgrade :
    Request
    → String
    → StoredRun
    → StepRecord
    → StoredGenerationBatch
    → Result BatchCode (StoredGenerationBatch × StoredRun)
upgrade q current s step b = schema_model q.accounting_model >>= λ model.
    parsed (record b { accounting_model = some model; operation_mode = some q.operation_mode })
    >>= λ next. ok (next, put (record step { input_hash = current; output = batch_output next }) s)

abbrev pub is_routed : StoredGenerationBatch → Bool
is_routed b = is_some b.accounting_model && is_some b.operation_mode

abbrev pub find_again :
    Request
    → String
    → StoredRun
    → StepRecord
    → StoredGenerationBatch
    → Result BatchCode (StoredGenerationBatch × StoredRun)
find_again q current s step b =
    if is_other_model b.accounting_model q.accounting_model
    then err accounting_model_conflict
    else if is_other_mode b.operation_mode q.operation_mode
    then err operation_mode_conflict
    else if is_routed b
    then ok (b, s)
    else upgrade q current s step b

module _ (hash : HashInput → String) where
  hashed_pages : List Requirement → Number → Result BatchCode (List HashedPage)
  hashed_pages [] fallback = ok []
  hashed_pages (r ∷ rs) fallback = requirement_budget_units r.budget_units fallback >>= λ units.
      hashed_pages rs fallback >>= λ rest.
      let page : HashedPage = record {
        page_number = r.page_number;
        key = r.idempotency_key;
        prompt_hash = hash (hash_prompt r.prompt);
        budget_units = some units;
        render_strategy = some (strategy_of r.render_strategy);
      } in
      ok (page ∷ rest)

  -- `batchInputHash`, with the strategies included.
  unfoldable pub batch_input_hash : Request → Result BatchCode String
  unfolding hashed_pages
  batch_input_hash q = hashed_pages q.requirements q.unit_budget_units >>= λ pages.
      let input =
        hash_pages q.proposal q.unit_budget_units pages (field_of q.accounting_model)
          (some q.operation_mode) in
      ok (hash input)

  legacy_pages : List Requirement → List HashedPage
  legacy_pages [] = []
  legacy_pages (r ∷ rs) =
      record {
        page_number = r.page_number;
        key = r.idempotency_key;
        prompt_hash = hash (hash_prompt r.prompt);
        budget_units = none;
        render_strategy = none;
      }
      ∷ legacy_pages rs

  unfoldable pub legacy_batch_input_hash : Request → Option String → Option OperationMode → String
  unfolding legacy_pages
  legacy_batch_input_hash q model mode =
      hash (hash_pages q.proposal q.unit_budget_units (legacy_pages q.requirements) model mode)

  -- The hash of a step that the request may find: its own, or one of the two older forms.
  unfoldable pub is_known_hash : Request → String → String → Bool
  is_known_hash q current found =
      is_text found current
      || is_text found
          (legacy_batch_input_hash q (field_of q.accounting_model) (some q.operation_mode))
      || is_text found (legacy_batch_input_hash q none none)

  unfoldable pub batch_id_for : Request → String
  batch_id_for q = append_text "genbatch_" (
      take_text 32 (
        hash (
          hash_id q.run_id q.revision_round (scope_field q.scope) q.proposal q.accounting_model
            q.operation_mode)))

  batch_pages : List Requirement → List BatchPage
  batch_pages [] = []
  batch_pages (r ∷ rs) =
      record {
        page_number = r.page_number;
        idempotency_key = r.idempotency_key;
        prompt_hash = hash (hash_prompt r.prompt);
        render_strategy = some (strategy_of r.render_strategy);
      }
      ∷ batch_pages rs

  unfoldable pub initial_batch : Request → ℕ → Result BatchCode StoredGenerationBatch
  unfolding total_units batch_pages
  initial_batch q now = total_units q.requirements q.unit_budget_units >>= λ units.
      schema_model q.accounting_model >>= λ model.
      if ltb max_safe_integer units
      then err batch_invalid
      else parsed (record {
        batch_id = batch_id_for q;
        proposal_hash = q.proposal;
        revision_round = q.revision_round;
        page_count = length q.requirements;
        pages = batch_pages q.requirements;
        accounting = record {
          estimated_units = units;
          committed_units = 0;
          settled_units = 0;
          released_units = 0;
          reconciliation_units = 0;
          authorization = Authorization.pending;
          settlement = Settlement.not_ready;
        };
        progress = record { submitted = 0; completed = 0; failed = 0 };
        status = prepared;
        created_at = now;
        updated_at = now;
        accounting_model = some model;
        operation_mode = some q.operation_mode;
      })

  abbrev pub create :
      Request → String → ℕ → StoredRun → Result BatchCode (StoredGenerationBatch × StoredRun)
  create q current now s = initial_batch q now >>= λ b.
      ok (b, announce_created (is_initial q.scope) b (put (batch_step q current now b) s))

  abbrev pub ensure_by :
      Request
      → String
      → ℕ
      → StoredRun
      → Option StepRecord
      → Result BatchCode (StoredGenerationBatch × StoredRun)
  ensure_by q current now s none = create q current now s
  ensure_by q current now s (some step) =
      if not (is_batch_tool step.tool) || not (is_known_hash q current step.input_hash)
      then err idempotency_conflict
      else read_batch step.output >>= find_again q current s step

  -- The transaction, after the hashes have been made.
  unfoldable pub ensure_generation_batch :
      Request → ℕ → StoredRun → Result BatchCode (StoredGenerationBatch × StoredRun)
  ensure_generation_batch q now s =
      batch_input_hash q >>= λ current. ensure_by q current now s (get_step (request_key q) s.steps)
