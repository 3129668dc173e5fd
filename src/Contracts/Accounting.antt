-- ===== src/Contracts/Accounting.antt =====
-- src/generation-batch-contracts.ts and src/terminal-accounting-contracts.ts.
use shan_hai_edu_ppt.Base.{
  ℕ, ◌+◌, Bool, true, false, ◌&&◌, ◌||◌, not, Option, none, some, List, [], ◌∷◌, String,
  text_length, is_hex, after_prefix, all, length, ltb, leb, ◌==◌,
}

pub data RenderStrategy : Type 0 where
  full_generative controlled_raster : RenderStrategy

pub data OperationMode : Type 0 where
  text_to_image image_edit : OperationMode

pub data Authorization : Type 0 where
  pending reserved unknown rejected : Authorization

pub data Settlement : Type 0 where
  not_ready pending settled released unknown : Settlement

pub data BatchStatus : Type 0 where
  prepared processing reconciliation_required completed : BatchStatus

pub record BatchPage : Type 0 where
  pub page_number : ℕ
  pub idempotency_key : String
  pub prompt_hash : String
  pub render_strategy : Option RenderStrategy

pub record BatchAccounting : Type 0 where
  pub estimated_units : ℕ
  pub committed_units : ℕ
  pub settled_units : ℕ
  pub released_units : ℕ
  pub reconciliation_units : ℕ
  pub authorization : Authorization
  pub settlement : Settlement

pub record BatchProgress : Type 0 where
  pub submitted : ℕ
  pub completed : ℕ
  pub failed : ℕ

pub record StoredGenerationBatch : Type 0 where
  pub batch_id : String
  pub proposal_hash : String
  pub revision_round : ℕ
  pub page_count : ℕ
  pub pages : List BatchPage
  pub accounting : BatchAccounting
  pub progress : BatchProgress
  pub status : BatchStatus
  pub created_at : ℕ
  pub updated_at : ℕ
  pub accounting_model : Option String
  pub operation_mode : Option OperationMode

-- The pages are numbered from `n + 1` on, without a gap.
numbered_from : ℕ → List BatchPage → Bool
numbered_from n [] = true
numbered_from n (p ∷ ps) = p.page_number == n + 1 && numbered_from (n + 1) ps

is_page : BatchPage → Bool
unfolding text_length is_hex
is_page p =
    ltb 0 p.page_number
    && leb p.page_number 50
    && ltb 0 (text_length p.idempotency_key)
    && leb (text_length p.idempotency_key) 160
    && is_hex 64 p.prompt_hash

is_batch_id : String → Bool
unfolding after_prefix is_hex
is_batch_id s = elim (after_prefix "genbatch_" s) [ none ↦ false | some rest ↦ is_hex 32 rest ]

-- `accountingModel`, taken as trimmed: from 1 to 120 characters, if it is there.
is_model : Option String → Bool
unfolding text_length
is_model none = true
is_model (some m) = ltb 0 (text_length m) && leb (text_length m) 120

-- `storedGenerationBatchSchema`: the shape, and `validateGenerationBatch`. The accounting model is
-- taken as trimmed, and the amounts as safe integers.
unfoldable pub is_valid_batch : StoredGenerationBatch → Bool
unfolding is_page is_batch_id is_hex numbered_from is_model
is_valid_batch b =
    is_batch_id b.batch_id
    && is_hex 64 b.proposal_hash
    && leb b.revision_round 4
    && ltb 0 b.page_count
    && leb b.page_count 50
    && all is_page b.pages
    && length b.pages == b.page_count
    && numbered_from 0 b.pages
    && leb (b.progress.completed + b.progress.failed) b.page_count
    && is_model b.accounting_model

pub data AccountingStatus : Type 0 where
  final reconciliation_required : AccountingStatus

pub record TerminalAccounting : Type 0 where
  pub authorized_units : ℕ
  pub submitted_units : ℕ
  pub settled_units : ℕ
  pub released_units : ℕ
  pub reconciliation_units : ℕ
  pub accounting_status : AccountingStatus

abbrev pub is_final : AccountingStatus → Bool
is_final final = true
is_final reconciliation_required = false

-- `terminalAccountingSchema`: a final accounting allocates the whole authorization.
unfoldable pub is_valid_accounting : TerminalAccounting → Bool
is_valid_accounting t = not (
    is_final t.accounting_status
    && (not (t.reconciliation_units == 0)
        || not (t.settled_units + t.released_units == t.authorized_units)))

abbrev pub is_released : Settlement → Bool
is_released released = true
is_released _ = false

abbrev pub is_settlement_finished : Settlement → Bool
is_settlement_finished settled = true
is_settlement_finished released = true
is_settlement_finished _ = false

abbrev pub is_rejected : Authorization → Bool
is_rejected rejected = true
is_rejected _ = false

abbrev pub is_batch_completed : BatchStatus → Bool
is_batch_completed completed = true
is_batch_completed _ = false
