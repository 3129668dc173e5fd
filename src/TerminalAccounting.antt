-- ===== src/TerminalAccounting.antt =====
-- src/core/v4-terminal-accounting.ts: the final accounting of a run from its stored steps.
pub mod Final
pub mod Loops
mod Examples
use shan_hai_edu_ppt.Base.{
  ℕ, ◌+◌, ◌-◌, ◌/◌, max, Bool, true, false, not, ◌&&◌, ◌||◌, Option, none, some, List, [], ◌∷◌,
  String, ltb, ◌==◌, keep, any, if◌then◌else◌, is_text, is_none, length,
}
use shan_hai_edu_ppt.Contracts.Accounting.{
  StoredGenerationBatch, BatchPage, is_valid_batch, TerminalAccounting, AccountingStatus, final,
  reconciliation_required, is_settlement_finished, is_released, is_rejected, is_batch_completed,
}
use shan_hai_edu_ppt.Ports.{
  StepStatus, running, reserved, submitting, waiting, completed, releasing, failed,
  reservation_unknown, submission_unknown, completed_after_cancel, failed_not_charged,
  failed_charged, billing_unknown, Tool, generate_slide_image, generate_image_batch, Output,
  batch_output, StepRecord, RunRecord,
}

abbrev pub is_submitted : StepStatus → Bool
is_submitted submitting = true
is_submitted waiting = true
is_submitted completed = true
is_submitted completed_after_cancel = true
is_submitted failed_charged = true
is_submitted billing_unknown = true
is_submitted _ = false

abbrev pub is_terminal_page : StepStatus → Bool
is_terminal_page completed = true
is_terminal_page completed_after_cancel = true
is_terminal_page failed = true
is_terminal_page failed_not_charged = true
is_terminal_page failed_charged = true
is_terminal_page _ = false

abbrev pub is_legacy_settled : StepStatus → Bool
is_legacy_settled completed = true
is_legacy_settled completed_after_cancel = true
is_legacy_settled failed_charged = true
is_legacy_settled _ = false

abbrev pub is_step_completed : StepStatus → Bool
is_step_completed completed = true
is_step_completed _ = false

abbrev is_step_failed : StepStatus → Bool
is_step_failed failed = true
is_step_failed _ = false

abbrev is_image : Tool → Bool
is_image generate_slide_image = true
is_image _ = false

abbrev is_batch : Tool → Bool
is_batch generate_image_batch = true
is_batch _ = false

-- A batch that was refused before anything was submitted counts for nothing.
unfoldable pub is_definitive_preflight_rejection : StepRecord → StoredGenerationBatch → Bool
is_definitive_preflight_rejection s b =
    is_step_failed s.status
    && is_none s.budget_reservation_id
    && is_none s.external_operation_id
    && is_batch_completed b.status
    && is_rejected b.accounting.authorization
    && is_released b.accounting.settlement
    && b.accounting.committed_units == 0
    && b.accounting.settled_units == 0
    && b.accounting.released_units == b.accounting.estimated_units
    && b.accounting.reconciliation_units == 0
    && b.progress.submitted == 0
    && b.progress.completed == 0
    && b.progress.failed == b.page_count

-- `storedGenerationBatchSchema.safeParse(step.output)`.
unfoldable pub parse_batch : Output → Option StoredGenerationBatch
parse_batch (batch_output b) = if is_valid_batch b then some b else none
parse_batch _ = none

-- The variables of the loops.
pub record Tally : Type 0 where
  pub submitted : ℕ
  pub settled : ℕ
  pub reconciliation : ℕ
  pub is_clean : Bool
  pub referenced : List String

abbrev pub has_key : String → List String → Bool
has_key k = any (λ j. is_text j k)

-- `new Map(steps.map(...)).get(key)`: the last step of a key wins.
unfoldable pub last_by_key : String → List StepRecord → Option StepRecord
last_by_key key [] = none
last_by_key key (s ∷ ss) = elim (last_by_key key ss) [
  | some t ↦ some t
  | none ↦ if is_text s.idempotency_key key then some s else none
]

-- Something is open: the accounting is not final, and the units stay to be reconciled.
abbrev pub unresolved : Tally → ℕ → Tally
unresolved t units = record t { is_clean = false; reconciliation = t.reconciliation + units }

-- A page's image step, or a legacy one: what it submitted, and whether it is open.
abbrev pub tally_image : Tally → StepRecord → Tally
tally_image t s =
    let u = record t {
      submitted = if is_submitted s.status then t.submitted + s.budget_units else t.submitted;
    } in
    if is_terminal_page s.status then u else unresolved u s.budget_units

pub tally_page : List StepRecord → ℕ → Tally → BatchPage → Tally
tally_page images units t p =
    if has_key p.idempotency_key t.referenced
    then unresolved t units
    else let u = record t { referenced = p.idempotency_key ∷ t.referenced } in
      elim (last_by_key p.idempotency_key images) [
        | none ↦ unresolved u units
        | some s ↦ tally_image u s
      ]

pub tally_pages : List StepRecord → ℕ → Tally → List BatchPage → Tally
tally_pages images units t [] = t
tally_pages images units t (p ∷ ps) = tally_pages images units (tally_page images units t p) ps

-- `Math.max(1, Math.ceil(estimatedUnits / pageCount))`, for a parsed batch.
abbrev pub estimated_page_units : StoredGenerationBatch → ℕ
estimated_page_units b = max 1 ((b.accounting.estimated_units + b.page_count - 1) / b.page_count)

abbrev pub tally_accounting : StepRecord → StoredGenerationBatch → Tally → Tally
tally_accounting s b t = record t {
  settled = t.settled + b.accounting.settled_units;
  reconciliation = t.reconciliation + b.accounting.reconciliation_units;
  is_clean =
      is_step_completed s.status
      && is_batch_completed b.status
      && is_settlement_finished b.accounting.settlement
      && t.is_clean;
}

pub tally_batch : List StepRecord → Tally → StepRecord → Tally
unfolding parse_batch is_definitive_preflight_rejection tally_pages tally_page last_by_key
tally_batch images t s = elim (parse_batch s.output) [
  | none ↦ unresolved t s.budget_units
  | some b ↦
      if is_definitive_preflight_rejection s b
      then t
      else tally_pages images (estimated_page_units b) (tally_accounting s b t) b.pages
]

pub tally_batches : List StepRecord → Tally → List StepRecord → Tally
tally_batches images t [] = t
tally_batches images t (s ∷ ss) = tally_batches images (tally_batch images t s) ss

-- A run without batches: each image step is settled by itself.
abbrev pub tally_legacy_image : Tally → StepRecord → Tally
tally_legacy_image t s = record (tally_image t s) {
  settled = if is_legacy_settled s.status then t.settled + s.budget_units else t.settled;
}

pub tally_legacy : Tally → List StepRecord → Tally
tally_legacy t [] = t
tally_legacy t (s ∷ ss) = tally_legacy (tally_legacy_image t s) ss

-- An image step that no batch references stays open.
pub tally_orphans : Tally → List StepRecord → Tally
tally_orphans t [] = t
tally_orphans t (s ∷ ss) =
    tally_orphans
      (if has_key s.idempotency_key t.referenced then t else unresolved t s.budget_units) ss

-- `Math.abs(a - b)`.
abbrev pub distance : ℕ → ℕ → ℕ
distance a b = (a - b) + (b - a)

unfoldable pub start : Tally
start = record { submitted = 0; settled = 0; reconciliation = 0; is_clean = true; referenced = [] }

abbrev pub image_steps : RunRecord → List StepRecord → List StepRecord
image_steps run = keep (λ s. is_text s.run_id run.id && is_image s.tool)

abbrev pub batch_steps : RunRecord → List StepRecord → List StepRecord
batch_steps run = keep (λ s. is_text s.run_id run.id && is_batch s.tool)

unfoldable pub tally_steps : RunRecord → List StepRecord → Tally
unfolding start tally_batches tally_batch tally_legacy tally_orphans
tally_steps run steps =
    let t = tally_batches (image_steps run steps) start (batch_steps run steps) in
    if length (batch_steps run steps) == 0
    then tally_legacy t (image_steps run steps)
    else tally_orphans t (image_steps run steps)

-- The tests on the run's commitment and budget, which come after the loops.
unfoldable pub check_commitment : RunRecord → Tally → Tally
check_commitment run t =
    let difference = distance t.settled run.committed_budget_units in
    let u = if ltb 0 difference then unresolved t difference else t in
    if ltb run.budget_units t.settled then unresolved u (t.settled - run.budget_units) else u

unfoldable pub close_tally : RunRecord → Tally → TerminalAccounting
close_tally run t =
    let released = run.budget_units - t.settled in
    record {
      authorized_units = run.budget_units;
      submitted_units = t.submitted;
      settled_units = t.settled;
      released_units = released;
      reconciliation_units = t.reconciliation;
      accounting_status =
          if t.is_clean && t.reconciliation == 0 && t.settled + released == run.budget_units
          then final
          else reconciliation_required;
    }

unfoldable pub derive_v4_terminal_accounting : RunRecord → List StepRecord → TerminalAccounting
unfolding tally_steps check_commitment close_tally
derive_v4_terminal_accounting run steps =
    close_tally run (check_commitment run (tally_steps run steps))
