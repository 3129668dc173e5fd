-- ===== src/Batches.antt =====
-- src/core/generation-batch.ts: the batch of a round's images, its progress and its accounting.
pub mod Reserve
pub mod Refresh
pub mod Finalize
pub mod Host
pub mod Steps
pub mod Replay
pub mod Amounts
pub mod Recorded
pub mod Once
pub mod Create
pub mod Identity
pub mod Refused
mod Examples
use shan_hai_edu_ppt.Base.{
  ℕ, ◌+◌, max, Bool, true, false, not, ◌&&◌, ◌||◌, Option, none, some, List, [], ◌∷◌, String,
  is_text, append_text, decimal, ltb, ◌==◌, if◌then◌else◌, Result, ok, err, ◌>>=◌,
}
use shan_hai_edu_ppt.Contracts.Accounting.{
  BatchPage, BatchAccounting, Authorization, Settlement, BatchStatus, prepared, processing,
  reconciliation_required, StoredGenerationBatch, is_valid_batch, is_settlement_finished,
}
use shan_hai_edu_ppt.Policy.{PolicyCode}
use shan_hai_edu_ppt.Ports.{
  StepStatus, completed, completed_after_cancel, failed, failed_not_charged, failed_charged,
  reservation_unknown, submission_unknown, billing_unknown, running, Tool, generate_image_batch,
  Output, batch_output, StepRecord, generation_batch_updated, StoredRun,
}
use shan_hai_edu_ppt.Ports.Repository.{get_step, put_step, append_event}
use shan_hai_edu_ppt.Lifecycle.Failure.{LifecycleCode}
use shan_hai_edu_ppt.TerminalAccounting.{parse_batch, last_by_key, is_submitted}

pub data BatchScope : Type 0 where
  initial_scope revision_scope : BatchScope

abbrev pub is_initial : BatchScope → Bool
is_initial initial_scope = true
is_initial revision_scope = false

-- What the operations of a batch throw.
pub data BatchCode : Type 0 where
  step_not_found batch_invalid reservation_conflict idempotency_conflict : BatchCode
  accounting_model_conflict operation_mode_conflict requirement_budget_invalid : BatchCode
  accounting_allocation_invalid routing_metadata_missing : BatchCode
  policy_code : PolicyCode → BatchCode
  recovery_code : LifecycleCode → BatchCode

-- The keys are shut: nothing depends on how they read.
unfoldable pub generation_batch_step_key_for : String → ℕ → BatchScope → String
generation_batch_step_key_for run_id round initial_scope =
    append_text run_id (append_text ":generation-batch:r" (decimal round))
generation_batch_step_key_for run_id round revision_scope =
    append_text run_id (append_text ":revision-generation-batch:r" (decimal round))

-- `storedGenerationBatchSchema.parse(...)` of a batch that was put together, and of an output.
abbrev pub parsed : StoredGenerationBatch → Result BatchCode StoredGenerationBatch
parsed b = if is_valid_batch b then ok b else err batch_invalid

abbrev or_invalid : Option StoredGenerationBatch → Result BatchCode StoredGenerationBatch
or_invalid none = err batch_invalid
or_invalid (some b) = ok b

unfoldable pub read_batch : Output → Result BatchCode StoredGenerationBatch
read_batch o = or_invalid (parse_batch o)

abbrev pub is_batch_tool : Tool → Bool
is_batch_tool generate_image_batch = true
is_batch_tool _ = false

abbrev pub required : Option StepRecord → Result BatchCode StepRecord
required none = err step_not_found
required (some s) = if is_batch_tool s.tool then ok s else err step_not_found

unfoldable pub require_batch_step : StoredRun → String → Result BatchCode StepRecord
require_batch_step s key = required (get_step key s.steps)

unfoldable pub updated_batch :
    StoredGenerationBatch
    → BatchAccounting
    → ℕ
    → BatchStatus
    → Result BatchCode StoredGenerationBatch
updated_batch b accounting now status =
    parsed (record b { accounting = accounting; status = status; updated_at = now })

-- The event of a batch, for the initial batch only.
unfoldable pub append_generation_batch_event : Bool → StoredGenerationBatch → StoredRun → StoredRun
append_generation_batch_event publish b s =
    if publish then append_event s (generation_batch_updated b) else s

abbrev pub put : StepRecord → StoredRun → StoredRun
put step s = record s { steps = put_step step s.steps }

abbrev pub terminal_failure : StepStatus → Bool
terminal_failure failed = true
terminal_failure failed_not_charged = true
terminal_failure failed_charged = true
terminal_failure reservation_unknown = true
terminal_failure submission_unknown = true
terminal_failure billing_unknown = true
terminal_failure _ = false

abbrev pub is_done : StepStatus → Bool
is_done completed = true
is_done completed_after_cancel = true
is_done _ = false

abbrev pub is_unknown_status : StepStatus → Bool
is_unknown_status reservation_unknown = true
is_unknown_status submission_unknown = true
is_unknown_status billing_unknown = true
is_unknown_status _ = false

-- The variables of the loop over the pages.
pub record Counts : Type 0 where
  pub submitted : ℕ
  pub completed : ℕ
  pub failed : ℕ
  pub reconciliation : ℕ

abbrev pub count_page : Option StepRecord → Counts → Counts
count_page none c = c
count_page (some s) c =
    let sent = record c {
      submitted = if is_submitted s.status then c.submitted + 1 else c.submitted;
    } in
    if is_done s.status
    then record sent { completed = c.completed + 1 }
    else if terminal_failure s.status
    then record sent {
      failed = c.failed + 1;
      reconciliation =
          if is_unknown_status s.status
          then c.reconciliation + s.budget_units
          else c.reconciliation;
    }
    else sent

unfoldable pub count_pages : List BatchPage → List StepRecord → Counts → Counts
count_pages [] steps c = c
count_pages (p ∷ ps) steps c =
    count_pages ps steps (count_page (last_by_key p.idempotency_key steps) c)

abbrev pub no_counts : Counts
no_counts = record { submitted = 0; completed = 0; failed = 0; reconciliation = 0 }

abbrev pub is_authorization_unknown : Authorization → Bool
is_authorization_unknown Authorization.unknown = true
is_authorization_unknown _ = false

abbrev pub is_settlement_unknown : Settlement → Bool
is_settlement_unknown Settlement.unknown = true
is_settlement_unknown _ = false

-- The batch after the loop, before it is parsed.
unfoldable pub batch_with : StoredGenerationBatch → Counts → ℕ → StoredGenerationBatch
batch_with b c now =
    let a = b.accounting in
    let units =
      if is_authorization_unknown a.authorization || is_settlement_unknown a.settlement
      then max c.reconciliation a.estimated_units
      else c.reconciliation in
    let all_terminal = c.completed + c.failed == b.page_count in
    let has_unknown =
      ltb 0 units
      || (all_terminal && ltb 0 c.failed && not (is_settlement_finished a.settlement)) in
    record b {
      accounting = record a { reconciliation_units = units };
      progress = record { submitted = c.submitted; completed = c.completed; failed = c.failed };
      status =
          if is_settlement_finished a.settlement
          then BatchStatus.completed
          else if has_unknown
          then reconciliation_required
          else processing;
      updated_at = now;
    }

unfoldable pub batch_from_steps :
    StoredGenerationBatch → List StepRecord → ℕ → Result BatchCode StoredGenerationBatch
batch_from_steps b steps now = parsed (batch_with b (count_pages b.pages steps no_counts) now)

abbrev pub is_completed_batch : BatchStatus → Bool
is_completed_batch BatchStatus.completed = true
is_completed_batch _ = false

abbrev pub refreshed_status : StoredGenerationBatch → StepStatus
refreshed_status b =
    if is_completed_batch b.status
    then completed
    else if is_authorization_unknown b.accounting.authorization
    then reservation_unknown
    else if is_settlement_unknown b.accounting.settlement
    then billing_unknown
    else running

abbrev batch_status_number : BatchStatus → ℕ
batch_status_number prepared = 0
batch_status_number processing = 1
batch_status_number reconciliation_required = 2
batch_status_number BatchStatus.completed = 3

-- `JSON.stringify(before) === JSON.stringify(next)`: the other fields of `next` are those of `before`.
unfoldable pub is_unchanged : StoredGenerationBatch → StoredGenerationBatch → Bool
is_unchanged before next =
    before.accounting.reconciliation_units == next.accounting.reconciliation_units
    && before.progress.submitted == next.progress.submitted
    && before.progress.completed == next.progress.completed
    && before.progress.failed == next.progress.failed
    && batch_status_number before.status == batch_status_number next.status
    && before.updated_at == next.updated_at

abbrev pub refresh_step :
    StepRecord
    → ℕ
    → Bool
    → StoredRun
    → StoredGenerationBatch
    → Result BatchCode (Option StoredGenerationBatch × StoredRun)
refresh_step step now publish s before = batch_from_steps before s.steps now >>= λ next.
    if is_unchanged before next
    then ok (some next, s)
    else ok (
      some next,
      append_generation_batch_event publish next (
          put
            (record step {
              status = refreshed_status next;
              output = batch_output next;
              updated_at = next.updated_at;
            })
            s),
    )

abbrev pub refresh_found :
    Option StepRecord
    → ℕ
    → Bool
    → StoredRun
    → Result BatchCode (Option StoredGenerationBatch × StoredRun)
refresh_found none now publish s = ok (none, s)
refresh_found (some step) now publish s =
    if is_batch_tool step.tool
    then read_batch step.output >>= refresh_step step now publish s
    else ok (none, s)

unfoldable pub refresh_generation_batch_in_transaction :
    ℕ → String → Bool → StoredRun → Result BatchCode (Option StoredGenerationBatch × StoredRun)
refresh_generation_batch_in_transaction now key publish s =
    refresh_found (get_step key s.steps) now publish s
