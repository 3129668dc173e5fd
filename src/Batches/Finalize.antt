-- ===== src/Batches/Finalize.antt =====
-- src/core/generation-batch.ts: settling and releasing what a batch has reserved.
use shan_hai_edu_ppt.Base.{
  ℕ, ◌+◌, Bool, true, false, not, ◌&&◌, ◌||◌, Option, none, some, List, [], ◌∷◌, String, is_text,
  is_some_text, is_empty_text, append_text, ltb, ◌==◌, keep, if◌then◌else◌, Result, ok, err, ◌>>=◌,
}
use shan_hai_edu_ppt.Base.Int.{pos, int}
use shan_hai_edu_ppt.Contracts.Accounting.{
  BatchPage, BatchAccounting, Settlement, BatchStatus, StoredGenerationBatch,
  is_settlement_finished,
}
use shan_hai_edu_ppt.Contracts.Failures.{TechnicalRecovery}
use shan_hai_edu_ppt.Policy.{release_budget}
use shan_hai_edu_ppt.Contracts.UsageAccounting.{
  UsageEvent, is_observed, is_billing_open, is_valid_event,
}
use shan_hai_edu_ppt.Ports.{
  StepStatus, completed, completed_after_cancel, failed, failed_not_charged, failed_charged, Tool,
  generate_slide_image, report_usage_v2, usage_event_output, batch_output, StepRecord, RunRecord,
  StoredRun,
}
use shan_hai_edu_ppt.Recovery.{is_failure_pending}
use shan_hai_edu_ppt.Recovery.Classification.{is_technical_failure_code}
use shan_hai_edu_ppt.TerminalAccounting.{last_by_key}
use shan_hai_edu_ppt.Batches.{
  BatchCode, accounting_allocation_invalid, updated_batch, append_generation_batch_event, put,
}
use shan_hai_edu_ppt.Batches.Reserve.{
  usage_v2_batch_reservation_id, controlled_raster_batch_reservation_id, with_batch, with_policy,
  append_budget_event, as_batch_code,
}

pub record Allocation : Type 0 where
  pub settled_units : ℕ
  pub released_units : ℕ

abbrev pub is_charged : StepStatus → Bool
is_charged completed = true
is_charged completed_after_cancel = true
is_charged failed_charged = true
is_charged _ = false

abbrev pub is_failed_step : StepStatus → Bool
is_failed_step failed = true
is_failed_step _ = false

abbrev pub is_uncharged : StepStatus → Bool
is_uncharged failed = true
is_uncharged failed_not_charged = true
is_uncharged _ = false

abbrev pub is_retrying : Option TechnicalRecovery → Bool
is_retrying none = false
is_retrying (some r) = r.active && r.retryable

abbrev pub code_or_empty : Option String → String
code_or_empty none = ""
code_or_empty (some code) = code

-- A failed image that the run's recovery will submit again under the same key.
abbrev pub will_retry : RunRecord → StepRecord → Bool
will_retry run s =
    is_failed_step s.status
    && is_retrying run.technical_recovery
    && not (is_failure_pending run.pending_terminal_failure)
    && is_technical_failure_code (code_or_empty s.error_code)

-- One page: `none` while it has not ended.
abbrev pub allocate_page : RunRecord → Option StepRecord → Allocation → Option Allocation
allocate_page run none a = none
allocate_page run (some s) a =
    if is_charged s.status
    then some (record a { settled_units = a.settled_units + s.budget_units })
    else if will_retry run s
    then none
    else if is_uncharged s.status
    then some (record a { released_units = a.released_units + s.budget_units })
    else none

unfoldable pub allocate_pages :
    RunRecord → List BatchPage → List StepRecord → Option Allocation → Option Allocation
allocate_pages run [] steps o = o
allocate_pages run (p ∷ ps) steps none = none
allocate_pages run (p ∷ ps) steps (some a) =
    allocate_pages run ps steps (allocate_page run (last_by_key p.idempotency_key steps) a)

abbrev pub checked :
    StoredGenerationBatch → Option Allocation → Result BatchCode (Option Allocation)
checked b none = ok none
checked b (some a) =
    if a.settled_units + a.released_units == b.accounting.estimated_units
    then ok (some a)
    else err accounting_allocation_invalid

unfoldable pub batch_finalization :
    StoredGenerationBatch → List StepRecord → RunRecord → Result BatchCode (Option Allocation)
batch_finalization b steps run =
    checked b
      (allocate_pages run b.pages steps (some (record { settled_units = 0; released_units = 0 })))

-- The reports of the usage outbox about the batch, each with the status of its step.
pub record Report : Type 0 where
  pub reported : Bool
  pub event : UsageEvent

abbrev is_completed_step : StepStatus → Bool
is_completed_step completed = true
is_completed_step _ = false

abbrev is_report : Tool → Bool
is_report report_usage_v2 = true
is_report _ = false

abbrev is_slide_image : Tool → Bool
is_slide_image generate_slide_image = true
is_slide_image _ = false

reports : String → List StepRecord → List Report
reports batch_id [] = []
reports batch_id (s ∷ ss) =
    let rest = reports batch_id ss in
    elim s.output [
      | usage_event_output e state next bill blocked ↦
          if is_report s.tool && is_valid_event e && is_text e.batch_id batch_id
          then record { reported = is_completed_step s.status; event = e } ∷ rest
          else rest
      | _ ↦ rest
    ]

find_report : Bool → String → String → List Report → Option Report
find_report observed key operation [] = none
find_report observed key operation (r ∷ rs) =
    let rest = find_report observed key operation rs in
    let matches =
      (if observed then is_observed r.event.event_type else not (is_observed r.event.event_type))
      && is_text r.event.idempotency_key key
      && is_text r.event.provider_operation_id operation in
    if matches then some r else rest

abbrev is_reported : Option Report → Bool
is_reported none = false
is_reported (some r) = r.reported

abbrev is_unbilled : Option Report → Bool
is_unbilled none = false
is_unbilled (some r) = is_billing_open r.event.provider_billing

-- A page whose image was submitted: its operation is reported, and its billing if it was unknown.
page_reported : List Report → String → Option String → Bool
page_reported rs key none = true
page_reported rs key (some operation) =
    let observed = find_report true key operation rs in
    let resolved = find_report false (append_text key ":billing-resolved") operation rs in
    is_empty_text operation
    || (is_reported observed && (not (is_unbilled observed) || is_reported resolved))

abbrev media_reported : List Report → String → Option StepRecord → Bool
media_reported rs key none = false
media_reported rs key (some m) = page_reported rs key m.external_operation_id

pages_reported : List Report → List StepRecord → List BatchPage → Bool
pages_reported rs media [] = true
pages_reported rs media (p ∷ ps) =
    let rest = pages_reported rs media ps in
    media_reported rs p.idempotency_key (last_by_key p.idempotency_key media) && rest

all_reported : List Report → Bool
all_reported [] = true
all_reported (r ∷ rs) = r.reported && all_reported rs

unfoldable pub usage_v2_batch_outbox_ready : StoredGenerationBatch → List StepRecord → Bool
unfolding reports pages_reported page_reported find_report all_reported
usage_v2_batch_outbox_ready b steps =
    let rs = reports b.batch_id steps in
    pages_reported rs (keep (λ s. is_slide_image s.tool) steps) b.pages && all_reported rs

-- A batch without paid images is closed without amounts.
abbrev pub close_raster :
    Bool
    → ℕ
    → StoredRun
    → StepRecord
    → StoredGenerationBatch
    → Option Allocation
    → Result BatchCode (Bool × StoredRun)
close_raster publish now s step b none = ok (false, s)
close_raster publish now s step b (some a) =
    updated_batch b
      (record b.accounting {
        committed_units = 0;
        settled_units = 0;
        released_units = 0;
        reconciliation_units = 0;
        settlement = Settlement.released;
      })
      now BatchStatus.completed
    >>= λ next. ok (
      true,
      append_generation_batch_event publish next (
          put (record step { status = completed; output = batch_output next; updated_at = now }) s),
    )

abbrev pub settled_accounting : BatchAccounting → Allocation → BatchAccounting
settled_accounting b a = record b {
  committed_units = a.settled_units;
  settled_units = a.settled_units;
  released_units = a.released_units;
  reconciliation_units = 0;
  settlement = if a.settled_units == 0 then Settlement.released else Settlement.settled;
}

-- `releaseBudget`, when there is something to release, and the event of it.
abbrev pub release_units : ℕ → ℕ → StoredRun → Result BatchCode StoredRun
release_units units now s =
    if ltb 0 units
    then (as_batch_code (release_budget s.run.policy (int (pos units))) >>= λ policy.
        ok (with_policy policy now s))
    else ok s

abbrev pub announce_release : ℕ → StoredRun → StoredRun
announce_release units s = if ltb 0 units then append_budget_event s else s

-- The amounts are recorded, and what is released goes back to the run's budget.
unfoldable pub settle :
    Bool
    → ℕ
    → StoredRun
    → StepRecord
    → StoredGenerationBatch
    → Allocation
    → Result BatchCode (Bool × StoredRun)
settle publish now s step b a =
    updated_batch b (settled_accounting b.accounting a) now BatchStatus.completed >>= λ next.
    release_units a.released_units now s >>= λ t. ok (
      true,
      append_generation_batch_event publish next (
          announce_release a.released_units (
            put (record step { status = completed; output = batch_output next; updated_at = now })
              t)),
    )

abbrev pub settle_if :
    Bool
    → Bool
    → ℕ
    → StoredRun
    → StepRecord
    → StoredGenerationBatch
    → Option Allocation
    → Result BatchCode (Bool × StoredRun)
settle_if ready publish now s step b none = ok (false, s)
settle_if ready publish now s step b (some a) =
    if ready then settle publish now s step b a else ok (false, s)

unfoldable pub finalize_usage_v2_generation_batch :
    String → Bool → ℕ → StoredRun → Result BatchCode (Bool × StoredRun)
finalize_usage_v2_generation_batch key publish now s = with_batch s key λ step b.
    if is_settlement_finished b.accounting.settlement
    then ok (true, s)
    else if is_some_text step.budget_reservation_id (controlled_raster_batch_reservation_id b)
    then batch_finalization b s.steps s.run >>= close_raster publish now s step b
    else if not (is_some_text step.budget_reservation_id (usage_v2_batch_reservation_id b))
    then ok (false, s)
    else batch_finalization b s.steps s.run
      >>= settle_if (usage_v2_batch_outbox_ready b s.steps) publish now s step b
