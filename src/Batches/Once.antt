-- ===== src/Batches/Once.antt =====
-- A batch is settled once: src/core/generation-batch.ts.
use shan_hai_edu_ppt.Base.{append_text, ◌+◌, ◌≡◌, true, String, is_some_text}
use shan_hai_edu_ppt.Contracts.Accounting.{StoredGenerationBatch}
use shan_hai_edu_ppt.Ports.{StepRecord, StoredRun}
use shan_hai_edu_ppt.Batches.Finalize.{Allocation}
use shan_hai_edu_ppt.Batches.Amounts.{total, page_units}
use shan_hai_edu_ppt.Batches.Steps.{Found}
use shan_hai_edu_ppt.Batches.Recorded.{Records}

-- What a finalization of the paid images does to the run's budget.
pub record Paid (s : StoredRun) (key : String) (t : StoredRun) : Type 0 where
  pub step : StepRecord
  pub batch : StoredGenerationBatch
  pub amounts : Allocation
  pub found : Found s key step batch
  pub estimated : total amounts ≡ batch.accounting.estimated_units
  pub carried : total amounts ≡ page_units batch.pages s.steps
  pub paid :
      t.run.policy.committed_budget_units + amounts.released_units
      ≡ s.run.policy.committed_budget_units
  pub recorded : Records key amounts.settled_units amounts.released_units t

-- What a finalization of images without a price does: the batch that was found under the key is
-- reserved as one of controlled rasters, nothing is recorded as settled or released, and the run
-- stays as it is.
pub record Unpriced (s : StoredRun) (key : String) (t : StoredRun) : Type 0 where
  pub step : StepRecord
  pub batch : StoredGenerationBatch
  pub found : Found s key step batch
  pub raster :
      is_some_text step.budget_reservation_id (append_text "controlled-raster:" batch.batch_id)
      ≡ true
  pub run_kept : t.run ≡ s.run
  pub recorded : Records key 0 0 t
