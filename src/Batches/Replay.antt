-- ===== src/Batches/Replay.antt =====
-- Reserving a batch twice: src/core/generation-batch.ts.
use shan_hai_edu_ppt.Base.{◌+◌, ◌≡◌, some, String, Result, ok, err}
use shan_hai_edu_ppt.Contracts.Accounting.{StoredGenerationBatch}
use shan_hai_edu_ppt.Policy.{PolicyCode, RunPolicyState}
use shan_hai_edu_ppt.Ports.{StepRecord, StoredRun}
use shan_hai_edu_ppt.Batches.Reserve.{Reservation, usage_v2_batch_reservation_id, as_batch_code}
use shan_hai_edu_ppt.Batches.Steps.{Found}

-- What a new reservation by the usage service leaves.
record Reserved (s : StoredRun) (key : String) (step : StepRecord) (r : Reservation) (t : StoredRun)
    : Type 0 where
  kept : StepRecord
  batch : StoredGenerationBatch
  found : Found t key kept batch
  named : kept.budget_reservation_id ≡ some (usage_v2_batch_reservation_id batch)
  given :
      r ≡ record { batch_id = batch.batch_id; reservation_id = usage_v2_batch_reservation_id batch }
  committed :
      t.run.policy.committed_budget_units ≡ s.run.policy.committed_budget_units + step.budget_units

pub as_batch_code-ok :
    (m : Result PolicyCode RunPolicyState) {p : RunPolicyState} → as_batch_code m ≡ ok p → m ≡ ok p
as_batch_code-ok (err e) h = cc
as_batch_code-ok (ok q) h = cc
