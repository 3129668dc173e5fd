-- ===== src/Batches/Reserve.antt =====
-- src/core/generation-batch.ts: the reservation of a batch's budget, by itself or by the usage service.
pub mod Hosted
use shan_hai_edu_ppt.Base.{
  ℕ, Bool, true, false, not, ◌&&◌, ◌||◌, Option, none, some, String, is_text, is_none,
  is_empty_text, append_text, ◌==◌, if◌then◌else◌, Result, ok, err, ◌>>=◌,
}
use shan_hai_edu_ppt.Base.Int.{pos, int}
use shan_hai_edu_ppt.Contracts.Accounting.{
  BatchAccounting, Authorization, Settlement, processing, reconciliation_required,
  StoredGenerationBatch, is_rejected,
}
use shan_hai_edu_ppt.Contracts.Failures.{TechnicalRecovery}
use shan_hai_edu_ppt.Policy.{RunPolicyState, PolicyCode, reserve_budget, release_budget}
use shan_hai_edu_ppt.Ports.{
  StepStatus, running, reserved, failed, reservation_unknown, batch_output, StepRecord,
  budget_updated, tool_failed, StoredRun,
}
use shan_hai_edu_ppt.Ports.Repository.{append_event, transact}
use shan_hai_edu_ppt.Usage.{is_usage_v2}
use shan_hai_edu_ppt.Usage.Enqueue.{Hashes}
use shan_hai_edu_ppt.Lifecycle.Failure.{LifecycleCode}
use shan_hai_edu_ppt.Recovery.{retryable, begin_technical_recovery}
use shan_hai_edu_ppt.Recovery.Classification.{host_technical_failure}
use shan_hai_edu_ppt.Batches.{
  BatchCode, reservation_conflict, policy_code, recovery_code, read_batch, require_batch_step,
  updated_batch, append_generation_batch_event, put,
}

pub record Reservation : Type 0 where
  pub batch_id : String
  pub reservation_id : String

unfoldable pub usage_v2_batch_reservation_id : StoredGenerationBatch → String
usage_v2_batch_reservation_id b = append_text "usage-v2:" b.batch_id

unfoldable pub controlled_raster_batch_reservation_id : StoredGenerationBatch → String
controlled_raster_batch_reservation_id b = append_text "controlled-raster:" b.batch_id

-- The step and the batch that a transaction starts with.
abbrev pub with_batch {ℓ} :
    {A : Type ℓ}
    → StoredRun
    → String
    → (StepRecord → StoredGenerationBatch → Result BatchCode A)
    → Result BatchCode A
with_batch s key next =
    require_batch_step s key >>= λ step. read_batch step.output >>= λ b. next step b

-- The truth of `step.budgetReservationId`.
abbrev pub held : Option String → Option String
held none = none
held (some id) = if is_empty_text id then none else some id

-- A step that has its reservation already: it is given again, unless it is another one.
abbrev pub replay :
    String
    → StoredGenerationBatch
    → String
    → StoredRun
    → Result BatchCode (Option Reservation × StoredRun)
replay found b id s =
    if is_text found id
    then ok (some (record { batch_id = b.batch_id; reservation_id = id }), s)
    else err reservation_conflict

abbrev pub reserved_accounting : BatchAccounting → ℕ → BatchAccounting
reserved_accounting a units = record a {
  committed_units = units;
  authorization = Authorization.reserved;
  settlement = Settlement.pending;
}

-- `transaction.putRun` of the run with its budget reserved or released.
abbrev pub with_policy : RunPolicyState → ℕ → StoredRun → StoredRun
with_policy policy now s = record s { run = record s.run { policy = policy; updated_at = now } }

abbrev pub append_budget_event : StoredRun → StoredRun
append_budget_event s =
    append_event s (budget_updated s.run.policy.budget_units s.run.policy.committed_budget_units)

abbrev pub as_batch_code : Result PolicyCode RunPolicyState → Result BatchCode RunPolicyState
as_batch_code (err e) = err (policy_code e)
as_batch_code (ok p) = ok p

-- A batch without paid images is reserved by itself.
abbrev pub raster_new :
    Bool
    → ℕ
    → StoredRun
    → StepRecord
    → StoredGenerationBatch
    → Result BatchCode (Option Reservation × StoredRun)
raster_new publish now s step b =
    let id = controlled_raster_batch_reservation_id b in
    updated_batch b (reserved_accounting b.accounting 0) now processing >>= λ next. ok (
      some (record { batch_id = b.batch_id; reservation_id = id }),
      append_generation_batch_event publish next (
          put
            (record step {
              status = running;
              budget_reservation_id = some id;
              output = batch_output next;
              updated_at = now;
            })
            s),
    )

abbrev pub raster_by :
    Option String
    → Bool
    → ℕ
    → StoredRun
    → StepRecord
    → StoredGenerationBatch
    → Result BatchCode (Option Reservation × StoredRun)
raster_by none publish now s step b = raster_new publish now s step b
raster_by (some found) publish now s step b =
    replay found b (controlled_raster_batch_reservation_id b) s

unfoldable pub reserve_controlled_raster :
    String → Bool → ℕ → StoredRun → Result BatchCode (Option Reservation × StoredRun)
reserve_controlled_raster key publish now s = with_batch s key λ step b.
    if not (b.accounting.estimated_units == 0)
    then ok (none, s)
    else raster_by (held step.budget_reservation_id) publish now s step b

abbrev pub is_failed : StepStatus → Bool
is_failed failed = true
is_failed _ = false

-- The usage service needs no call: the run's budget is reserved, and the step names the batch.
abbrev pub usage_v2_new :
    Bool
    → ℕ
    → StoredRun
    → StepRecord
    → StoredGenerationBatch
    → Result BatchCode (Option Reservation × StoredRun)
usage_v2_new publish now s step b =
    let id = usage_v2_batch_reservation_id b in
    as_batch_code (reserve_budget s.run.policy (int (pos step.budget_units))) >>= λ policy.
    updated_batch b (reserved_accounting b.accounting step.budget_units) now processing >>= λ next.
    ok (
      some (record { batch_id = b.batch_id; reservation_id = id }),
      append_generation_batch_event publish next (
          append_budget_event (
            put
              (record step {
                status = running;
                budget_reservation_id = some id;
                output = batch_output next;
                updated_at = now;
              })
              (with_policy policy now s))),
    )

abbrev pub usage_v2_by :
    Option String
    → Bool
    → ℕ
    → StoredRun
    → StepRecord
    → StoredGenerationBatch
    → Result BatchCode (Option Reservation × StoredRun)
usage_v2_by none publish now s step b =
    if is_failed step.status then ok (none, s) else usage_v2_new publish now s step b
usage_v2_by (some found) publish now s step b = replay found b (usage_v2_batch_reservation_id b) s

unfoldable pub reserve_usage_v2 :
    String → Bool → ℕ → StoredRun → Result BatchCode (Option Reservation × StoredRun)
reserve_usage_v2 key publish now s =
    with_batch s key λ step b. usage_v2_by (held step.budget_reservation_id) publish now s step b
