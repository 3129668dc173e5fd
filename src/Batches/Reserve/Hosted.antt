-- ===== src/Batches/Reserve/Hosted.antt =====
-- src/core/generation-batch.ts: the reservation of a batch's budget by the host.
use shan_hai_edu_ppt.Base.{
  ℕ, Bool, true, false, not, ◌&&◌, ◌||◌, Option, none, some, String, is_none, if◌then◌else◌, Result,
  ok, err, ◌>>=◌,
}
use shan_hai_edu_ppt.Base.Int.{pos, int}
use shan_hai_edu_ppt.Contracts.Accounting.{
  Authorization, Settlement, reconciliation_required, StoredGenerationBatch, is_rejected,
}
use shan_hai_edu_ppt.Contracts.Failures.{TechnicalRecovery}
use shan_hai_edu_ppt.Policy.{reserve_budget, release_budget}
use shan_hai_edu_ppt.Ports.{
  StepStatus, running, reserved, failed, reservation_unknown, batch_output, StepRecord, tool_failed,
  StoredRun,
}
use shan_hai_edu_ppt.Ports.Repository.{append_event, transact}
use shan_hai_edu_ppt.Usage.{is_usage_v2}
use shan_hai_edu_ppt.Usage.Enqueue.{Hashes}
use shan_hai_edu_ppt.Lifecycle.Failure.{LifecycleCode}
use shan_hai_edu_ppt.Recovery.{retryable, begin_technical_recovery}
use shan_hai_edu_ppt.Recovery.Classification.{host_technical_failure}
use shan_hai_edu_ppt.Batches.{
  BatchCode, recovery_code, updated_batch, append_generation_batch_event, put,
}
use shan_hai_edu_ppt.Batches.Reserve.{
  Reservation, with_batch, held, reserved_accounting, with_policy, append_budget_event,
  as_batch_code, is_failed, reserve_controlled_raster, reserve_usage_v2,
}

-- The first transaction of a reservation by the host: its result, and whether the host is asked.
pub record Prepared : Type 0 where
  pub batch : StoredGenerationBatch
  pub reservation_id : Option String

abbrev pub is_prepared : StepStatus → Bool
is_prepared reserved = true
is_prepared reservation_unknown = true
is_prepared _ = false

abbrev pub prepare_new :
    Bool
    → ℕ
    → StoredRun
    → StepRecord
    → StoredGenerationBatch
    → Result BatchCode (Option Prepared × StoredRun)
prepare_new publish now s step b =
    as_batch_code (reserve_budget s.run.policy (int (pos step.budget_units))) >>= λ policy.
    updated_batch b
      (record b.accounting {
        committed_units = step.budget_units;
        authorization = Authorization.pending;
        settlement = Settlement.not_ready;
      })
      now b.status
    >>= λ next. ok (
      some (record { batch = next; reservation_id = none }),
      append_generation_batch_event publish next (
          append_budget_event (
            put (record step { status = reserved; output = batch_output next; updated_at = now })
              (with_policy policy now s))),
    )

abbrev pub prepare_by :
    Option String
    → Bool
    → ℕ
    → StoredRun
    → StepRecord
    → StoredGenerationBatch
    → Result BatchCode (Option Prepared × StoredRun)
prepare_by (some found) publish now s step b =
    ok (some (record { batch = b; reservation_id = some found }), s)
prepare_by none publish now s step b =
    if is_failed step.status && not (is_rejected b.accounting.authorization)
    then ok (none, s)
    else if is_prepared step.status
    then ok (some (record { batch = b; reservation_id = none }), s)
    else prepare_new publish now s step b

unfoldable pub prepare_reservation :
    String → Bool → ℕ → StoredRun → Result BatchCode (Option Prepared × StoredRun)
prepare_reservation key publish now s =
    with_batch s key λ step b. prepare_by (held step.budget_reservation_id) publish now s step b

-- What the host answers to `reserveBatch`.
pub data HostReservation : Type 0 where
  granted : (reservation_id : String) → HostReservation
  not_reserved : (error_code : String) → HostReservation
  reservation_lost : (error_code : String) → HostReservation

-- The transaction after the host has granted the reservation.
unfoldable pub commit_reservation :
    String → Bool → ℕ → String → StoredRun → Result BatchCode (Option Reservation × StoredRun)
commit_reservation key publish now id s = with_batch s key λ step b.
    updated_batch b (reserved_accounting b.accounting step.budget_units) now b.status >>= λ next.
    ok (
      some (record { batch_id = next.batch_id; reservation_id = id }),
      append_generation_batch_event publish next (
          put
            (record step {
              status = running;
              budget_reservation_id = some id;
              output = batch_output next;
              updated_at = now;
            })
            s),
    )

-- The host has certainly reserved nothing: the run's budget is released.
unfoldable pub reject_reservation :
    String → Bool → ℕ → String → StoredRun → Result BatchCode (Option Reservation × StoredRun)
reject_reservation key publish now code s = with_batch s key λ step b.
    as_batch_code (release_budget s.run.policy (int (pos step.budget_units))) >>= λ policy.
    updated_batch b
      (record b.accounting {
        committed_units = 0;
        authorization = Authorization.rejected;
        settlement = Settlement.not_ready;
      })
      now b.status
    >>= λ next. ok (
      none,
      append_generation_batch_event publish next (
          append_budget_event (
            put
              (record step {
                status = failed;
                error_code = some code;
                output = batch_output next;
                updated_at = now;
              })
              (with_policy policy now s))),
    )

abbrev pub is_recovery_retryable : Option TechnicalRecovery → Bool
is_recovery_retryable none = false
is_recovery_retryable (some r) = r.retryable

abbrev pub after_recovery :
    Result LifecycleCode (Option StoredRun) → StoredRun → Result BatchCode (Bool × StoredRun)
after_recovery (err e) s = err (recovery_code e)
after_recovery (ok none) s = ok (false, s)
after_recovery (ok (some t)) s = ok (is_recovery_retryable t.run.technical_recovery, t)

-- It is not known whether the host has reserved: the run recovers, and its budget stays committed.
unfoldable pub lose_reservation :
    Hashes
    → String
    → Bool
    → ℕ
    → String
    → StoredRun
    → Result BatchCode (Option Reservation × StoredRun)
lose_reservation hashes key publish now code s = with_batch s key λ step b.
    updated_batch b
      (record b.accounting {
        authorization = Authorization.unknown;
        reconciliation_units = b.accounting.estimated_units;
      })
      now reconciliation_required
    >>= λ next.
        let t =
          put
            (record step {
              status = reservation_unknown;
              error_code = some code;
              output = batch_output next;
              updated_at = now;
            })
            s in
        after_recovery
          (begin_technical_recovery hashes (host_technical_failure code retryable) now t) t
        >>= λ (again, u). ok (
          none,
          append_generation_batch_event publish next
              (append_event u (tool_failed step.id code again)),
        )

abbrev pub answered :
    Hashes
    → HostReservation
    → String
    → Bool
    → ℕ
    → StoredRun
    → Result BatchCode (Option Reservation × StoredRun)
answered hashes (granted id) key publish now s = commit_reservation key publish now id s
answered hashes (not_reserved code) key publish now s = reject_reservation key publish now code s
answered hashes (reservation_lost code) key publish now s =
    lose_reservation hashes key publish now code s

-- `requireAccountingModel`, whose error is caught like one of the host.
abbrev pub ask_budget :
    (StoredGenerationBatch → HostReservation) → StoredGenerationBatch → HostReservation
ask_budget host b =
    if is_none b.accounting_model || is_none b.operation_mode
    then reservation_lost "BATCH_BUDGET_RESERVATION_UNKNOWN"
    else host b

abbrev pub ask_host :
    Hashes
    → (StoredGenerationBatch → HostReservation)
    → String
    → Bool
    → ℕ
    → Result BatchCode (Option Prepared) × StoredRun
    → Result BatchCode (Option Reservation) × StoredRun
ask_host hashes host key publish now (err e, s) = (err e, s)
ask_host hashes host key publish now (ok none, s) = (ok none, s)
ask_host hashes host key publish now (ok (some p), s) = elim p.reservation_id [
  | some id ↦ (ok (some (record { batch_id = p.batch.batch_id; reservation_id = id })), s)
  | none ↦ transact s (answered hashes (ask_budget host p.batch) key publish now)
]

abbrev pub reserve_paid :
    Hashes
    → (StoredGenerationBatch → HostReservation)
    → String
    → Bool
    → ℕ
    → Bool
    → Result BatchCode (Option Reservation) × StoredRun
    → Result BatchCode (Option Reservation) × StoredRun
reserve_paid hashes host key publish now by_usage (err e, s) = (err e, s)
reserve_paid hashes host key publish now by_usage (ok (some r), s) = (ok (some r), s)
reserve_paid hashes host key publish now by_usage (ok none, s) =
    if by_usage
    then transact s (reserve_usage_v2 key publish now)
    else ask_host hashes host key publish now (transact s (prepare_reservation key publish now))

-- The transactions one after the other; `host` is what the host answers to the batch.
unfoldable pub reserve_generation_batch :
    Hashes
    → (StoredGenerationBatch → HostReservation)
    → String
    → Bool
    → ℕ
    → StoredRun
    → Result BatchCode (Option Reservation) × StoredRun
reserve_generation_batch hashes host key publish now s =
    reserve_paid hashes host key publish now (is_usage_v2 s.run.accounting_protocol)
      (transact s (reserve_controlled_raster key publish now))
