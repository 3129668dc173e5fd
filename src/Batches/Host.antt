-- ===== src/Batches/Host.antt =====
-- src/core/generation-batch.ts: settling a batch with the host that has reserved its budget.
use shan_hai_edu_ppt.Base.{
  ℕ, Bool, true, false, not, ◌||◌, Option, none, some, String, is_none, is_some_text, ◌==◌,
  if◌then◌else◌, Result, ok, err, ◌>>=◌,
}
use shan_hai_edu_ppt.Contracts.Accounting.{
  Authorization, Settlement, BatchStatus, reconciliation_required, StoredGenerationBatch,
  is_settlement_finished,
}
use shan_hai_edu_ppt.Ports.{
  failed, billing_unknown, batch_output, StepRecord, tool_failed, StoredRun,
}
use shan_hai_edu_ppt.Ports.Repository.{get_step, append_event, transact}
use shan_hai_edu_ppt.Usage.{is_usage_v2}
use shan_hai_edu_ppt.Usage.Enqueue.{Hashes}
use shan_hai_edu_ppt.Recovery.Classification.{begin_technical_recovery_for_code}
use shan_hai_edu_ppt.Batches.{
  BatchCode, is_batch_tool, read_batch, updated_batch, parsed, append_generation_batch_event, put,
}
use shan_hai_edu_ppt.Batches.Reserve.{held, controlled_raster_batch_reservation_id, with_batch}
use shan_hai_edu_ppt.Batches.Reserve.Hosted.{after_recovery}
use shan_hai_edu_ppt.Batches.Finalize.{
  Allocation, batch_finalization, close_raster, settle, finalize_usage_v2_generation_batch,
}

-- The batch that reserved itself: `none` for any other one.
abbrev raster_result :
    Result BatchCode (Bool × StoredRun) → Result BatchCode (Option Bool × StoredRun)
raster_result (err e) = err e
raster_result (ok (done, t)) = ok (some done, t)

unfoldable pub finalize_controlled_raster :
    String → Bool → ℕ → StoredRun → Result BatchCode (Option Bool × StoredRun)
finalize_controlled_raster key publish now s = with_batch s key λ step b.
    if not (is_some_text step.budget_reservation_id (controlled_raster_batch_reservation_id b))
    then ok (none, s)
    else if is_settlement_finished b.accounting.settlement
    then ok (some true, s)
    else raster_result (batch_finalization b s.steps s.run >>= close_raster publish now s step b)

-- What the host is asked to settle.
pub record Pending : Type 0 where
  pub reservation_id : String
  pub batch : StoredGenerationBatch
  pub allocation : Allocation

abbrev pend :
    Option String
    → StoredGenerationBatch
    → StoredRun
    → Option Allocation
    → Option Pending × StoredRun
pend (some id) b s (some a) = (some (record { reservation_id = id; batch = b; allocation = a }), s)
pend _ b s _ = (none, s)

unfoldable pub pending_finalization :
    String → StoredRun → Result BatchCode (Option Pending × StoredRun)
pending_finalization key s = with_batch s key λ step b.
    if is_none (held step.budget_reservation_id) || is_settlement_finished b.accounting.settlement
    then ok (none, s)
    else batch_finalization b s.steps s.run >>= λ o.
        ok (pend (held step.budget_reservation_id) b s o)

abbrev pub read_stored : Option StepRecord → Result BatchCode (Option StoredGenerationBatch)
read_stored none = ok none
read_stored (some step) =
    if is_batch_tool step.tool then (read_batch step.output >>= λ b. ok (some b)) else ok none

-- The batch under the key of its round and scope.
unfoldable pub get_generation_batch :
    String → StoredRun → Result BatchCode (Option StoredGenerationBatch)
get_generation_batch key s = read_stored (get_step key s.steps)

abbrev is_settled : Option StoredGenerationBatch → Bool
is_settled none = false
is_settled (some b) = is_settlement_finished b.accounting.settlement

-- Nothing is pending: whether the batch is settled already.
unfoldable pub is_finalized : String → StoredRun → Result BatchCode (Bool × StoredRun)
is_finalized key s = get_generation_batch key s >>= λ b. ok (is_settled b, s)

-- The host has not answered: the run recovers, and the amounts stay to be reconciled.
unfoldable pub lose_finalization :
    Hashes → String → Bool → ℕ → StoredRun → Result BatchCode (Bool × StoredRun)
lose_finalization hashes key publish now s = with_batch s key λ step b.
    updated_batch b
      (record b.accounting {
        settlement = Settlement.unknown;
        reconciliation_units = b.accounting.estimated_units;
      })
      now reconciliation_required
    >>= λ next.
        let t =
          put
            (record step {
              status = billing_unknown;
              error_code = some "BATCH_BUDGET_FINALIZATION_UNKNOWN";
              output = batch_output next;
              updated_at = now;
            })
            s in
        after_recovery
          (begin_technical_recovery_for_code hashes "BATCH_BUDGET_FINALIZATION_UNKNOWN" now t) t
        >>= λ (again, u). ok (
          false,
          append_generation_batch_event publish next
              (append_event u (tool_failed step.id "BATCH_BUDGET_FINALIZATION_UNKNOWN" again)),
        )

unfoldable pub commit_finalization :
    String → Bool → ℕ → Allocation → StoredRun → Result BatchCode (Bool × StoredRun)
commit_finalization key publish now a s = with_batch s key λ step b. settle publish now s step b a

abbrev finalize_with_host :
    Hashes
    → (Pending → Bool)
    → String
    → Bool
    → ℕ
    → Result BatchCode (Option Pending) × StoredRun
    → Result BatchCode Bool × StoredRun
finalize_with_host hashes host key publish now (err e, s) = (err e, s)
finalize_with_host hashes host key publish now (ok none, s) = transact s (is_finalized key)
finalize_with_host hashes host key publish now (ok (some p), s) =
    if host p
    then transact s (commit_finalization key publish now p.allocation)
    else transact s (lose_finalization hashes key publish now)

abbrev finalize_paid :
    Hashes
    → (Pending → Bool)
    → String
    → Bool
    → ℕ
    → Result BatchCode (Option Bool) × StoredRun
    → Result BatchCode Bool × StoredRun
finalize_paid hashes host key publish now (err e, s) = (err e, s)
finalize_paid hashes host key publish now (ok (some done), s) = (ok done, s)
finalize_paid hashes host key publish now (ok none, s) =
    finalize_with_host hashes host key publish now (transact s (pending_finalization key))

-- The transactions one after the other; `host` says whether the host has carried the settlement out.
unfoldable pub finalize_generation_batch :
    Hashes → (Pending → Bool) → String → Bool → ℕ → StoredRun → Result BatchCode Bool × StoredRun
finalize_generation_batch hashes host key publish now s =
    if is_usage_v2 s.run.accounting_protocol
    then transact s (finalize_usage_v2_generation_batch key publish now)
    else finalize_paid hashes host key publish now
        (transact s (finalize_controlled_raster key publish now))

-- What the host's preflight answers: its error is classified by its message.
pub data Preflight : Type 0 where
  accepted_preflight : Preflight
  auth_failed unsupported_preflight unknown_preflight : Preflight

abbrev preflight_code : Preflight → String
preflight_code auth_failed = "BATCH_BUDGET_FINALIZATION_AUTH_FAILED"
preflight_code unsupported_preflight = "BATCH_BUDGET_FINALIZATION_UNSUPPORTED"
preflight_code _ = "BATCH_BUDGET_FINALIZATION_UNKNOWN"

abbrev is_definitive : Preflight → Bool
is_definitive auth_failed = true
is_definitive unsupported_preflight = true
is_definitive _ = false

-- The batch of a preflight that failed; a definitive rejection closes it with nothing submitted.
unfoldable pub rejected_batch : Bool → ℕ → StoredGenerationBatch → StoredGenerationBatch
rejected_batch definitive now b = record b {
  accounting = record b.accounting {
    authorization = Authorization.rejected;
    settlement = if definitive then Settlement.released else Settlement.not_ready;
    released_units = if definitive then b.accounting.estimated_units else 0;
    reconciliation_units = 0;
  };
  status = if definitive then BatchStatus.completed else b.status;
  updated_at = now;
  progress =
      if definitive
      then record { submitted = 0; completed = 0; failed = b.page_count }
      else b.progress;
}

unfoldable pub reject_preflight :
    Hashes → Preflight → String → Bool → ℕ → StoredRun → Result BatchCode (Bool × StoredRun)
reject_preflight hashes answer key publish now s = with_batch s key λ step b.
    parsed (rejected_batch (is_definitive answer) now b) >>= λ next.
    let t =
      put
        (record step {
          status = failed;
          error_code = some (preflight_code answer);
          output = batch_output next;
          updated_at = now;
        })
        s in
    after_recovery (begin_technical_recovery_for_code hashes (preflight_code answer) now t) t
    >>= λ (again, u). ok (
      false,
      append_generation_batch_event publish next
          (append_event u (tool_failed step.id (preflight_code answer) again)),
    )

abbrev is_free : Option StoredGenerationBatch → Bool
is_free none = false
is_free (some b) = b.accounting.estimated_units == 0

abbrev preflight_paid :
    Hashes → Preflight → String → Bool → ℕ → StoredRun → Result BatchCode Bool × StoredRun
preflight_paid hashes accepted_preflight key publish now s = (ok true, s)
preflight_paid hashes answer key publish now s =
    transact s (reject_preflight hashes answer key publish now)

unfoldable pub preflight_generation_batch_finalization :
    Hashes → Preflight → String → Bool → ℕ → StoredRun → Result BatchCode Bool × StoredRun
preflight_generation_batch_finalization hashes answer key publish now s =
    elim (get_generation_batch key s) [
      | err e ↦ (err e, s)
      | ok b ↦
          if is_free b || is_usage_v2 s.run.accounting_protocol
          then (ok true, s)
          else preflight_paid hashes answer key publish now s
    ]
