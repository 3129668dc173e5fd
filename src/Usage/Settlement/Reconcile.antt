-- ===== src/Usage/Settlement/Reconcile.antt =====
-- src/core/usage-v2-coordinator.ts: `reconcileTerminalRun`, and a rejected settlement tried once more.
use shan_hai_edu_ppt.Base.{
  ℕ, ◌+◌, Bool, true, false, not, ◌&&◌, ◌||◌, Option, none, some, String, is_text, any, ltb,
  if◌then◌else◌, Result, ok, err, ◌>>=◌,
}
use shan_hai_edu_ppt.Contracts.UsageAccounting.{
  UsageEvent, UsageRequestError, request_rejected, request_unknown, other_error, UsageRunBill,
  BillStatus, active, reconciling, review_required, settled, cap_exceeded, legacy_reconciliation,
}
use shan_hai_edu_ppt.Lease.{is_pending_media_reconciliation_step}
use shan_hai_edu_ppt.Policy.{is_terminal_status}
use shan_hai_edu_ppt.Ports.{
  running, completed, failed, DeliveryState, pending, acknowledged, StepRecord, finalize_output,
  StoredRun,
}
use shan_hai_edu_ppt.Ports.Repository.{get_step, put_step}
use shan_hai_edu_ppt.Usage.{
  is_usage_v2, usage_v2_finalize_step_key, finalize_request_key, UsageFinalizeOutput,
  finalize_step_output,
}
use shan_hai_edu_ppt.Usage.Enqueue.{Hashes}
use shan_hai_edu_ppt.Usage.Outbox.{OutboxCode}
use shan_hai_edu_ppt.Usage.Outbox.Delivery.{is_failed_step, is_done}
use shan_hai_edu_ppt.Usage.Outbox.Flush.{is_later, flush_events}
use shan_hai_edu_ppt.Usage.Settlement.{
  SettlementCode, settlement_run_required, finalize_missing, finalize_not_found,
  finalize_not_retryable, settlement_outbox, FinalizationUpdate, found_finalization,
  or_finalize_invalid, update_finalization,
}

-- `HOST_USAGE_V2_${bill.status}`.
abbrev pub bill_code : BillStatus → String
bill_code active = "HOST_USAGE_V2_ACTIVE"
bill_code reconciling = "HOST_USAGE_V2_RECONCILING"
bill_code review_required = "HOST_USAGE_V2_REVIEW_REQUIRED"
bill_code settled = "HOST_USAGE_V2_SETTLED"
bill_code cap_exceeded = "HOST_USAGE_V2_CAP_EXCEEDED"
bill_code legacy_reconciliation = "HOST_USAGE_V2_LEGACY_RECONCILIATION"

abbrev pub settles : BillStatus → Bool
settles settled = true
settles cap_exceeded = true
settles _ = false

abbrev pub is_reviewed : BillStatus → Bool
is_reviewed review_required = true
is_reviewed legacy_reconciliation = true
is_reviewed _ = false

abbrev is_reconciling : BillStatus → Bool
is_reconciling reconciling = true
is_reconciling _ = false

-- The time that the host asks for, if it reconciles and the time is still to come; else in a second.
abbrev pub next_bill_attempt : UsageRunBill → ℕ → ℕ
next_bill_attempt bill now = elim bill.next_reconcile_at [
  | none ↦ now + 1000
  | some at ↦ if is_reconciling bill.status && ltb now at then at else now + 1000
]

abbrev pub rejected_update : String → Option BillStatus → FinalizationUpdate
rejected_update code bill = record {
  status = failed;
  delivery_state = DeliveryState.review_required;
  error_code = some code;
  next_attempt_at = none;
  bill = bill;
  fail_completed_run = true;
  recover_completed_run = false;
}

abbrev pub pending_update : Option String → ℕ → Option BillStatus → FinalizationUpdate
pending_update code at bill = record {
  status = running;
  delivery_state = pending;
  error_code = code;
  next_attempt_at = some at;
  bill = bill;
  fail_completed_run = false;
  recover_completed_run = true;
}

abbrev pub settled_update : BillStatus → FinalizationUpdate
settled_update bill = record {
  status = completed;
  delivery_state = acknowledged;
  error_code = none;
  next_attempt_at = none;
  bill = some bill;
  fail_completed_run = false;
  recover_completed_run = true;
}

-- The `catch`; `bill` is the one that is kept.
abbrev pub update_of_error : UsageRequestError → Option BillStatus → ℕ → FinalizationUpdate
update_of_error (request_rejected code) bill now = rejected_update code bill
update_of_error (request_unknown code) bill now = pending_update (some code) (now + 1000) bill
update_of_error other_error bill now =
    pending_update (some "HOST_USAGE_V2_FINALIZE_UNKNOWN") (now + 1000) bill

abbrev pub update_of_bill : UsageRunBill → ℕ → FinalizationUpdate
update_of_bill bill now =
    if settles bill.status
    then settled_update bill.status
    else if is_reviewed bill.status
    then rejected_update (bill_code bill.status) (some bill.status)
    else pending_update none (next_bill_attempt bill now) (some bill.status)

-- A bill of another run is a rejection.
abbrev pub own_bill :
    String → Result UsageRequestError UsageRunBill → Result UsageRequestError UsageRunBill
own_bill run_id (err e) = err e
own_bill run_id (ok bill) =
    if is_text bill.ppt_run_id run_id
    then ok bill
    else err (request_rejected "HOST_USAGE_V2_BILL_RUN_MISMATCH")

abbrev pub update_of :
    Result UsageRequestError UsageRunBill → Option BillStatus → ℕ → FinalizationUpdate
update_of (err e) kept now = update_of_error e kept now
update_of (ok bill) kept now = update_of_bill bill now

abbrev pub stored :
    Bool → Result SettlementCode StoredRun → StoredRun → Result SettlementCode Bool × StoredRun
stored b (err c) s = (err c, s)
stored b (ok t) s = (ok b, t)

-- `ingest` is what the host answers to an event, and `finalize` what it answers to the request to
-- finalize a run, by the run's id and the request's key.
module _ (hashes : Hashes) (ingest : UsageEvent → Result UsageRequestError BillStatus)
    (finalize : String → String → Result UsageRequestError UsageRunBill) (now : ℕ) where
  abbrev pub settle :
      StepRecord → UsageFinalizeOutput → StoredRun → Result SettlementCode Bool × StoredRun
  settle step o s =
      let u =
        update_of (own_bill s.run.id (finalize s.run.id (finalize_request_key step.run_id))) o.bill
          now in
      stored (is_done u.status) (update_finalization u now s) s

  abbrev pub settle_if_flushed :
      Result OutboxCode Bool × StoredRun
      → StepRecord
      → UsageFinalizeOutput
      → Result SettlementCode Bool × StoredRun
  settle_if_flushed (err c, s) step o = (err (settlement_outbox c), s)
  settle_if_flushed (ok flushed, s) step o =
      if not flushed || any is_pending_media_reconciliation_step s.steps
      then (ok false, s)
      else settle step o s

  abbrev pub reconcile_output :
      Result SettlementCode UsageFinalizeOutput
      → StepRecord
      → StoredRun
      → Result SettlementCode Bool × StoredRun
  reconcile_output (err c) step s = (err c, s)
  reconcile_output (ok o) step s =
      if is_later o.next_attempt_at now
      then (ok false, s)
      else settle_if_flushed (flush_events hashes ingest now s) step o

  abbrev pub reconcile_step :
      Result SettlementCode StepRecord → StoredRun → Result SettlementCode Bool × StoredRun
  reconcile_step (err c) s = (err c, s)
  reconcile_step (ok step) s =
      if is_done step.status
      then (ok true, s)
      else if is_failed_step step.status
      then (ok false, s)
      else reconcile_output (or_finalize_invalid (finalize_step_output step)) step s

  unfoldable pub reconcile_terminal_run : StoredRun → Result SettlementCode Bool × StoredRun
  reconcile_terminal_run s =
      if not (is_usage_v2 s.run.accounting_protocol) || not (is_terminal_status s.run.status)
      then (ok false, s)
      else reconcile_step
          (found_finalization finalize_missing
            (get_step (usage_v2_finalize_step_key s.run.id) s.steps))
          s

  abbrev pub is_under_review : DeliveryState → Bool
  is_under_review DeliveryState.review_required = true
  is_under_review _ = false

  -- The transaction of `retryRejectedFinalization`.
  unfoldable pub retry_finalization : String → StoredRun → Result SettlementCode StoredRun
  retry_finalization key s =
      if not (is_usage_v2 s.run.accounting_protocol)
      then err settlement_run_required
      else found_finalization finalize_not_found (get_step key s.steps) >>= λ step.
          if not (is_text key (usage_v2_finalize_step_key s.run.id))
          then err finalize_not_found
          else or_finalize_invalid (finalize_step_output step) >>= λ o.
              if not (is_failed_step step.status) || not (is_under_review o.delivery_state)
              then err finalize_not_retryable
              else ok (record s {
                steps =
                    put_step
                      (record step {
                        status = running;
                        error_code = none;
                        output =
                            finalize_output (finalize_request_key step.run_id) pending (some now)
                              o.bill;
                        updated_at = now;
                      })
                      s.steps;
              })

  unfoldable pub retry_rejected_finalization :
      String → StoredRun → Result SettlementCode Bool × StoredRun
  retry_rejected_finalization key s = elim (retry_finalization key s) [
    | err c ↦ (err c, s)
    | ok t ↦ reconcile_terminal_run t
  ]
