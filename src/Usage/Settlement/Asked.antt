-- ===== src/Usage/Settlement/Asked.antt =====
-- When src/core/usage-v2-coordinator.ts asks the host to settle a run.
use shan_hai_edu_ppt.Base.{
  ℕ, ◌≡◌, ap, refl, ◌⊎◌, inl, inr, Bool, true, false, not, ◌||◌, some, [], String, arith, any,
  Bool-cases, if◌then◌else◌, Result, ok, err,
}
use shan_hai_edu_ppt.Contracts.UsageAccounting.{
  UsageEvent, UsageRequestError, UsageRunBill, BillStatus,
}
use shan_hai_edu_ppt.Lease.{is_pending_media_reconciliation_step}
use shan_hai_edu_ppt.Usage.Outbox.Answered.{Holds}
use shan_hai_edu_ppt.Policy.{is_terminal_status}
use shan_hai_edu_ppt.Ports.{StepRecord, StoredRun}
use shan_hai_edu_ppt.Ports.Repository.{get_step}
use shan_hai_edu_ppt.Usage.{
  is_usage_v2, usage_v2_finalize_step_key, UsageFinalizeOutput, finalize_step_output,
}
use shan_hai_edu_ppt.Usage.Enqueue.{Hashes}
use shan_hai_edu_ppt.Usage.Outbox.{OutboxCode}
use shan_hai_edu_ppt.Usage.Outbox.Delivery.{is_done, is_failed_step}
use shan_hai_edu_ppt.Usage.Outbox.Flush.{flush_events}
use shan_hai_edu_ppt.Usage.Outbox.Order.{report_at}
use shan_hai_edu_ppt.Usage.Outbox.History.{History, HeardSince, flushed_all}
use shan_hai_edu_ppt.Usage.Settlement.{
  SettlementCode, finalize_missing, found_finalization, or_finalize_invalid,
}
use shan_hai_edu_ppt.Usage.Settlement.Reconcile.{
  settle_if_flushed, reconcile_output, reconcile_step, reconcile_terminal_run,
}

-- The flush has left events behind, or an image waits to be reconciled.
abbrev IsBlocked : Result OutboxCode Bool × StoredRun → Type 0
IsBlocked r = (¬ (r.0 ≡ ok true)) ⊎ (any is_pending_media_reconciliation_step r.1.steps ≡ true)

module _ (hashes : Hashes) (ingest : UsageEvent → Result UsageRequestError BillStatus)
    (now : ℕ) where
  unasked_if_unflushed :
      (r : Result OutboxCode Bool × StoredRun) (x : StepRecord) (o : UsageFinalizeOutput)
      → (f g : String → String → Result UsageRequestError UsageRunBill) → IsBlocked r
      → settle_if_flushed hashes ingest f now r x o ≡ settle_if_flushed hashes ingest g now r x o
  unasked_if_unflushed (err c, s) x o f g waits = refl
  unasked_if_unflushed (ok true, s) x o f g (inl waits) = absurd (waits refl)
  unasked_if_unflushed (ok true, s) x o f g (inr media) = rw media refl
  unasked_if_unflushed (ok false, s) x o f g waits = refl

  unasked_reconcile :
      (r : Result SettlementCode StepRecord) (s : StoredRun)
      → (f g : String → String → Result UsageRequestError UsageRunBill)
      → IsBlocked (flush_events hashes ingest now s)
      → reconcile_step hashes ingest f now r s ≡ reconcile_step hashes ingest g now r s
  unasked_reconcile (err c) s f g waits = refl
  unasked_reconcile (ok x) s f g waits = by (or_finalize_invalid (finalize_step_output x))
    where
      by :
          (r : Result SettlementCode UsageFinalizeOutput)
          → (if is_done x.status
              then (ok true, s)
              else if is_failed_step x.status
              then (ok false, s)
              else reconcile_output hashes ingest f now r x s)
            ≡ (if is_done x.status
                then (ok true, s)
                else if is_failed_step x.status
                then (ok false, s)
                else reconcile_output hashes ingest g now r x s)
      by (err c) = refl
      by (ok o) = rw (unasked_if_unflushed (flush_events hashes ingest now s) x o f g waits) refl

  is_ready :
      (r : Result OutboxCode Bool × StoredRun)
      → ((r.0 ≡ ok true) × (any is_pending_media_reconciliation_step r.1.steps ≡ false))
        ⊎ IsBlocked r
  is_ready (err c, s) = inr (inl (λ h. ground (arith, h)))
  is_ready (ok false, s) = inr (inl (λ h. ground (arith, h)))
  is_ready (ok true, s) = elim (Bool-cases (any is_pending_media_reconciliation_step s.steps)) [
    | inl media ↦ inr (inr media)
    | inr clear ↦ inl (refl, clear)
  ]

-- After any history of an outbox that begins empty: either each event of the run, once they are
-- flushed with no other transaction of the run between, is recorded as acknowledged, the host has
-- answered to each with a bill, in the history or in the flush, and no image of the run waits to be
-- reconciled; or the host is not asked to settle the run, in that what is done is the same whatever
-- it would answer.
pub asked_after_events :
    {hashes : Hashes} {hash : UsageEvent → String} {s t : StoredRun}
    → s.steps ≡ []
    → (history : History hashes hash s t)
      (ingest : UsageEvent → Result UsageRequestError BillStatus) (now : ℕ)
    → (((k : String) (y : StepRecord)
          → report_at k (flush_events hashes ingest now t).1.steps ≡ some y
          → (is_done y.status ≡ true) × Holds (HeardSince history ingest) y)
        × (any is_pending_media_reconciliation_step (flush_events hashes ingest now t).1.steps
            ≡ false))
      ⊎ ((f g : String → String → Result UsageRequestError UsageRunBill)
          → reconcile_terminal_run hashes ingest f now t
            ≡ reconcile_terminal_run hashes ingest g now t)
unfolding reconcile_terminal_run
asked_after_events {hashes = hashes} {t = t} nothing history ingest now =
    elim (is_ready hashes ingest now (flush_events hashes ingest now t)) [
      | inl (flushed, clear) ↦ inl (flushed_all nothing history ingest now flushed, clear)
      | inr waits ↦ inr (λ f g.
          ap
            (λ r.
              if not (is_usage_v2 t.run.accounting_protocol)
                || not (is_terminal_status t.run.status)
              then (ok false, t)
              else r)
            (unasked_reconcile hashes ingest now
              (found_finalization finalize_missing
                (get_step (usage_v2_finalize_step_key t.run.id) t.steps))
              t f g waits))
    ]
