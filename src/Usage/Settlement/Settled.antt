-- ===== src/Usage/Settlement/Settled.antt =====
-- What the settlement of a run in src/core/usage-v2-coordinator.ts leaves.
use shan_hai_edu_ppt.Base.{
  ℕ, ◌≡◌, ◌∙◌, ap, subst, sym, refl, ◌⊎◌, inl, inr, Bool, true, false, not, ◌||◌, Option, none,
  some, [], String, any, arith, if◌then◌else◌, Bool-cases, Result-cases, Result, ok, err,
  is_text_iff, is_text_self,
}
use shan_hai_edu_ppt.Contracts.UsageAccounting.{
  UsageEvent, UsageRequestError, UsageRunBill, BillStatus,
}
use shan_hai_edu_ppt.Lease.{is_pending_media_reconciliation_step}
use shan_hai_edu_ppt.Policy.{is_terminal_status}
use shan_hai_edu_ppt.Ports.{StepRecord, StoredRun}
use shan_hai_edu_ppt.Ports.Repository.{get_step}
use shan_hai_edu_ppt.Ports.Repository.Log.{get_step-put_step, get_step-key}
use shan_hai_edu_ppt.Usage.{
  is_usage_v2, usage_v2_finalize_step_key, UsageFinalizeOutput, finalize_step_output, is_finalize,
  is_usage_v2_run_finalization_acknowledged, finalize_request_key, is_bill_closed,
}
use shan_hai_edu_ppt.Usage.Enqueue.{Hashes}
use shan_hai_edu_ppt.Usage.Outbox.{OutboxCode, is_usage_report}
use shan_hai_edu_ppt.Usage.Outbox.Delivery.{is_done, is_failed_step}
use shan_hai_edu_ppt.Usage.Outbox.Flush.{flush_events, is_later}
use shan_hai_edu_ppt.Usage.Outbox.Order.{only_report, report_at, other_put}
use shan_hai_edu_ppt.Usage.Outbox.Answered.{Holds}
use shan_hai_edu_ppt.Usage.Outbox.Flushing.{Delivered, IsFlushed, flushed-Delivered}
use shan_hai_edu_ppt.Usage.Outbox.History.{History, HeardSince, flush-IsFlushed}
use shan_hai_edu_ppt.Usage.Settlement.{
  SettlementCode, finalize_missing, FinalizationUpdate, found_finalization, or_finalize_invalid,
  updated_step, update_finalization,
}
use shan_hai_edu_ppt.Usage.Settlement.Reconcile.{
  settled_update, settles, is_reviewed, update_of, own_bill, settle, settle_if_flushed,
  reconcile_output, reconcile_step, reconcile_terminal_run,
}
use shan_hai_edu_ppt.Usage.Settlement.Steps.{Updates, update_finalization-Updates}

-- A bill that settles the run, and the update that it makes.
record Settles (u : FinalizationUpdate) : Type 0 where
  pub bill : BillStatus
  pub closed : settles bill ≡ true
  pub same : u ≡ settled_update bill

done-Settles :
    (r : Result UsageRequestError UsageRunBill) (kept : Option BillStatus) (now : ℕ)
    → is_done (update_of r kept now).status ≡ true
    → Settles (update_of r kept now)
done-Settles (err (UsageRequestError.request_rejected code)) kept now h = absurd (ground (arith, h))
done-Settles (err (UsageRequestError.request_unknown code)) kept now h = absurd (ground (arith, h))
done-Settles (err UsageRequestError.other_error) kept now h = absurd (ground (arith, h))
done-Settles (ok b) kept now h = elim (Bool-cases (settles b.status)) [
  | inl closed ↦ record { bill = b.status; closed = closed; same = rw closed refl }
  | inr unsettled ↦ elim (Bool-cases (is_reviewed b.status)) [
    | inl reviewed ↦ absurd (ground (arith, rw reviewed at (rw unsettled at h)))
    | inr waits ↦ absurd (ground (arith, rw waits at (rw unsettled at h)))
  ]
]

not_report : (x : StepRecord) → is_finalize x.tool ≡ true → is_usage_report x.tool ≡ false
not_report x h = ground arith

-- The reports are those that there were.
Updates-Delivered :
    (P : UsageEvent → Type 0) (u : FinalizationUpdate) (now : ℕ) (s t : StoredRun)
    → Updates u now s t
    → Delivered P s.steps
    → Delivered P t.steps
Updates-Delivered P u now s t p all k y there =
    let key = usage_v2_finalize_step_key s.run.id in
    let other = not_report p.step p.tool in
    let at_key = get_step-key key s.steps {step = p.step} p.there in
    let none_there : report_at p.step.idempotency_key s.steps ≡ none =
      ap (λ k. report_at k s.steps) at_key ∙ ap only_report p.there ∙ (rw other refl) in
    all k y (
      sym (other_put (updated_step u now p.step) s.steps other none_there k)
      ∙ sym (ap (report_at k) p.steps)
      ∙ there)

closes : (b : BillStatus) → settles b ≡ true → is_bill_closed (some b) ≡ true
closes b h = ground arith

ok_flag : {a b : Bool} → ◌≡◌ {A = Result SettlementCode Bool} (ok a) (ok b) → a ≡ b
ok_flag h = cc

abbrev the_step : StepRecord → Result SettlementCode StepRecord
the_step x = ok x

abbrev the_error : SettlementCode → Result SettlementCode StepRecord
the_error c = err c

Updates-acknowledged :
    (b : BillStatus) (now : ℕ) (s t : StoredRun)
    → settles b ≡ true
    → Updates (settled_update b) now s t
    → is_usage_v2_run_finalization_acknowledged
        (get_step (usage_v2_finalize_step_key t.run.id) t.steps)
      ≡ true
unfolding is_usage_v2_run_finalization_acknowledged finalize_step_output
Updates-acknowledged b now s t closed p =
    let key = usage_v2_finalize_step_key s.run.id in
    let at_key = get_step-key key s.steps {step = p.step} p.there in
    let z : StepRecord = updated_step (settled_update b) now p.step in
    let there : get_step (usage_v2_finalize_step_key t.run.id) t.steps ≡ some z =
      ap (λ i. get_step (usage_v2_finalize_step_key i) t.steps) p.id
      ∙ ap (get_step key) p.steps
      ∙ get_step-put_step key z s.steps
      ∙ (rw ((is_text_iff p.step.idempotency_key key).1 at_key) refl) in
    ap is_usage_v2_run_finalization_acknowledged there
    ∙ (rw (p.tool, is_text_self (finalize_request_key p.step.run_id)) (closes b closed))

-- The run is settled with each of its events acknowledged.
record IsSettled (P : UsageEvent → Type 0) (r : Result SettlementCode Bool × StoredRun)
    : Type 0 where
  pub all : Delivered P r.1.steps
  pub closed :
      is_usage_v2_run_finalization_acknowledged
        (get_step (usage_v2_finalize_step_key r.1.run.id) r.1.steps)
      ≡ true

module _ (hashes : Hashes) (ingest : UsageEvent → Result UsageRequestError BillStatus)
    (finalize : String → String → Result UsageRequestError UsageRunBill) (now : ℕ)
    (P : UsageEvent → Type 0) where
  settle-IsSettled :
      (x : StepRecord) (o : UsageFinalizeOutput) (s : StoredRun)
      → Delivered P s.steps
      → (settle hashes ingest finalize now x o s).0 ≡ ok true
      → IsSettled P (settle hashes ingest finalize now x o s)
  settle-IsSettled x o s all h =
      let r = own_bill s.run.id (finalize s.run.id (finalize_request_key x.run_id)) in
      let u = update_of r o.bill now in
      elim (Result-cases (update_finalization u now s)) [
        | inl (c, throws) ↦ absurd (ground (arith, rw throws at h))
        | inr (t, updates) ↦
            let done : is_done u.status ≡ true = ok_flag (rw updates at h) in
            let b = done-Settles r o.bill now done in
            let p = update_finalization-Updates u now s t updates in
            rw updates (record {
              all = Updates-Delivered P u now s t p all;
              closed =
                  Updates-acknowledged b.bill now s t b.closed
                    (subst (λ v. Updates v now s t) b.same p);
            })
      ]

  flushed-IsSettled :
      (r : Result OutboxCode Bool × StoredRun) (x : StepRecord) (o : UsageFinalizeOutput)
      → IsFlushed P r
      → (settle_if_flushed hashes ingest finalize now r x o).0 ≡ ok true
      → IsSettled P (settle_if_flushed hashes ingest finalize now r x o)
  flushed-IsSettled (err c, s) x o f h = absurd (ground (arith, h))
  flushed-IsSettled (ok false, s) x o f h = absurd (ground (arith, h))
  flushed-IsSettled (ok true, s) x o f h =
      elim (Bool-cases (any is_pending_media_reconciliation_step s.steps)) [
        | inl media ↦ absurd (ground (arith, rw media at h))
        | inr settled ↦
            rw settled
              (settle-IsSettled x o s (flushed-Delivered P (ok true, s) f refl) (rw settled at h))
      ]

  reconciled-IsSettled :
      (r : Result SettlementCode UsageFinalizeOutput) (x : StepRecord) (s : StoredRun)
      → IsFlushed P (flush_events hashes ingest now s)
      → (reconcile_output hashes ingest finalize now r x s).0 ≡ ok true
      → IsSettled P (reconcile_output hashes ingest finalize now r x s)
  reconciled-IsSettled (err c) x s f h = absurd (ground (arith, h))
  reconciled-IsSettled (ok o) x s f h = elim (Bool-cases (is_later o.next_attempt_at now)) [
    | inl later ↦ absurd (ground (arith, rw later at h))
    | inr due ↦ rw due (flushed-IsSettled (flush_events hashes ingest now s) x o f (rw due at h))
  ]

  step-IsSettled :
      (r : Result SettlementCode StepRecord) (x : StepRecord) (s : StoredRun)
      → IsFlushed P (flush_events hashes ingest now s)
      → (r ≡ ok x) ⊎ ((c : SettlementCode) × (r ≡ err c))
      → is_done x.status ≡ false
      → (reconcile_step hashes ingest finalize now r s).0 ≡ ok true
      → IsSettled P (reconcile_step hashes ingest finalize now r s)
  step-IsSettled r x s f (inr (c, throws)) waits h = absurd (ground (arith, rw throws at h))
  step-IsSettled r x s f (inl found) waits h =
      let h1 = rw waits at (rw found at h) in
      elim (Bool-cases (is_failed_step x.status)) [
        | inl has_failed ↦ absurd (ground (arith, rw has_failed at h1))
        | inr runs ↦ rw found (
            rw waits (
              rw runs (
                reconciled-IsSettled (or_finalize_invalid (finalize_step_output x)) x s f
                  (rw runs at h1))))
      ]

found_or_not :
    (x : StepRecord) (b : Bool)
    → ((if b then ok x else err finalize_missing) ≡ the_step x)
      ⊎ ((c : SettlementCode) × ((if b then ok x else err finalize_missing) ≡ the_error c))
found_or_not x true = inl refl
found_or_not x false = inr (finalize_missing, refl)

-- After any history of an outbox that begins empty: when settling the run, whose finalization is
-- there and not completed, returns `true`, and no other transaction of the run comes during its
-- flush, each event of the run is recorded as acknowledged, to each the host has answered with a
-- bill, in the history or in the flush, and the finalization is acknowledged, with a bill that is
-- settled or has reached its cap.
pub settled_after_events :
    {hashes : Hashes} {hash : UsageEvent → String} {s t : StoredRun}
    → s.steps ≡ []
    → (history : History hashes hash s t)
      (ingest : UsageEvent → Result UsageRequestError BillStatus)
      (finalize : String → String → Result UsageRequestError UsageRunBill) (now : ℕ)
      (x : StepRecord)
    → get_step (usage_v2_finalize_step_key t.run.id) t.steps ≡ some x
    → is_done x.status ≡ false
    → (reconcile_terminal_run hashes ingest finalize now t).0 ≡ ok true
    → ((k : String) (y : StepRecord)
        → report_at k (reconcile_terminal_run hashes ingest finalize now t).1.steps ≡ some y
        → (is_done y.status ≡ true) × Holds (HeardSince history ingest) y)
      × (is_usage_v2_run_finalization_acknowledged (
            get_step
              (usage_v2_finalize_step_key
                (reconcile_terminal_run hashes ingest finalize now t).1.run.id)
              (reconcile_terminal_run hashes ingest finalize now t).1.steps)
          ≡ true)
unfolding reconcile_terminal_run
settled_after_events {hashes = hashes} {t = t} nothing history ingest finalize now x there waits h =
    let f = flush-IsFlushed nothing history ingest now in
    let found =
      found_finalization finalize_missing
        (get_step (usage_v2_finalize_step_key t.run.id) t.steps) in
    elim (Bool-cases
      (not (is_usage_v2 t.run.accounting_protocol) || not (is_terminal_status t.run.status))) [
        | inl other ↦ absurd (ground (arith, rw (other, reconcile_terminal_run) at h))
        | inr ended ↦
            let done =
              step-IsSettled hashes ingest finalize now (HeardSince history ingest) found x t f
                (rw there (found_or_not x (is_finalize x.tool))) waits
                (rw (ended, reconcile_terminal_run) at h) in
            rw (ended, reconcile_terminal_run) (done.all, done.closed)
      ]
