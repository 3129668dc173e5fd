-- ===== src/Usage/Outbox/Flushing.antt =====
-- The loop of `flushEvents` in src/core/usage-v2-coordinator.ts, one step after the other.
use shan_hai_edu_ppt.Base.{
  ℕ, ◌+◌, ◌≡◌, ◌∙◌, subst, sym, refl, ◌⊎◌, inl, inr, Bool, true, false, none, some, is_some, List,
  [], ◌∷◌, String, arith, Bool-cases, Result-cases, Result, ok, err,
}
use shan_hai_edu_ppt.Contracts.UsageAccounting.{
  UsageEvent, BillStatus, UsageRequestError, request_rejected, request_unknown, other_error,
}
use shan_hai_edu_ppt.Ports.{
  running, completed, event_pending, event_acknowledged, StepRecord, StoredRun,
}
use shan_hai_edu_ppt.Usage.Enqueue.{Hashes}
use shan_hai_edu_ppt.Usage.Outbox.{OutboxCode, UsageOutboxOutput, event_step_output, update_outbox}
use shan_hai_edu_ppt.Usage.Outbox.Delivery.{is_done, complete_usage_review}
use shan_hai_edu_ppt.Usage.Outbox.Flush.{
  is_later, refused, refuse, after_review, answered, deliver_read, deliver,
}
use shan_hai_edu_ppt.Usage.Outbox.Order.{report_at, InOrder}
use shan_hai_edu_ppt.Usage.Outbox.Queue.{
  IsFlushing, skip-IsFlushing, put-IsFlushing, SameReports-IsFlushing,
}
use shan_hai_edu_ppt.Usage.Outbox.Moves.{
  Puts, Puts-trans, Puts-InOrder, Puts-there, update_outbox-Puts, report_event, report_event-some,
}
use shan_hai_edu_ppt.Usage.Outbox.Answered.{Holds, IsKept, Puts-IsKept}
use shan_hai_edu_ppt.Usage.Outbox.Rejections.{reject_outbox-Puts}
use shan_hai_edu_ppt.Usage.Outbox.Reviews.{complete_usage_review-Puts}

-- No event waits.
abbrev pub AllDone : List StepRecord → Type 0
AllDone ss = (k : String) (y : StepRecord) → report_at k ss ≡ some y → is_done y.status ≡ true

-- What is so after a flush that had the keys apart.
pub record IsFlushed (P : UsageEvent → Type 0) (r : Result OutboxCode Bool × StoredRun)
    : Type 0 where
  pub kept : IsKept P r.1.steps
  pub in_order : InOrder r.1.steps
  pub all : r.0 ≡ ok true → AllDone r.1.steps

-- Every event is acknowledged, and is one of those of `P`.
abbrev pub Delivered : (UsageEvent → Type 0) → List StepRecord → Type 0
Delivered P ss =
    (k : String) (y : StepRecord) → report_at k ss ≡ some y → (is_done y.status ≡ true) × Holds P y

pub flushed-Delivered :
    (P : UsageEvent → Type 0) (r : Result OutboxCode Bool × StoredRun)
    → IsFlushed P r
    → r.0 ≡ ok true
    → Delivered P r.1.steps
flushed-Delivered P r f flushed k y there =
    let done = f.all flushed k y there in (done, f.kept.answered k y there done)

pub acknowledged-IsFlushing :
    (x : StepRecord) (b : Bool) (xs ss tt : List StepRecord)
    → Puts x b ss tt
    → b ≡ true
    → IsFlushing (x ∷ xs) ss
    → IsFlushing xs tt
acknowledged-IsFlushing x b xs ss tt p done f =
    SameReports-IsFlushing xs _ tt p.same
      (put-IsFlushing x p.new xs ss f p.key p.number (p.over ∙ done))

pub unchanged-IsFlushed :
    (P : UsageEvent → Type 0) (c : Result OutboxCode Bool) (s : StoredRun)
    → ¬ (c ≡ ok true)
    → IsKept P s.steps
    → InOrder s.steps
    → IsFlushed P (c, s)
unchanged-IsFlushed P c s stops m o = record { kept = m; in_order = o; all = λ h. absurd (stops h) }

module _ (hashes : Hashes) (host : UsageEvent → Result UsageRequestError BillStatus) (now : ℕ)
    (P : UsageEvent → Type 0)
    (heard : (e : UsageEvent) (bill : BillStatus) → host e ≡ ok bill → P e) where
  refused-Puts :
      (e : UsageRequestError) (x y : StepRecord) (s t : StoredRun)
      → report_at x.idempotency_key s.steps ≡ some y
      → refused hashes host now e x s ≡ ok t
      → Puts y false s.steps t.steps
  refused-Puts (request_rejected code) x y s t there h =
      reject_outbox-Puts hashes x.idempotency_key y code now s t there h
  refused-Puts (request_unknown code) x y s t there h =
      update_outbox-Puts x.idempotency_key y running event_pending (some code) (some (now + 1000))
        none now s t there h
  refused-Puts other_error x y s t there h =
      update_outbox-Puts x.idempotency_key y running event_pending
        (some "HOST_USAGE_V2_EVENT_UNKNOWN") (some (now + 1000)) none now s t there h

  -- A refusal is not `true`, and leaves the steps or puts a report that waits.
  refuse-Puts :
      (e : UsageRequestError) (x y : StepRecord) (s : StoredRun)
      → report_at x.idempotency_key s.steps ≡ some y
      → (¬ ((refuse hashes host now e x s).0 ≡ ok true))
        × (((refuse hashes host now e x s).1.steps ≡ s.steps)
            ⊎ Puts y false s.steps (refuse hashes host now e x s).1.steps)
  refuse-Puts e x y s there = elim (Result-cases (refused hashes host now e x s)) [
    | inl (c, throws) ↦ rw throws (λ h. ground (arith, h), inl refl)
    | inr (t, puts) ↦ rw puts (λ h. ground (arith, h), inr (refused-Puts e x y s t there puts))
  ]

  refused-IsFlushed :
      (e : UsageRequestError) (x : StepRecord) (xs : List StepRecord) (s : StoredRun)
      → IsKept P s.steps
      → IsFlushing (x ∷ xs) s.steps
      → is_done x.status ≡ false
      → IsFlushed P (refuse hashes host now e x s)
  refused-IsFlushed e x xs s m f waits =
      let after = refuse hashes host now e x s in
      let (stops, moves) = refuse-Puts e x x s f.unchanged.0 in
      elim moves [
        | inl same ↦
            unchanged-IsFlushed P after.0 after.1 stops (subst (IsKept P) (sym same) m)
              (subst InOrder (sym same) f.in_order)
        | inr p ↦
            unchanged-IsFlushed P after.0 after.1 stops
              (Puts-IsKept P x false s.steps after.1.steps p (λ h. absurd (ground (arith, h))) m)
              (Puts-InOrder x false s.steps after.1.steps p f.unchanged.0 waits f.in_order)
      ]

  -- The review throws after the acknowledgement was written: the event is delivered once more.
  again-IsFlushed :
      (x : StepRecord) (xs : List StepRecord) (s t : StoredRun)
      → IsKept P s.steps
      → IsFlushing (x ∷ xs) s.steps
      → is_done x.status ≡ false
      → Puts x true s.steps t.steps
      → Holds P x
      → IsFlushed P (refuse hashes host now other_error x t)
  again-IsFlushed x xs s t m f waits p said =
      let after = refuse hashes host now other_error x t in
      let there = Puts-there x true s.steps t.steps x.idempotency_key p refl in
      let (stops, moves) = refuse-Puts other_error x p.new t there in
      let done = acknowledged-IsFlushing x true xs s.steps t.steps p refl f in
      elim moves [
        | inl same ↦
            unchanged-IsFlushed P after.0 after.1 stops
              (subst (IsKept P) (sym same) (Puts-IsKept P x true s.steps t.steps p (λ h. said) m))
              (subst InOrder (sym same) done.in_order)
        | inr q ↦
            let r =
              Puts-trans x p.new true false s.steps t.steps after.1.steps p p.key p.number p.event
                q in
            unchanged-IsFlushed P after.0 after.1 stops
              (Puts-IsKept P x false s.steps after.1.steps r (λ h. absurd (ground (arith, h))) m)
              (Puts-InOrder x false s.steps after.1.steps r f.unchanged.0 waits f.in_order)
      ]

  -- `rest` is the loop over the steps that come after.
  module _ (xs : List StepRecord) (rest : StoredRun → Result OutboxCode Bool × StoredRun)
      (flushed : (t : StoredRun)
        → IsKept P t.steps
        → IsFlushing xs t.steps
        → IsFlushed P (rest t)) where
    reviewed-IsFlushed :
        (x : StepRecord) (s t : StoredRun)
        → IsKept P s.steps
        → IsFlushing (x ∷ xs) s.steps
        → is_done x.status ≡ false
        → Puts x true s.steps t.steps
        → Holds P x
        → IsFlushed P
            (after_review hashes host now (complete_usage_review x.idempotency_key now t) x rest t)
    reviewed-IsFlushed x s t m f waits p said =
        let there = Puts-there x true s.steps t.steps x.idempotency_key p refl in
        elim (Result-cases (complete_usage_review x.idempotency_key now t)) [
          | inl (c, throws) ↦ rw throws (again-IsFlushed x xs s t m f waits p said)
          | inr ((b, u), reviews) ↦
              rw reviews
                (elim (complete_usage_review-Puts x.idempotency_key p.new now t {b = b} {t = u}
                  there reviews) [
                    | inl same ↦
                        flushed u
                          (subst (IsKept P) (sym same)
                            (Puts-IsKept P x true s.steps t.steps p (λ h. said) m))
                          (subst (IsFlushing xs) (sym same)
                            (acknowledged-IsFlushing x true xs s.steps t.steps p refl f))
                    | inr q ↦
                        let r =
                          Puts-trans x p.new true (is_done p.new.status) s.steps t.steps u.steps p
                            p.key p.number p.event q in
                        flushed u
                          (Puts-IsKept P x (is_done p.new.status) s.steps u.steps r (λ h. said) m)
                          (acknowledged-IsFlushing x (is_done p.new.status) xs s.steps u.steps r
                            p.over f)
                  ])
        ]

    answered-IsFlushed :
        (r : Result UsageRequestError BillStatus) (o : UsageOutboxOutput) (x : StepRecord)
        (s : StoredRun)
        → IsKept P s.steps
        → IsFlushing (x ∷ xs) s.steps
        → is_done x.status ≡ false
        → report_event x ≡ some o.event
        → host o.event ≡ r
        → IsFlushed P (answered hashes host now r o x rest s)
    answered-IsFlushed (err e) o x s m f waits event answer = refused-IsFlushed e x xs s m f waits
    answered-IsFlushed (ok bill) o x s m f waits event answer =
        let said : Holds P x = (o.event, event, heard o.event bill answer) in
        elim (Result-cases (
          update_outbox x.idempotency_key completed event_acknowledged none none (some bill) now
            s)) [
              | inl (c, throws) ↦ rw throws (refused-IsFlushed other_error x xs s m f waits)
              | inr (t, puts) ↦
                  let p : Puts x true s.steps t.steps =
                    update_outbox-Puts x.idempotency_key x completed event_acknowledged none none
                      (some bill) now s t f.unchanged.0 puts in
                  rw puts (elim (Bool-cases (is_some o.blocked_run_status)) [
                    | inl blocked ↦ rw blocked (reviewed-IsFlushed x s t m f waits p said)
                    | inr free ↦ rw free (
                        flushed t (Puts-IsKept P x true s.steps t.steps p (λ h. said) m)
                          (acknowledged-IsFlushing x true xs s.steps t.steps p refl f))
                  ])
            ]

    read-IsFlushed :
        (r : Result OutboxCode UsageOutboxOutput) (x : StepRecord) (s : StoredRun)
        → IsKept P s.steps
        → IsFlushing (x ∷ xs) s.steps
        → is_done x.status ≡ false
        → event_step_output x ≡ r
        → IsFlushed P (deliver_read hashes host now r x rest s)
    read-IsFlushed (err c) x s m f waits reads =
        unchanged-IsFlushed P (err c) s (λ h. ground (arith, h)) m f.in_order
    read-IsFlushed (ok o) x s m f waits reads = elim (Bool-cases (is_later o.next_attempt_at now)) [
      | inl later ↦
          rw later (unchanged-IsFlushed P (ok false) s (λ h. ground (arith, h)) m f.in_order)
      | inr due ↦
          rw due
            (answered-IsFlushed (host o.event) o x s m f waits (report_event-some x reads) refl)
    ]

  pub deliver-IsFlushed :
      (xs : List StepRecord) (s : StoredRun)
      → IsKept P s.steps
      → IsFlushing xs s.steps
      → IsFlushed P (deliver hashes host now xs s)
  unfolding deliver
  deliver-IsFlushed [] s m f = record {
    kept = m;
    in_order = f.in_order;
    all = λ h k y there. elim (f.others k y there) [ inl w ↦ elim w [ ] | inr done ↦ done ];
  }
  deliver-IsFlushed (x ∷ xs) s m f = elim (Bool-cases (is_done x.status)) [
    | inl done ↦ rw done (deliver-IsFlushed xs s m (skip-IsFlushing x xs s.steps f done))
    | inr waits ↦ rw waits (
        read-IsFlushed xs (deliver hashes host now xs) (deliver-IsFlushed xs) (event_step_output x)
          x s m f waits refl)
  ]
