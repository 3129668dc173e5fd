-- ===== src/Usage/Outbox/Kept.antt =====
-- What the transactions of the outbox in src/core/usage-v2-coordinator.ts keep of it.
use shan_hai_edu_ppt.Base.{
  ℕ, ◌≡◌, ◌∙◌, subst, sym, refl, inl, inr, Bool, false, some, List, String, any, arith, Bool-cases,
  Result-cases, Result, ok, err, not, ◌||◌,
}
use shan_hai_edu_ppt.Contracts.UsageAccounting.{UsageEvent, BillStatus, UsageRequestError}
use shan_hai_edu_ppt.Ports.{StepRecord, StoredRun}
use shan_hai_edu_ppt.Ports.Repository.{transact}
use shan_hai_edu_ppt.Usage.Enqueue.{Hashes}
use shan_hai_edu_ppt.Usage.Outbox.{OutboxCode, enqueue_event}
use shan_hai_edu_ppt.Usage.Outbox.Delivery.{is_failed_step, is_done, complete_usage_review}
use shan_hai_edu_ppt.Usage.Outbox.Flush.{
  sort_by_sequence, is_readable, is_single, sorted_reports, flush_events, retry_outbox,
  review_after, retry_rejected_event,
}
use shan_hai_edu_ppt.Usage.Outbox.Order.{
  report_at, found_itself, put_step-IsMap, InOrder, fresh-InOrder,
}
use shan_hai_edu_ppt.Usage.Outbox.Sorting.{the_reports, reports-IsFlushing}
use shan_hai_edu_ppt.Usage.Outbox.Queue.{IsFlushing}
use shan_hai_edu_ppt.Usage.Outbox.Moves.{Puts, Puts-InOrder}
use shan_hai_edu_ppt.Usage.Outbox.Answered.{IsKept, Puts-IsKept, fresh-IsAnswered}
use shan_hai_edu_ppt.Usage.Outbox.Reviews.{
  complete_usage_review-Puts, review-there, retry_outbox-Puts,
}
use shan_hai_edu_ppt.Usage.Outbox.Flushing.{IsFlushed, unchanged-IsFlushed, deliver-IsFlushed}
use shan_hai_edu_ppt.Usage.Outbox.Enqueued.{enqueue_event-IsNew}

pub record IsOutbox (P : UsageEvent → Type 0) (ss : List StepRecord) : Type 0 where
  pub kept : IsKept P ss
  pub in_order : InOrder ss

sorted-ok :
    (steps xs : List StepRecord)
    → sorted_reports steps ≡ ok xs
    → sort_by_sequence (the_reports steps) ≡ xs
unfolding sorted_reports
sorted-ok steps xs h =
    elim (Bool-cases (
      is_single (the_reports steps)
      || not (any (λ (s : StepRecord). not (is_readable s)) (the_reports steps)))) [
        | inl readable ↦ ground (arith, rw readable at h)
        | inr invalid ↦ absurd (ground (arith, rw invalid at h))
      ]

moved-IsOutbox :
    (P : UsageEvent → Type 0) (k : String) (x : StepRecord) (b : Bool) (ss tt : List StepRecord)
    → Puts x b ss tt
    → report_at k ss ≡ some x
    → is_done x.status ≡ b
    → IsOutbox P ss
    → IsOutbox P tt
moved-IsOutbox P k x b ss tt p there done i = record {
  kept = Puts-IsKept P x b ss tt p (λ h. i.kept.answered k x there (done ∙ h)) i.kept;
  in_order = Puts-InOrder x b ss tt p (found_itself k ss {x = x} there) done i.in_order;
}

module _ (hashes : Hashes) (host : UsageEvent → Result UsageRequestError BillStatus) (now : ℕ)
    (P : UsageEvent → Type 0)
    (heard : (e : UsageEvent) (bill : BillStatus) → host e ≡ ok bill → P e) where
  pub flush_events-IsFlushed :
      (s : StoredRun) → IsOutbox P s.steps → IsFlushed P (flush_events hashes host now s)
  unfolding flush_events
  flush_events-IsFlushed s i = elim (Result-cases (sorted_reports s.steps)) [
    | inl (c, throws) ↦
        rw (throws, flush_events)
          (unchanged-IsFlushed P (err c) s (λ h. ground (arith, h)) i.kept i.in_order)
    | inr (xs, sorted) ↦
        rw (sorted, flush_events)
          (elim (Bool-cases (any (λ (x : StepRecord). is_failed_step x.status) xs)) [
            | inl blocked ↦
                rw blocked
                  (unchanged-IsFlushed P (ok false) s (λ h. ground (arith, h)) i.kept i.in_order)
            | inr free ↦ rw free (
                deliver-IsFlushed hashes host now P heard xs s i.kept (
                  subst (λ ys. IsFlushing ys s.steps) (sorted-ok s.steps xs sorted)
                    (reports-IsFlushing s.steps i.kept.map i.in_order)))
          ])
  ]

  review-IsOutbox :
      (r : Result OutboxCode Bool × StoredRun) (key : String)
      → IsOutbox P r.1.steps
      → IsOutbox P (review_after hashes host now r key).1.steps
  unfolding transact
  review-IsOutbox (err c, s) key i = i
  review-IsOutbox (ok flushed, s) key i = elim (Result-cases (complete_usage_review key now s)) [
    | inl (c, throws) ↦ rw (throws, transact) i
    | inr ((b, u), reviews) ↦
        let (x, there) = review-there key now s {r = (b, u)} reviews in
        let after : IsOutbox P u.steps =
          elim (complete_usage_review-Puts key x now s {b = b} {t = u} there reviews) [
            | inl same ↦ subst (IsOutbox P) (sym same) i
            | inr p ↦ moved-IsOutbox P key x (is_done x.status) s.steps u.steps p there refl i
          ] in
        rw (reviews, transact) after
  ]

  pub retry-IsOutbox :
      (key : String) (s : StoredRun)
      → IsOutbox P s.steps
      → IsOutbox P (retry_rejected_event hashes host now key s).1.steps
  unfolding retry_rejected_event
  retry-IsOutbox key s i = elim (Result-cases (retry_outbox hashes host now key s)) [
    | inl (c, throws) ↦ rw (throws, retry_rejected_event) i
    | inr (t, puts) ↦
        let (x, there, waits, p) = retry_outbox-Puts hashes host now key s t puts in
        let j = moved-IsOutbox P key x false s.steps t.steps p there waits i in
        let f = flush_events-IsFlushed t j in
        rw (puts, retry_rejected_event)
          (review-IsOutbox (flush_events hashes host now t) key
            (record { kept = f.kept; in_order = f.in_order }))
  ]

pub enqueue-IsOutbox :
    (P : UsageEvent → Type 0) (hash : UsageEvent → String) (c : UsageEvent) (now : ℕ)
    (s t : StoredRun)
    → enqueue_event hash c now s ≡ ok t
    → IsOutbox P s.steps
    → IsOutbox P t.steps
enqueue-IsOutbox P hash c now s t h i = elim (enqueue_event-IsNew hash c now s t h) [
  | inl same ↦ subst (λ (r : StoredRun). IsOutbox P r.steps) (sym same) i
  | inr n ↦
      subst (λ (r : StoredRun). IsOutbox P r.steps) (sym n.put)
        (record {
          kept = record {
            map = put_step-IsMap n.new s.steps i.kept.map;
            answered = fresh-IsAnswered P s.steps n.new n.waits i.kept.answered;
          };
          in_order =
              fresh-InOrder s.steps n.new i.in_order n.waits
                (λ k y there. omega (arith, n.last k y there));
        })
]

pub IsOutbox-mono :
    (P Q : UsageEvent → Type 0) (ss : List StepRecord)
    → ((e : UsageEvent) → P e → Q e)
    → IsOutbox P ss
    → IsOutbox Q ss
IsOutbox-mono P Q ss into i = record {
  kept = record {
    map = i.kept.map;
    answered = λ k y there done.
        let (e, event, holds) = i.kept.answered k y there done in (e, event, into e holds);
  };
  in_order = i.in_order;
}
