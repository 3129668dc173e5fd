-- ===== src/Usage/Outbox/History.antt =====
-- The life of an outbox in src/core/usage-v2-coordinator.ts: events are enqueued, flushed and delivered
-- again in any order.
use shan_hai_edu_ppt.Base.{
  ℕ, ◌≡◌, ◌<◌, ◌⊎◌, subst, sym, inl, inr, true, some, [], String, arith, Result, ok,
}
use shan_hai_edu_ppt.Contracts.UsageAccounting.{UsageEvent, BillStatus, UsageRequestError}
use shan_hai_edu_ppt.Ports.{StepRecord, StoredRun}
use shan_hai_edu_ppt.Ports.Repository.{get_step}
use shan_hai_edu_ppt.Usage.Enqueue.{Hashes}
use shan_hai_edu_ppt.Usage.Outbox.{enqueue_event}
use shan_hai_edu_ppt.Usage.Outbox.Delivery.{is_done}
use shan_hai_edu_ppt.Usage.Outbox.Flush.{event_sequence, flush_events, retry_rejected_event}
use shan_hai_edu_ppt.Usage.Outbox.Order.{report_at, SameReports-InOrder}
use shan_hai_edu_ppt.Usage.Outbox.Failing.{Keeps}
use shan_hai_edu_ppt.Usage.Outbox.Answered.{Holds, SameReports-IsAnswered}
use shan_hai_edu_ppt.Usage.Outbox.Flushing.{IsFlushed, flushed-Delivered}
use shan_hai_edu_ppt.Usage.Outbox.Kept.{
  IsOutbox, flush_events-IsFlushed, retry-IsOutbox, enqueue-IsOutbox, IsOutbox-mono,
}

-- A transaction of the outbox, with the clock and the answers of the host that it sees, or one that
-- keeps the reports.
pub data OutboxStep (hashes : Hashes) (hash : UsageEvent → String) (s : StoredRun)
    : StoredRun → Type 0 where
  enqueues :
      (candidate : UsageEvent) (now : ℕ) {t : StoredRun}
      → enqueue_event hash candidate now s ≡ ok t
      → OutboxStep hashes hash s t
  flushes :
      (host : UsageEvent → Result UsageRequestError BillStatus) (now : ℕ)
      → OutboxStep hashes hash s (flush_events hashes host now s).1
  retries :
      (host : UsageEvent → Result UsageRequestError BillStatus) (now : ℕ) (key : String)
      → OutboxStep hashes hash s (retry_rejected_event hashes host now key s).1
  elsewhere : {t : StoredRun} → Keeps s.steps t.steps → OutboxStep hashes hash s t

pub data History (hashes : Hashes) (hash : UsageEvent → String) (s : StoredRun)
    : StoredRun → Type 0 where
  here : History hashes hash s s
  next :
      {t u : StoredRun}
      → History hashes hash s t
      → OutboxStep hashes hash t u
      → History hashes hash s u

-- The host has answered to the event `e` with a bill.
abbrev pub HeardIn :
    {hashes : Hashes} {hash : UsageEvent → String} {s t : StoredRun}
    → OutboxStep hashes hash s t
    → UsageEvent
    → Type 0
HeardIn (enqueues c now puts) e = ⊥
HeardIn (flushes host now) e = (bill : BillStatus) × (host e ≡ ok bill)
HeardIn (retries host now key) e = (bill : BillStatus) × (host e ≡ ok bill)
HeardIn (elsewhere kept) e = ⊥

abbrev pub Heard :
    {hashes : Hashes} {hash : UsageEvent → String} {s t : StoredRun}
    → History hashes hash s t
    → UsageEvent
    → Type 0
Heard here e = ⊥
Heard (next before step) e = Heard before e ⊎ HeardIn step e

no_report : (k : String) {x : StepRecord} → ¬ (report_at k [] ≡ some x)
unfolding get_step
no_report k h = ground (arith, h)

step-IsOutbox :
    {hashes : Hashes} {hash : UsageEvent → String} {s t : StoredRun} (P : UsageEvent → Type 0)
    (step : OutboxStep hashes hash s t)
    → ((e : UsageEvent) → HeardIn step e → P e)
    → IsOutbox P s.steps
    → IsOutbox P t.steps
step-IsOutbox {hash = hash} {s = s} {t = t} P (enqueues candidate now puts) heard i =
    enqueue-IsOutbox P hash candidate now s t puts i
step-IsOutbox {hashes = hashes} {s = s} P (flushes host now) heard i =
    let f = flush_events-IsFlushed hashes host now P (λ e bill h. heard e (bill, h)) s i in
    record { kept = f.kept; in_order = f.in_order }
step-IsOutbox {hashes = hashes} {s = s} P (retries host now key) heard i =
    retry-IsOutbox hashes host now P (λ e bill h. heard e (bill, h)) key s i
step-IsOutbox {s = s} {t = t} P (elsewhere kept) heard i = record {
  kept = record {
    map = kept.map i.kept.map;
    answered = SameReports-IsAnswered P s.steps t.steps kept.same i.kept.answered;
  };
  in_order = SameReports-InOrder s.steps t.steps kept.same i.in_order;
}

pub History-IsOutbox :
    {hashes : Hashes} {hash : UsageEvent → String} {s t : StoredRun}
    → s.steps ≡ []
    → (history : History hashes hash s t) → IsOutbox (Heard history) t.steps
History-IsOutbox {s = s} nothing here = subst (IsOutbox (λ e. ⊥)) (sym nothing) (record {
  kept = record { map = tt; answered = λ k y there. absurd (no_report k there) };
  in_order = λ k l x y hx hy lt done. absurd (no_report k hx);
})
History-IsOutbox nothing (next {t = t} before step) =
    let both = λ (e : UsageEvent). Heard before e ⊎ HeardIn step e in
    step-IsOutbox both step (λ e h. inr h)
      (IsOutbox-mono (Heard before) both t.steps (λ e h. inl h) (History-IsOutbox nothing before))

-- In every outbox that begins empty, whatever is enqueued, flushed, rejected and delivered again,
-- one after the other, between transactions that keep the reports, and whatever the host answers
-- and the clock says: when an event is recorded as acknowledged, so is every event of the run with
-- a smaller number, and to each of them the host has answered with a bill.
pub acknowledged_in_order :
    {hashes : Hashes} {hash : UsageEvent → String} {s t : StoredRun}
    → s.steps ≡ []
    → (history : History hashes hash s t) (k l : String) (x y : StepRecord)
    → report_at k t.steps ≡ some x
    → report_at l t.steps ≡ some y
    → event_sequence x < event_sequence y
    → is_done y.status ≡ true
    → (is_done x.status ≡ true) × Holds (Heard history) x × Holds (Heard history) y
acknowledged_in_order nothing history k l x y at_k at_l lt done =
    let i = History-IsOutbox nothing history in
    let x_done = i.in_order k l x y at_k at_l lt done in
    (x_done, i.kept.answered k x at_k x_done, i.kept.answered l y at_l done)

-- The host has answered to the event, in the history or in the flush that follows it.
abbrev pub HeardSince :
    {hashes : Hashes} {hash : UsageEvent → String} {s t : StoredRun}
    → History hashes hash s t
    → (UsageEvent → Result UsageRequestError BillStatus)
    → UsageEvent
    → Type 0
HeardSince history host e = Heard history e ⊎ ((bill : BillStatus) × (host e ≡ ok bill))

pub flush-IsFlushed :
    {hashes : Hashes} {hash : UsageEvent → String} {s t : StoredRun}
    → s.steps ≡ []
    → (history : History hashes hash s t) (host : UsageEvent → Result UsageRequestError BillStatus)
      (now : ℕ)
    → IsFlushed (HeardSince history host) (flush_events hashes host now t)
flush-IsFlushed {hashes = hashes} {t = t} nothing history host now =
    flush_events-IsFlushed hashes host now (HeardSince history host) (λ e bill h. inr (bill, h)) t
      (IsOutbox-mono (Heard history) (HeardSince history host) t.steps (λ e h. inl h)
        (History-IsOutbox nothing history))

-- After any such history of an outbox that begins empty: when a flush returns `true`, during which
-- no other transaction of the run comes, each event of the run is recorded as acknowledged, and to
-- each the host has answered with a bill, in the history or in the flush.
pub flushed_all :
    {hashes : Hashes} {hash : UsageEvent → String} {s t : StoredRun}
    → s.steps ≡ []
    → (history : History hashes hash s t) (host : UsageEvent → Result UsageRequestError BillStatus)
      (now : ℕ)
    → (flush_events hashes host now t).0 ≡ ok true
    → (k : String) (y : StepRecord) → report_at k (flush_events hashes host now t).1.steps ≡ some y
    → (is_done y.status ≡ true) × Holds (HeardSince history host) y
flushed_all {hashes = hashes} {t = t} nothing history host now flushed =
    flushed-Delivered (HeardSince history host) (flush_events hashes host now t)
      (flush-IsFlushed nothing history host now) flushed
