-- ===== src/EventBroker/Reach.antt =====
-- What a client of src/http/run-event-broker.ts sees, whatever the order of the operations.
use shan_hai_edu_ppt.Base.{
  ℕ, ◌≤◌, ◌<◌, ◌≡◌, Bool, none, some, Option, List, [], ◌∷◌, ◌++◌, length, length-append, All,
  arith, ◌+◌, sym, ok, err,
}
use shan_hai_edu_ppt.Ports.{AgentEvent, StoredRun}
use shan_hai_edu_ppt.Ports.Repository.Log.{IsLog}
use shan_hai_edu_ppt.EventBroker.{
  Subscriber, Answer, RunChannel, Broker, channel_for, subscribe, read,
}
use shan_hai_edu_ppt.EventBroker.Poll.{arrive, fire, remove}
use shan_hai_edu_ppt.EventBroker.Slices.{slice, slice_empty, Follows-more, read_events-Continues}
use shan_hai_edu_ppt.EventBroker.Delivery.{All-append, IsServed, IsServed-more, catch_up-IsServed}
use shan_hai_edu_ppt.EventBroker.Streams.{
  All-first, InFlight, OptionServed, BrokerServed, arrive-BrokerServed, fire_on-OptionServed,
  remove_on-OptionServed, channel_for-ChannelServed, join-BrokerServed,
}

pub record World : Type 0 where
  pub run : StoredRun
  pub broker : Broker

abbrev pub new_world : StoredRun → World
new_world run = record { run = run; broker = record { channel = none; closed = [] } }

-- Every subscriber that was ever let in: those of the channel and those that were closed.
abbrev pub open_subscribers : Option RunChannel → List Subscriber
open_subscribers none = []
open_subscribers (some c) = c.subscribers

-- What may happen next: the run changes and its log grows, a client comes with a cursor that the log
-- has reached, the timer fires, the answer of a read arrives, or a client leaves.
pub data Step (size : AgentEvent → ℕ) (limit max_bytes poll_ms : ℕ) (w : World)
    : World → Type 0 where
  grows :
      (run : StoredRun) (new : List AgentEvent)
      → run.events ≡ w.run.events ++ new
      → IsLog 0 run.events
      → Step size limit max_bytes poll_ms w (record w { run = run })
  subscribes :
      (id after : ℕ) (on_event : List AgentEvent → AgentEvent → Bool)
      → after ≤ length w.run.events
      → Step size limit max_bytes poll_ms w (record w {
        broker = subscribe (read size limit max_bytes w.run) w.run id after on_event w.broker;
      })
  fires :
      (fails : Bool)
      → Step size limit max_bytes poll_ms w
          (record w { broker = fire (read size limit max_bytes w.run) fails w.broker })
  arrives : Step size limit max_bytes poll_ms w (record w { broker = arrive poll_ms w.broker })
  removes :
      (id : ℕ) → Step size limit max_bytes poll_ms w (record w { broker = remove id w.broker })

pub data Reach (size : AgentEvent → ℕ) (limit max_bytes poll_ms : ℕ) (w : World)
    : World → Type 0 where
  here : Reach size limit max_bytes poll_ms w w
  next :
      {v u : World}
      → Reach size limit max_bytes poll_ms w v
      → Step size limit max_bytes poll_ms v u
      → Reach size limit max_bytes poll_ms w u

-- A log that has grown.
All-more :
    (log new : List AgentEvent) (ss : List Subscriber)
    → All (IsServed log) ss
    → All (IsServed (log ++ new)) ss
All-more log new [] w = tt
All-more log new (s ∷ ss) (h, w) =
    (IsServed-more log new s (omega (arith, length-append log new)) h, All-more log new ss w)

All-more_open :
    (log new : List AgentEvent) (c : ℕ) (ss : List Subscriber)
    → All (λ s. IsServed log s × (c ≤ s.cursor)) ss
    → All (λ s. IsServed (log ++ new) s × (c ≤ s.cursor)) ss
All-more_open log new c [] w = tt
All-more_open log new c (s ∷ ss) (h, w) = (
  (IsServed-more log new s (omega (arith, length-append log new)) h.0, h.1),
  All-more_open log new c ss w,
)

InFlight-more :
    (log new : List AgentEvent) (c : ℕ) (o : Option Answer)
    → InFlight log c o
    → InFlight (log ++ new) c o
InFlight-more log new c none f = tt
InFlight-more log new c (some (err e)) f = tt
InFlight-more log new c (some (ok page)) f = Follows-more log new c page.events f

OptionServed-more :
    (log new : List AgentEvent) (o : Option RunChannel)
    → OptionServed log o
    → OptionServed (log ++ new) o
OptionServed-more log new none v = tt
OptionServed-more log new (some c) v = record {
  within = omega (arith, v.within, length-append log new);
  open_served = All-more_open log new c.cursor c.subscribers v.open_served;
  in_flight = InFlight-more log new c.cursor c.polling v.in_flight;
}

BrokerServed-more :
    (log new : List AgentEvent) (b : Broker) → BrokerServed log b → BrokerServed (log ++ new) b
BrokerServed-more log new b w = record {
  channel_served = OptionServed-more log new b.channel w.channel_served;
  closed_served = All-more log new b.closed w.closed_served;
}

module _ (size : AgentEvent → ℕ) (limit max_bytes poll_ms : ℕ) where
  subscribe-BrokerServed :
      (run : StoredRun) (id after : ℕ) (on_event : List AgentEvent → AgentEvent → Bool) (b : Broker)
      → 0 < limit
      → IsLog 0 run.events
      → after ≤ length run.events
      → BrokerServed run.events b
      → BrokerServed run.events (subscribe (read size limit max_bytes run) run id after on_event b)
  unfolding subscribe
  subscribe-BrokerServed run id after on_event b l log le w =
      let c = channel_for after b.channel in
      let v = channel_for-ChannelServed run.events after b.channel le w.channel_served in
      let new : Subscriber = record {
        id = id;
        after = after;
        cursor = after;
        handed = [];
        on_event = on_event;
      } in
      let (served, reached) =
        catch_up-IsServed run.events (read size limit max_bytes run) (length run.events + 1)
          c.cursor c.terminal_sequence new log
          (λ k h. read_events-Continues size run k limit max_bytes log l h) v.within (omega arith)
          (record {
            forward = omega arith;
            within = le;
            exact = sym (slice_empty after run.events);
          }) in
      join-BrokerServed run.events b c _ w.closed_served v served reached

  abbrev pub IsServedWorld : World → Type 0
  IsServedWorld w = IsLog 0 w.run.events × BrokerServed w.run.events w.broker

  Step-IsServedWorld :
      {w v : World}
      → 0 < limit
      → Step size limit max_bytes poll_ms w v
      → IsServedWorld w
      → IsServedWorld v
  unfolding fire remove
  Step-IsServedWorld {w} l (grows run new e log') (log, s) =
      (log', rw e (BrokerServed-more w.run.events new w.broker s))
  Step-IsServedWorld {w} l (subscribes id after on_event le) (log, s) =
      (log, subscribe-BrokerServed w.run id after on_event w.broker l log le s)
  Step-IsServedWorld {w} l (fires fails) (log, s) = (
    log,
    record {
      channel_served =
          fire_on-OptionServed w.run.events (read size limit max_bytes w.run) fails w.broker.channel
            (λ k h. read_events-Continues size w.run k limit max_bytes log l h) s.channel_served;
      closed_served = s.closed_served;
    },
  )
  Step-IsServedWorld {w} l arrives (log, s) =
      (log, arrive-BrokerServed w.run.events poll_ms w.broker log s)
  Step-IsServedWorld {w} l (removes id) (log, s) = (
    log,
    record {
      channel_served = remove_on-OptionServed w.run.events id w.broker.channel s.channel_served;
      closed_served = s.closed_served;
    },
  )

  pub Reach-IsServedWorld :
      {w v : World}
      → 0 < limit
      → Reach size limit max_bytes poll_ms w v
      → IsServedWorld w
      → IsServedWorld v
  Reach-IsServedWorld l here s = s
  Reach-IsServedWorld l (next r st) s = Step-IsServedWorld l st (Reach-IsServedWorld l r s)

All-exact :
    (log : List AgentEvent) (ss : List Subscriber)
    → All (IsServed log) ss
    → All (λ s. s.handed ≡ slice s.after s.cursor log) ss
All-exact log [] w = tt
All-exact log (s ∷ ss) (h, w) = (h.exact, All-exact log ss w)

open_subscribers-All :
    (log : List AgentEvent) (o : Option RunChannel)
    → OptionServed log o
    → All (IsServed log) (open_subscribers o)
open_subscribers-All log none v = tt
open_subscribers-All log (some c) v = All-first log c.cursor c.subscribers v.open_served

-- If pages hold at least one event, no client comes with a cursor past the end of the log, and
-- nothing else happens to the broker while a client catches up, not even while it awaits its reads:
-- in whatever order clients come and leave, timers fire, the reads of polls answer or are rejected
-- and the log grows, every client, served or closed, has been handed exactly the events between the
-- cursor that it came with and its cursor, each once, in order and without a gap.
pub streams_exact :
    (size : AgentEvent → ℕ) (limit max_bytes poll_ms : ℕ) (run : StoredRun) {w : World}
    → IsLog 0 run.events
    → 0 < limit
    → Reach size limit max_bytes poll_ms (new_world run) w
    → All
        (λ s. s.handed ≡ slice s.after s.cursor w.run.events)
        (open_subscribers w.broker.channel ++ w.broker.closed)
streams_exact size limit max_bytes poll_ms run {w} log l r =
    let (log', s) =
      Reach-IsServedWorld size limit max_bytes poll_ms l r
        (log, record { channel_served = tt; closed_served = tt }) in
    All-exact w.run.events (open_subscribers w.broker.channel ++ w.broker.closed) (
      All-append (IsServed w.run.events) _ _
        (open_subscribers-All w.run.events w.broker.channel s.channel_served) s.closed_served)
