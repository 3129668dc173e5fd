-- ===== src/EventBroker/Streams.antt =====
-- Every sequence of the broker's operations, while the run's log grows:
-- src/http/run-event-broker.ts over src/adapters/in-memory-repository.ts.
use shan_hai_edu_ppt.Base.{
  ℕ, ◌≤◌, ◌≡◌, inl, inr, Bool, true, false, not, ◌&&◌, ◌||◌, Option, none, some, List, [], ◌∷◌,
  length, All, keep, is_some, is_none, if◌then◌else◌, Bool-cases, ok, err, ◌==◌,
}
use shan_hai_edu_ppt.Ports.{AgentEvent}
use shan_hai_edu_ppt.Ports.Repository.{EventPage}
use shan_hai_edu_ppt.Ports.Repository.Log.{IsLog}
use shan_hai_edu_ppt.EventBroker.{
  Subscriber, has_subscribers, Answer, RunChannel, Broker, is_over, CatchUp, schedule, channel_for,
  join, read,
}
use shan_hai_edu_ppt.EventBroker.Poll.{
  Served, serve, close_all, end_poll, take_events, take_page, answer_with, arrive_on, arrive, ask,
  fire_on, keep_open, remove_on,
}
use shan_hai_edu_ppt.EventBroker.Slices.{Follows, Continues}
use shan_hai_edu_ppt.EventBroker.Delivery.{IsServed, All-append, serve-AreServed}

abbrev pub InFlight : List AgentEvent → ℕ → Option Answer → Type 0
InFlight log c none = Unit
InFlight log c (some (err e)) = Unit
InFlight log c (some (ok page)) = Follows log c page.events

pub record ChannelServed (log : List AgentEvent) (c : RunChannel) : Type 0 where
  pub within : c.cursor ≤ length log
  pub open_served : All (λ s. IsServed log s × (c.cursor ≤ s.cursor)) c.subscribers
  pub in_flight : InFlight log c.cursor c.polling

abbrev pub OptionServed : List AgentEvent → Option RunChannel → Type 0
OptionServed log none = Unit
OptionServed log (some c) = ChannelServed log c

schedule-open :
    (log : List AgentEvent) (delay : ℕ) (c : RunChannel)
    → c.cursor ≤ length log
    → All (λ s. IsServed log s × (c.cursor ≤ s.cursor)) c.subscribers
    → ChannelServed log (record (schedule delay c) { polling = none })
unfolding schedule
schedule-open log delay c le w =
    elim (Bool-cases (is_none c.timer && is_none c.polling && has_subscribers c.subscribers)) [
      | inl idle ↦ rw idle (record { within = le; open_served = w; in_flight = tt })
      | inr busy ↦ rw busy (record { within = le; open_served = w; in_flight = tt })
    ]

pub record BrokerServed (log : List AgentEvent) (b : Broker) : Type 0 where
  pub channel_served : OptionServed log b.channel
  pub closed_served : All (IsServed log) b.closed

schedule-ChannelServed :
    {log : List AgentEvent} (delay : ℕ) (c : RunChannel)
    → ChannelServed log c
    → ChannelServed log (schedule delay c)
unfolding schedule
schedule-ChannelServed delay c w =
    elim (Bool-cases (is_none c.timer && is_none c.polling && has_subscribers c.subscribers)) [
      | inl idle ↦
          rw idle
            (record { within = w.within; open_served = w.open_served; in_flight = w.in_flight })
      | inr busy ↦ rw busy w
    ]

pub All-first :
    (log : List AgentEvent) (c : ℕ) (ss : List Subscriber)
    → All (λ s. IsServed log s × (c ≤ s.cursor)) ss
    → All (IsServed log) ss
All-first log c [] w = tt
All-first log c (s ∷ ss) (h, w) = (h.0, All-first log c ss w)

module _ (log : List AgentEvent) where
  close_all-BrokerServed :
      (c : ℕ) (closed ss : List Subscriber)
      → All (λ s. IsServed log s × (c ≤ s.cursor)) ss
      → All (IsServed log) closed
      → BrokerServed log (close_all closed ss)
  close_all-BrokerServed c closed ss w shut = record {
    channel_served = tt;
    closed_served = All-append (IsServed log) closed ss shut (All-first log c ss w);
  }

  end_poll-BrokerServed :
      (delay poll_ms : ℕ) (c : RunChannel) (closed : List Subscriber)
      → c.cursor ≤ length log
      → All (λ s. IsServed log s × (c.cursor ≤ s.cursor)) c.subscribers
      → All (IsServed log) closed
      → BrokerServed log (end_poll delay poll_ms c closed)
  unfolding end_poll
  end_poll-BrokerServed delay poll_ms c closed le w shut =
      elim (Bool-cases (has_subscribers c.subscribers)) [
        | inl some_left ↦ rw some_left (record {
          channel_served = schedule-ChannelServed poll_ms _ (schedule-open log delay c le w);
          closed_served = shut;
        })
        | inr none_left ↦ rw none_left (close_all-BrokerServed 0 closed [] tt shut)
      ]

  take_page-BrokerServed :
      (poll_ms : ℕ) (page : EventPage) (c : RunChannel) (closed : List Subscriber)
      → IsLog 0 log
      → ChannelServed log c
      → Follows log c.cursor page.events
      → All (IsServed log) closed
      → BrokerServed log (take_page poll_ms page c closed)
  unfolding take_events
  take_page-BrokerServed poll_ms page c closed l w f shut =
      let v : Served = record {
        cursor = c.cursor;
        subscribers = c.subscribers;
        closed = closed;
        terminal = false;
      } in
      let served =
        serve-AreServed log page.terminal page.events v l f
          (record { within = w.within; open_served = w.open_served; closed_served = shut }) in
      elim (Bool-cases (is_over page.terminal c.cursor)) [
        | inl over ↦
            rw over (close_all-BrokerServed c.cursor closed c.subscribers w.open_served shut)
        | inr goes ↦ rw goes (elim (Bool-cases (serve page.terminal page.events v).terminal) [
          | inl ends ↦
              rw ends (close_all-BrokerServed _ _ _ served.open_served served.closed_served)
          | inr stays ↦ rw stays (
              end_poll-BrokerServed _ poll_ms _ _ served.within served.open_served
                served.closed_served)
        ])
      ]

  pub arrive-BrokerServed :
      (poll_ms : ℕ) (b : Broker)
      → IsLog 0 log
      → BrokerServed log b
      → BrokerServed log (arrive poll_ms b)
  unfolding arrive arrive_on answer_with
  arrive-BrokerServed poll_ms b l w = arrive_on-BrokerServed b.channel w.channel_served
    where
      answered :
          (a : Option Answer) (c : RunChannel)
          → ChannelServed log c
          → InFlight log c.cursor a
          → BrokerServed log (answer_with poll_ms b.closed a c)
      answered none c v f = record { channel_served = v; closed_served = w.closed_served }
      answered (some (err e)) c v f =
          close_all-BrokerServed c.cursor b.closed c.subscribers v.open_served w.closed_served
      answered (some (ok page)) c v f =
          take_page-BrokerServed poll_ms page c b.closed l v f w.closed_served

      arrive_on-BrokerServed :
          (o : Option RunChannel)
          → OptionServed log o
          → BrokerServed log (arrive_on poll_ms b.closed o)
      arrive_on-BrokerServed none v = record {
        channel_served = tt;
        closed_served = w.closed_served;
      }
      arrive_on-BrokerServed (some c) v = answered c.polling c v v.in_flight

  ask-ChannelServed :
      (read : ℕ → EventPage) (fails : Bool) (c : RunChannel)
      → ((k : ℕ) → k ≤ length log → Continues log k (read k).events (read k).has_more)
      → ChannelServed log c
      → ChannelServed log (ask read fails c)
  unfolding ask
  ask-ChannelServed read fails c reads v =
      elim (Bool-cases (is_some c.polling || not (has_subscribers c.subscribers))) [
        | inl busy ↦ rw busy v
        | inr idle ↦
            rw idle
              (record { within = v.within; open_served = v.open_served; in_flight = asked fails })
      ]
    where
      asked : (f : Bool) → InFlight log c.cursor (some (if f then err tt else ok (read c.cursor)))
      asked true = tt
      asked false = (reads c.cursor v.within).follows

  pub fire_on-OptionServed :
      (read : ℕ → EventPage) (fails : Bool) (o : Option RunChannel)
      → ((k : ℕ) → k ≤ length log → Continues log k (read k).events (read k).has_more)
      → OptionServed log o
      → OptionServed log (fire_on read fails o)
  unfolding fire_on
  fire_on-OptionServed read fails none reads v = tt
  fire_on-OptionServed read fails (some c) reads v = elim (Bool-cases (is_some c.timer)) [
    | inl set ↦ rw set (
        ask-ChannelServed read fails (record c { timer = none }) reads
          (record { within = v.within; open_served = v.open_served; in_flight = v.in_flight }))
    | inr unset ↦ rw unset v
  ]

  kept :
      (c id : ℕ) (ss : List Subscriber)
      → All (λ s. IsServed log s × (c ≤ s.cursor)) ss
      → All (λ s. IsServed log s × (c ≤ s.cursor)) (keep (λ s. not (s.id == id)) ss)
  kept c id [] w = tt
  kept c id (s ∷ ss) (h, w) = elim (Bool-cases (s.id == id)) [
    | inl same ↦ rw same (kept c id ss w)
    | inr other ↦ rw other (h, kept c id ss w)
  ]

  keep_open-OptionServed :
      (c : RunChannel) (ss : List Subscriber)
      → ChannelServed log c
      → All (λ s. IsServed log s × (c.cursor ≤ s.cursor)) ss
      → OptionServed log (keep_open ss c)
  keep_open-OptionServed c [] v w = tt
  keep_open-OptionServed c (s ∷ ss) v w = record {
    within = v.within;
    open_served = w;
    in_flight = v.in_flight;
  }

  pub remove_on-OptionServed :
      (id : ℕ) (o : Option RunChannel) → OptionServed log o → OptionServed log (remove_on id o)
  unfolding remove_on
  remove_on-OptionServed id none v = tt
  remove_on-OptionServed id (some c) v =
      keep_open-OptionServed c _ v (kept c.cursor id c.subscribers v.open_served)

  pub channel_for-ChannelServed :
      (after : ℕ) (o : Option RunChannel)
      → after ≤ length log
      → OptionServed log o
      → ChannelServed log (channel_for after o)
  channel_for-ChannelServed after none le v = record {
    within = le;
    open_served = tt;
    in_flight = tt;
  }
  channel_for-ChannelServed after (some c) le v = v

  pub join-BrokerServed :
      (b : Broker) (c : RunChannel) (done : CatchUp)
      → All (IsServed log) b.closed
      → ChannelServed log c
      → IsServed log done.subscriber
      → (done.closed ≡ false → c.cursor ≤ done.subscriber.cursor)
      → BrokerServed log (join b c done)
  unfolding join
  join-BrokerServed b c done shut v served reached = elim (Bool-cases done.closed) [
    | inl out ↦ rw out (record {
      channel_served = record {
        within = v.within;
        open_served = v.open_served;
        in_flight = v.in_flight;
      };
      closed_served = All-append (IsServed log) b.closed _ shut (served, tt);
    })
    | inr stays ↦ rw stays (record {
      channel_served = schedule-ChannelServed 0 _ (record {
        within = v.within;
        open_served =
            All-append (λ s. IsServed log s × (c.cursor ≤ s.cursor)) c.subscribers _ v.open_served
              ((served, reached stays), tt);
        in_flight = v.in_flight;
      });
      closed_served = shut;
    })
  ]
