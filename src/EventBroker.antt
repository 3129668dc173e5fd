-- ===== src/EventBroker.antt =====
-- src/http/run-event-broker.ts: the subscribers of a run's events, and how one joins.
pub mod Poll
pub mod Slices
pub mod Delivery
pub mod Streams
pub mod Reach
pub mod Rounds
pub mod Ending
pub mod Completion
mod Examples
use shan_hai_edu_ppt.Base.{
  ℕ, zero, suc, ◌+◌, ◌*◌, Bool, true, false, not, ◌&&◌, ◌||◌, Option, none, some, List, [], ◌∷◌,
  ◌++◌, ltb, leb, ◌==◌, length, keep, is_none, is_some, if◌then◌else◌, Result, ok, err,
}
use shan_hai_edu_ppt.Ports.{AgentEvent, StoredRun}
use shan_hai_edu_ppt.Ports.Repository.{EventPage, read_events}

abbrev pub default_event_batch_limit : ℕ
default_event_batch_limit = 100

abbrev pub default_event_batch_bytes : ℕ
default_event_batch_bytes = 256 * 1024

-- A subscriber, with the cursor that it came with and the events that its callback has accepted,
-- on which the callback's answer to the next event may depend. `id` stands for the object's identity.
pub record Subscriber : Type 0 where
  pub id : ℕ
  pub after : ℕ
  pub cursor : ℕ
  pub handed : List AgentEvent
  pub on_event : List AgentEvent → AgentEvent → Bool

-- The answer of a read: a page, or a rejection.
abbrev pub Answer : Type 0
Answer = Result (Unit {0}) EventPage

-- `polling` holds the answer that a poll waits for, and `timer` the delay of the next one.
pub record RunChannel : Type 0 where
  pub cursor : ℕ
  pub terminal_sequence : Option ℕ
  pub subscribers : List Subscriber
  pub timer : Option ℕ
  pub polling : Option Answer

-- What the broker holds of one run: the entry of `channels`, and the subscribers whose `onClose`
-- it has called.
pub record Broker : Type 0 where
  pub channel : Option RunChannel
  pub closed : List Subscriber

-- `terminal !== null && terminal <= cursor`, `> terminal` and `=== terminal`.
abbrev pub is_over : Option ℕ → ℕ → Bool
is_over none cursor = false
is_over (some t) cursor = leb t cursor

abbrev pub is_beyond : Option ℕ → ℕ → Bool
is_beyond none sequence = false
is_beyond (some t) sequence = ltb t sequence

abbrev pub is_last : Option ℕ → ℕ → Bool
is_last none sequence = false
is_last (some t) sequence = sequence == t

abbrev pub hand : AgentEvent → Subscriber → Subscriber
hand e s = record s { cursor = e.sequence; handed = s.handed ++ e ∷ [] }

abbrev pub accepts : AgentEvent → Subscriber → Bool
accepts e s = s.on_event s.handed e

abbrev pub has_events : List AgentEvent → Bool
has_events [] = false
has_events (e ∷ es) = true

-- A subscriber that catches up: the terminal sequence that it saw last, and whether it was closed.
pub record CatchUp : Type 0 where
  pub terminal : Option ℕ
  pub subscriber : Subscriber
  pub closed : Bool

-- The events of one page, handed to a subscriber that catches up.
unfoldable pub feed : Option ℕ → List AgentEvent → Subscriber → CatchUp
feed t [] s = record { terminal = t; subscriber = s; closed = false }
feed t (e ∷ es) s =
    let rest = feed t es (hand e s) in
    if is_beyond t e.sequence || not (accepts e s)
    then record { terminal = t; subscriber = s; closed = true }
    else if is_last t e.sequence
    then record { terminal = t; subscriber = hand e s; closed = true }
    else rest

module _ (read : ℕ → EventPage) where
  -- The loop of `subscribe`, until the channel's cursor is reached.
  unfoldable pub catch_up : ℕ → ℕ → Option ℕ → Subscriber → CatchUp
  unfolding has_events
  catch_up zero until t s = record { terminal = t; subscriber = s; closed = false }
  catch_up (suc fuel) until t s =
      let page = read s.cursor in
      let fed = feed page.terminal page.events s in
      let rest = catch_up fuel until page.terminal fed.subscriber in
      if not (ltb s.cursor until)
      then record { terminal = t; subscriber = s; closed = false }
      else if is_over page.terminal s.cursor
      then record { terminal = page.terminal; subscriber = s; closed = true }
      else if fed.closed || not page.has_more || not (has_events page.events)
      then fed
      else rest

abbrev pub has_subscribers : List Subscriber → Bool
has_subscribers [] = false
has_subscribers (s ∷ ss) = true

unfoldable pub schedule : ℕ → RunChannel → RunChannel
schedule delay c =
    if is_none c.timer && is_none c.polling && has_subscribers c.subscribers
    then record c { timer = some delay }
    else c

abbrev pub new_channel : ℕ → RunChannel
new_channel after = record {
  cursor = after;
  terminal_sequence = none;
  subscribers = [];
  timer = none;
  polling = none;
}

abbrev pub channel_for : ℕ → Option RunChannel → RunChannel
channel_for after none = new_channel after
channel_for after (some c) = c

-- A subscriber that was closed while it caught up is not added; a channel made for it stays.
unfoldable pub join : Broker → RunChannel → CatchUp → Broker
join b c done =
    let seen = record c { terminal_sequence = done.terminal } in
    if done.closed
    then record { channel = some seen; closed = b.closed ++ done.subscriber ∷ [] }
    else record b {
      channel =
          some (schedule 0 (record seen { subscribers = c.subscribers ++ done.subscriber ∷ [] }));
    }

-- The read of a page from the repository, with the broker's limits.
abbrev pub read : (AgentEvent → ℕ) → ℕ → ℕ → StoredRun → ℕ → EventPage
read size limit max_bytes run after = read_events size run after limit max_bytes

-- `subscribe`: the loop ends within `run.events` pages, each of which has an event.
unfoldable pub subscribe :
    (ℕ → EventPage) → StoredRun → ℕ → ℕ → (List AgentEvent → AgentEvent → Bool) → Broker → Broker
subscribe read run id after on_event b =
    let c = channel_for after b.channel in
    join b c (
      catch_up read (length run.events + 1) c.cursor c.terminal_sequence
        (record { id = id; after = after; cursor = after; handed = []; on_event = on_event }))
