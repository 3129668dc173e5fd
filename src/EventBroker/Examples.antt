-- ===== src/EventBroker/Examples.antt =====
-- The theorems about the broker at a run with two events, and one that was cancelled.
use shan_hai_edu_ppt.Base.{
  ℕ, ◌+◌, ◌≡◌, refl, ◌⊎◌, Bool, true, false, none, some, List, [], ◌∷◌, ◌++◌, length, take, All,
  arith, ok,
}
use shan_hai_edu_ppt.Ports.{AgentEvent, StoredRun}
use shan_hai_edu_ppt.Ports.Repository.{EventPage, terminal_sequence, read_events}
use shan_hai_edu_ppt.Ports.Repository.Log.{IsLog}
use shan_hai_edu_ppt.Ports.Repository.Examples.{sample, sample-IsLog}
use shan_hai_edu_ppt.EventBroker.{
  default_event_batch_limit, Subscriber, has_subscribers, catch_up, schedule, join, subscribe, read,
}
use shan_hai_edu_ppt.EventBroker.Poll.{
  broadcast, serve, end_poll, take_events, answer_with, arrive_on, arrive, ask, fire_on, fire,
}
use shan_hai_edu_ppt.EventBroker.Slices.{slice}
use shan_hai_edu_ppt.EventBroker.Reach.{
  World, new_world, open_subscribers, subscribes, fires, arrives, Reach, here, next, streams_exact,
}
use shan_hai_edu_ppt.EventBroker.Rounds.{waiting_channel, polling_channel, poll_waits, rounds}
use shan_hai_edu_ppt.EventBroker.Ending.{IsBefore, tally, terminal_ends}
use shan_hai_edu_ppt.EventBroker.Completion.{Delivered, open_completes}

abbrev size : AgentEvent → ℕ
size e = 500

abbrev takes_all : List AgentEvent → AgentEvent → Bool
takes_all hs e = true

abbrev open_run : StoredRun
open_run = record sample { events = take 2 sample.events }

open_run-IsLog : IsLog 0 open_run.events
open_run-IsLog = (refl, (refl, tt))

abbrev client : Subscriber
client = record { id = 1; after = 0; cursor = 0; handed = []; on_event = takes_all }

abbrev joined : World
joined = record (new_world open_run) {
  broker =
      subscribe (read size default_event_batch_limit 256 open_run) open_run 1 0 takes_all
        (new_world open_run).broker;
}

abbrev polled : World
polled = record joined {
  broker = arrive 500 (fire (read size default_event_batch_limit 256 open_run) false joined.broker);
}

joins : Reach size default_event_batch_limit 256 500 (new_world open_run) joined
joins = next here (subscribes 1 0 takes_all (omega arith))

polls : Reach size default_event_batch_limit 256 500 (new_world open_run) polled
polls = next (next joins (fires false)) arrives

streams_exact_example :
    All
      (λ s. s.handed ≡ slice s.after s.cursor polled.run.events)
      (open_subscribers polled.broker.channel ++ polled.broker.closed)
streams_exact_example =
    streams_exact size default_event_batch_limit 256 500 open_run {w = polled} open_run-IsLog
      (omega arith) polls

-- The poll has handed the first event only, whose size fills the page.
polled_cursor :
    open_subscribers polled.broker.channel
    ≡ record client { cursor = 1; handed = take 1 sample.events } ∷ []
unfolding arrive arrive_on answer_with take_events serve broadcast end_poll fire fire_on ask
    subscribe join catch_up schedule read_events
polled_cursor = refl

waits_at : joined.broker.channel ≡ some (waiting_channel 0 0 none (client ∷ []))
unfolding subscribe join catch_up schedule
waits_at = refl

open_completes_example : Delivered open_run.events (client ∷ []) (
    rounds
      (read size default_event_batch_limit 256 open_run)
      500
      (length open_run.events)
      joined.broker)
unfolding terminal_sequence
open_completes_example =
    open_completes size default_event_batch_limit 256 500 open_run {w = joined} 0 0 (client ∷ [])
      open_run-IsLog (omega arith) joins refl waits_at refl ((λ hs e. refl), tt)

abbrev page : EventPage
page = record {
  events = sample.events;
  next_after = 3;
  has_more = false;
  byte_length = 1500;
  terminal = some 3;
}

poll_waits_example :
    let b = answer_with 500 [] (some (ok page)) (polling_channel page 0 none (client ∷ [])) in
    (b.channel ≡ none)
    ⊎ ((cursor' : ℕ) × (left : List Subscriber) × (has_subscribers left ≡ true)
        × (b.channel ≡ some (waiting_channel 500 cursor' (some 3) left)))
poll_waits_example = poll_waits 500 page 0 none (client ∷ []) []

terminal_ends_example :
    let b = answer_with 500 [] (some (ok page)) (polling_channel page 0 none (client ∷ [])) in
    (b.channel ≡ none)
    × ((id : ℕ) → tally id b.closed ≡ tally id [] + tally id (client ∷ []))
    × All (IsBefore 3) b.closed
terminal_ends_example =
    terminal_ends sample.events 500 3 page 0 none (client ∷ []) [] sample-IsLog
      (refl, (refl, (refl, tt))) refl (omega arith) (omega arith) (omega arith, tt) tt
