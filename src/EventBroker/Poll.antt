-- ===== src/EventBroker/Poll.antt =====
-- src/http/run-event-broker.ts: the poll that serves the subscribers, and their leaving.
use shan_hai_edu_ppt.Base.{
  ℕ, Bool, false, not, ◌||◌, Option, none, some, List, [], ◌∷◌, ◌++◌, leb, ◌==◌, keep, is_some,
  if◌then◌else◌, ok, err,
}
use shan_hai_edu_ppt.Ports.{AgentEvent}
use shan_hai_edu_ppt.Ports.Repository.{EventPage}
use shan_hai_edu_ppt.EventBroker.{
  Subscriber, has_subscribers, Answer, RunChannel, Broker, is_over, is_beyond, is_last, hand,
  accepts, schedule, read,
}

-- What one event does to the subscribers: those that stay, and those that are closed.
unfoldable pub broadcast : AgentEvent → List Subscriber → List Subscriber × List Subscriber
broadcast e [] = ([], [])
broadcast e (s ∷ ss) =
    let (stay, leave) = broadcast e ss in
    if leb e.sequence s.cursor
    then (s ∷ stay, leave)
    else if accepts e s
    then (hand e s ∷ stay, leave)
    else (stay, s ∷ leave)

-- The loop of `poll` over the page: the channel's cursor and subscribers, the closed ones, and
-- whether the terminal event was reached.
pub record Served : Type 0 where
  pub cursor : ℕ
  pub subscribers : List Subscriber
  pub closed : List Subscriber
  pub terminal : Bool

unfoldable pub serve : Option ℕ → List AgentEvent → Served → Served
unfolding broadcast
serve t [] v = v
serve t (e ∷ es) v =
    let (stay, leave) = broadcast e v.subscribers in
    let w : Served = record {
      cursor = e.sequence;
      subscribers = stay;
      closed = v.closed ++ leave;
      terminal = is_last t e.sequence;
    } in
    let rest = serve t es w in if is_beyond t e.sequence then v else if w.terminal then w else rest

-- `stop`, after `onClose` of every subscriber that is left.
abbrev pub close_all : List Subscriber → List Subscriber → Broker
close_all closed subscribers = record { channel = none; closed = closed ++ subscribers }

-- The `finally` block: a channel that has lost its last subscriber is stopped.
unfoldable pub end_poll : ℕ → ℕ → RunChannel → List Subscriber → Broker
end_poll delay poll_ms c closed =
    let asked = schedule delay c in
    let idle = record asked { polling = none } in
    if has_subscribers c.subscribers
    then record { channel = some (schedule poll_ms idle); closed = closed }
    else close_all closed []

-- What `poll` does with a page.
unfoldable pub take_events :
    ℕ → Option ℕ → List AgentEvent → Bool → RunChannel → List Subscriber → Broker
take_events poll_ms terminal events has_more c closed =
    let v = serve terminal events (record {
      cursor = c.cursor;
      subscribers = c.subscribers;
      closed = closed;
      terminal = false;
    }) in
    let served = record c {
      cursor = v.cursor;
      terminal_sequence = terminal;
      subscribers = v.subscribers;
    } in
    if is_over terminal c.cursor
    then close_all closed c.subscribers
    else if v.terminal
    then close_all v.closed v.subscribers
    else end_poll (if has_more then 0 else poll_ms) poll_ms served v.closed

abbrev pub take_page : ℕ → EventPage → RunChannel → List Subscriber → Broker
take_page poll_ms page c closed =
    take_events poll_ms page.terminal page.events page.has_more c closed

unfoldable pub answer_with : ℕ → List Subscriber → Option Answer → RunChannel → Broker
answer_with poll_ms closed none c = record { channel = some c; closed = closed }
answer_with poll_ms closed (some (err e)) c = close_all closed c.subscribers
answer_with poll_ms closed (some (ok page)) c = take_page poll_ms page c closed

unfoldable pub arrive_on : ℕ → List Subscriber → Option RunChannel → Broker
arrive_on poll_ms closed none = record { channel = none; closed = closed }
arrive_on poll_ms closed (some c) = answer_with poll_ms closed c.polling c

-- The answer of the read arrives: the rest of `poll`.
unfoldable pub arrive : ℕ → Broker → Broker
arrive poll_ms b = arrive_on poll_ms b.closed b.channel

-- The start of `poll`, which asks for the page after the channel's cursor: the read is rejected if
-- `fails`.
unfoldable pub ask : (ℕ → EventPage) → Bool → RunChannel → RunChannel
ask read fails c =
    if is_some c.polling || not (has_subscribers c.subscribers)
    then c
    else record c { polling = some (if fails then err tt else ok (read c.cursor)) }

unfoldable pub fire_on : (ℕ → EventPage) → Bool → Option RunChannel → Option RunChannel
fire_on read fails none = none
fire_on read fails (some c) =
    some (if is_some c.timer then ask read fails (record c { timer = none }) else c)

-- The timer fires.
unfoldable pub fire : (ℕ → EventPage) → Bool → Broker → Broker
fire read fails b = record b { channel = fire_on read fails b.channel }

abbrev pub keep_open : List Subscriber → RunChannel → Option RunChannel
keep_open [] c = none
keep_open (s ∷ ss) c = some (record c { subscribers = s ∷ ss })

unfoldable pub remove_on : ℕ → Option RunChannel → Option RunChannel
remove_on id none = none
remove_on id (some c) = keep_open (keep (λ s. not (s.id == id)) c.subscribers) c

-- `remove`: the subscriber leaves, and the last one stops the channel.
unfoldable pub remove : ℕ → Broker → Broker
remove id b = record b { channel = remove_on id b.channel }
