-- ===== src/EventBroker/Rounds.antt =====
-- The polls of src/http/run-event-broker.ts, one after the other.
use shan_hai_edu_ppt.Base.{
  ℕ, zero, suc, ◌+◌, ◌≡◌, ◌∙◌, ap, subst, sym, refl, ◌⊎◌, inl, inr, true, false, Option, none, some,
  List, [], ◌∷◌, ◌++◌, map, length, All, arith, leb, Bool-cases, ok,
}
use shan_hai_edu_ppt.Ports.{AgentEvent}
use shan_hai_edu_ppt.Ports.Repository.{EventPage}
use shan_hai_edu_ppt.Ports.Repository.Log.{IsLog}
use shan_hai_edu_ppt.EventBroker.{
  Subscriber, has_subscribers, RunChannel, Broker, is_over, schedule, read,
}
use shan_hai_edu_ppt.EventBroker.Poll.{
  broadcast, Served, serve, end_poll, take_events, take_page, answer_with, arrive_on, arrive, ask,
  fire_on, fire,
}
use shan_hai_edu_ppt.EventBroker.Slices.{Follows, get_elem?_of_IsLog}

-- A client that takes whatever it is handed.
abbrev pub IsWilling : Subscriber → Type 0
IsWilling s = (hs : List AgentEvent) (e : AgentEvent) → s.on_event hs e ≡ true

abbrev pub ids : List Subscriber → List ℕ
ids = map (λ s. s.id)

pub same_ids : (xs ys : List Subscriber) → ids xs ≡ ids ys → has_subscribers xs ≡ has_subscribers ys
same_ids [] [] h = refl
same_ids [] (y ∷ ys) h = cc
same_ids (x ∷ xs) [] h = cc
same_ids (x ∷ xs) (y ∷ ys) h = refl

broadcast-IsWilling :
    (e : AgentEvent) (ss : List Subscriber)
    → All IsWilling ss
    → All IsWilling (broadcast e ss).0
      × (ids (broadcast e ss).0 ≡ ids ss)
      × ((broadcast e ss).1 ≡ [])
unfolding broadcast
broadcast-IsWilling e [] w = (tt, refl, refl)
broadcast-IsWilling e (s ∷ ss) (h, w) =
    let (willing, same, none_left) = broadcast-IsWilling e ss w in
    elim (Bool-cases (leb e.sequence s.cursor)) [
      | inl seen ↦ rw seen ((h, willing), ap (λ l. s.id ∷ l) same, none_left)
      | inr unseen ↦
          rw unseen (rw (h s.handed e) ((h, willing), ap (λ l. s.id ∷ l) same, none_left))
    ]

-- The loop of `poll` over a page of a run that has not ended.
record AllServed (v u : Served) (n : ℕ) : Type 0 where
  cursor_on : u.cursor ≡ v.cursor + n
  willing : All IsWilling u.subscribers
  same : ids u.subscribers ≡ ids v.subscribers
  unended : u.terminal ≡ false

serve-AllServed :
    (log : List AgentEvent) (es : List AgentEvent) (v : Served)
    → IsLog 0 log
    → Follows log v.cursor es
    → v.terminal ≡ false
    → All IsWilling v.subscribers
    → AllServed v (serve none es v) (length es)
unfolding serve
serve-AllServed log [] v l f t w = record {
  cursor_on = omega arith;
  willing = w;
  same = refl;
  unended = t;
}
serve-AllServed log (e ∷ es) v l (here, f) t w =
    let (number, lt) = get_elem?_of_IsLog 0 v.cursor log {e = e} l here in
    let step : e.sequence ≡ suc v.cursor = omega (arith, number) in
    let (willing, same, none_left) = broadcast-IsWilling e v.subscribers w in
    let ih =
      serve-AllServed log es
        (record {
          cursor = e.sequence;
          subscribers = (broadcast e v.subscribers).0;
          closed = v.closed ++ (broadcast e v.subscribers).1;
          terminal = false;
        })
        l (subst (λ k. Follows log k es) (sym step) f) refl willing in
    record {
      cursor_on = omega (arith, ih.cursor_on, step);
      willing = ih.willing;
      same = ih.same ∙ same;
      unended = ih.unended;
    }

-- A channel that waits for its timer.
abbrev pub waiting_channel : ℕ → ℕ → Option ℕ → List Subscriber → RunChannel
waiting_channel delay cursor t ss = record {
  cursor = cursor;
  terminal_sequence = t;
  subscribers = ss;
  timer = some delay;
  polling = none;
}

-- A channel whose poll waits for its answer.
abbrev pub polling_channel : EventPage → ℕ → Option ℕ → List Subscriber → RunChannel
polling_channel page cursor t ss = record {
  cursor = cursor;
  terminal_sequence = t;
  subscribers = ss;
  timer = none;
  polling = some (ok page);
}

end_poll_lem :
    (delay poll_ms : ℕ) (page : EventPage) (cursor : ℕ) (t : Option ℕ) (ss closed : List Subscriber)
    → has_subscribers ss ≡ true
    → end_poll delay poll_ms (polling_channel page cursor t ss) closed
      ≡ record { channel = some (waiting_channel poll_ms cursor t ss); closed = closed }
unfolding end_poll schedule
end_poll_lem delay poll_ms page cursor t ss closed h = rw h refl

-- A poll never leaves a stream unattended: when its page arrives, the channel is closed, or its next
-- poll is scheduled after the polling interval, also when the page says that more events wait.
pub poll_waits :
    (poll_ms : ℕ) (page : EventPage) (cursor : ℕ) (t : Option ℕ) (ss closed : List Subscriber)
    → let b = answer_with poll_ms closed (some (ok page)) (polling_channel page cursor t ss) in
      (b.channel ≡ none)
      ⊎ ((cursor' : ℕ) × (left : List Subscriber) × (has_subscribers left ≡ true)
          × (b.channel ≡ some (waiting_channel poll_ms cursor' page.terminal left)))
unfolding answer_with take_events end_poll
poll_waits poll_ms page cursor t ss closed =
    let v =
      serve page.terminal page.events
        (record { cursor = cursor; subscribers = ss; closed = closed; terminal = false }) in
    elim (Bool-cases (is_over page.terminal cursor)) [
      | inl over ↦ rw over (inl refl)
      | inr goes ↦ rw goes (elim (Bool-cases v.terminal) [
        | inl ends ↦ rw ends (inl refl)
        | inr stays ↦ rw stays (elim (Bool-cases (has_subscribers v.subscribers)) [
          | inl some_left ↦ inr (
            v.cursor,
            v.subscribers,
            some_left,
            ap (λ b. b.channel)
                (end_poll_lem _ poll_ms page v.cursor page.terminal v.subscribers v.closed
                  some_left),
          )
          | inr none_left ↦ inl (rw (none_left, end_poll) refl)
        ])
      ])
    ]

-- The timer fires and the read is answered.
unfoldable pub round : (ℕ → EventPage) → ℕ → Broker → Broker
round read poll_ms b = arrive poll_ms (fire read false b)

unfoldable pub rounds : (ℕ → EventPage) → ℕ → ℕ → Broker → Broker
rounds read poll_ms zero b = b
rounds read poll_ms (suc n) b = rounds read poll_ms n (round read poll_ms b)

pub round_lem :
    (read : ℕ → EventPage) (poll_ms delay cursor : ℕ) (t : Option ℕ) (ss closed : List Subscriber)
    → has_subscribers ss ≡ true
    → round read poll_ms
        (record { channel = some (waiting_channel delay cursor t ss); closed = closed })
      ≡ take_page poll_ms (read cursor) (polling_channel (read cursor) cursor t ss) closed
unfolding round arrive arrive_on fire fire_on ask answer_with
round_lem read poll_ms delay cursor t ss closed h = rw h refl

pub record NextChannel (cursor : ℕ) (ss : List Subscriber) (poll_ms : ℕ) (b : Broker) (n : ℕ)
    : Type 0 where
  pub left : List Subscriber
  pub closed : List Subscriber
  pub left_willing : All IsWilling left
  pub left_same : ids left ≡ ids ss
  pub left_on :
      b
      ≡ record { channel = some (waiting_channel poll_ms (cursor + n) none left); closed = closed }

pub take_events_willing :
    (log : List AgentEvent) (poll_ms cursor : ℕ) (page : EventPage) (t : Option ℕ)
    (ss closed : List Subscriber)
    → IsLog 0 log
    → Follows log cursor page.events
    → has_subscribers ss ≡ true
    → All IsWilling ss
    → NextChannel cursor ss poll_ms
        (take_events poll_ms none page.events page.has_more
          (polling_channel page cursor t ss)
          closed)
        (length page.events)
unfolding take_events
take_events_willing log poll_ms cursor page t ss closed l f h w =
    let v : Served = record {
      cursor = cursor;
      subscribers = ss;
      closed = closed;
      terminal = false;
    } in
    let all = serve-AllServed log page.events v l f refl w in
    let u = serve none page.events v in
    record {
      left = u.subscribers;
      closed = u.closed;
      left_willing = all.willing;
      left_same = all.same;
      left_on = rw (all.unended) (
          end_poll_lem _ poll_ms page u.cursor none u.subscribers u.closed
            (same_ids u.subscribers ss all.same ∙ h)
          ∙ ap
              (λ k. record {
                channel = some (waiting_channel poll_ms k none u.subscribers);
                closed = u.closed;
              })
              all.cursor_on);
    }
