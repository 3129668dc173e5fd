-- ===== src/EventBroker/Ending.antt =====
-- The terminal event of a run's stream: the end of `poll` in src/http/run-event-broker.ts.
use shan_hai_edu_ppt.Base.{
  ℕ, suc, ◌+◌, ◌≤◌, ◌<◌, ◌≡◌, subst, sym, refl, inl, inr, true, false, Option, none, some, List, [],
  ◌∷◌, ◌++◌, length, All, arith, leb, Bool-cases, ok, ◌∙◌, ◌==◌, if◌then◌else◌,
}
use shan_hai_edu_ppt.Ports.{AgentEvent}
use shan_hai_edu_ppt.Ports.Repository.{EventPage}
use shan_hai_edu_ppt.Ports.Repository.Log.{IsLog}
use shan_hai_edu_ppt.EventBroker.{Subscriber, is_over, is_beyond, is_last, accepts}
use shan_hai_edu_ppt.EventBroker.Poll.{broadcast, Served, serve, take_events, answer_with}
use shan_hai_edu_ppt.EventBroker.Slices.{Follows, get_elem?_of_IsLog}
use shan_hai_edu_ppt.EventBroker.Delivery.{All-append}
use shan_hai_edu_ppt.EventBroker.Rounds.{polling_channel}

-- No subscriber has been handed an event past the sequence `t`.
abbrev pub IsBefore : ℕ → Subscriber → Type 0
IsBefore t s = s.cursor ≤ t

broadcast-IsBefore :
    (t : ℕ) (e : AgentEvent) (ss : List Subscriber)
    → e.sequence ≤ t
    → All (IsBefore t) ss
    → All (IsBefore t) (broadcast e ss).0 × All (IsBefore t) (broadcast e ss).1
unfolding broadcast
broadcast-IsBefore t e [] le w = (tt, tt)
broadcast-IsBefore t e (s ∷ ss) le (h, w) =
    let (stay, leave) = broadcast-IsBefore t e ss le w in
    elim (Bool-cases (leb e.sequence s.cursor)) [
      | inl seen ↦ rw seen ((h, stay), leave)
      | inr unseen ↦ rw unseen (elim (Bool-cases (accepts e s)) [
        | inl taken ↦ rw taken ((le, stay), leave)
        | inr refused ↦ rw refused (stay, (h, leave))
      ])
    ]

-- How many subscribers of a list are the client `id`.
pub tally : ℕ → List Subscriber → ℕ
tally id [] = 0
tally id (s ∷ ss) = let n = tally id ss in if s.id == id then suc n else n

tally-append : (id : ℕ) (xs ys : List Subscriber) → tally id (xs ++ ys) ≡ tally id xs + tally id ys
unfolding tally
tally-append id [] ys = omega arith
tally-append id (x ∷ xs) ys = ground (arith, tally-append id xs ys)

tally-broadcast :
    (id : ℕ) (e : AgentEvent) (ss : List Subscriber)
    → tally id (broadcast e ss).0 + tally id (broadcast e ss).1 ≡ tally id ss
unfolding tally broadcast
tally-broadcast id e [] = refl
tally-broadcast id e (s ∷ ss) = ground (arith, tally-broadcast id e ss)

tally-serve :
    (id : ℕ) (t : Option ℕ) (es : List AgentEvent) (v : Served)
    → tally id (serve t es v).closed + tally id (serve t es v).subscribers
      ≡ tally id v.closed + tally id v.subscribers
unfolding serve
tally-serve id t [] v = refl
tally-serve id t (e ∷ es) v = ground (
  arith,
  tally-serve id t es (record {
    cursor = e.sequence;
    subscribers = (broadcast e v.subscribers).0;
    closed = v.closed ++ (broadcast e v.subscribers).1;
    terminal = is_last t e.sequence;
  }),
  tally-append id v.closed (broadcast e v.subscribers).1,
  tally-broadcast id e v.subscribers,
)

record Ended (t : ℕ) (v : Served) : Type 0 where
  ended : v.terminal ≡ true
  open_before : All (IsBefore t) v.subscribers
  closed_before : All (IsBefore t) v.closed

serve-Ended :
    (log : List AgentEvent) (t : ℕ) (es : List AgentEvent) (v : Served)
    → IsLog 0 log
    → Follows log v.cursor es
    → v.cursor < t
    → t ≤ v.cursor + length es
    → All (IsBefore t) v.subscribers
    → All (IsBefore t) v.closed
    → Ended t (serve (some t) es v)
unfolding serve
serve-Ended log t [] v l f lt le o c = absurd (omega arith)
serve-Ended log t (e ∷ es) v l (here, f) lt le o c =
    let (number, in_log) = get_elem?_of_IsLog 0 v.cursor log {e = e} l here in
    let step : e.sequence ≡ suc v.cursor = omega (arith, number) in
    let at_most : e.sequence ≤ t = omega (arith, step, lt) in
    let within : is_beyond (some t) e.sequence ≡ false = ground arith in
    let (stay, leave) = broadcast-IsBefore t e v.subscribers at_most o in
    let shut = All-append (IsBefore t) v.closed _ c leave in
    elim (Bool-cases (is_last (some t) e.sequence)) [
      | inl ends ↦
          rw within (rw ends (record { ended = refl; open_before = stay; closed_before = shut }))
      | inr goes ↦ rw within (
          rw goes (
            serve-Ended log t es
              (record {
                cursor = e.sequence;
                subscribers = (broadcast e v.subscribers).0;
                closed = v.closed ++ (broadcast e v.subscribers).1;
                terminal = false;
              })
              l (subst (λ k. Follows log k es) (sym step) f) (ground arith)
              (omega (arith, step, le)) stay shut))
    ]

-- When the page that arrives continues the log after the channel's cursor and holds the terminal
-- event, the stream of the run is over: every client of the channel is closed, once, in addition to
-- those that were closed before, the channel is gone, and none has been handed an event past the
-- terminal one, if none had been before.
pub terminal_ends :
    (log : List AgentEvent) (poll_ms t : ℕ) (page : EventPage) (cursor : ℕ) (seen : Option ℕ)
    (ss closed : List Subscriber)
    → IsLog 0 log
    → Follows log cursor page.events
    → page.terminal ≡ some t
    → cursor < t
    → t ≤ cursor + length page.events
    → All (IsBefore t) ss
    → All (IsBefore t) closed
    → let b = answer_with poll_ms closed (some (ok page)) (polling_channel page cursor seen ss) in
      (b.channel ≡ none)
      × ((id : ℕ) → tally id b.closed ≡ tally id closed + tally id ss)
      × All (IsBefore t) b.closed
unfolding answer_with take_events
terminal_ends log poll_ms t page cursor seen ss closed l f e lt le o c =
    subst
      (λ u.
        let b =
          take_events poll_ms u page.events page.has_more (polling_channel page cursor seen ss)
            closed in
        (b.channel ≡ none)
        × ((id : ℕ) → tally id b.closed ≡ tally id closed + tally id ss)
        × All (IsBefore t) b.closed)
      (sym e) ended
  where
    going : is_over (some t) cursor ≡ false
    going = ground (arith, lt)

    ended :
        let b =
          take_events poll_ms
            (some t)
            page.events
            page.has_more
            (polling_channel page cursor seen ss)
            closed in
        (b.channel ≡ none)
        × ((id : ℕ) → tally id b.closed ≡ tally id closed + tally id ss)
        × All (IsBefore t) b.closed
    ended =
        let end =
          serve-Ended log t page.events
            (record { cursor = cursor; subscribers = ss; closed = closed; terminal = false }) l f lt
            le o c in
        rw (going, take_events)
          (rw (end.ended) (
            refl,
            λ id. tally-append id _ _ ∙ tally-serve id (some t) page.events _,
            All-append (IsBefore t) _ _ end.closed_before end.open_before,
          ))
