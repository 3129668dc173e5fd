-- ===== src/EventBroker/Delivery.antt =====
-- What the subscribers of src/http/run-event-broker.ts have been handed, operation by operation.
use shan_hai_edu_ppt.Base.{
  ℕ, zero, suc, ◌+◌, ◌≤◌, ◌<◌, ◌≡◌, ◌∙◌, ap, subst, sym, refl, inl, inr, Bool, true, false, not,
  ◌||◌, Option, some, List, [], ◌∷◌, ◌++◌, length, All, arith, ltb, leb, ltb→lt, leb→le, Bool-cases,
}
use shan_hai_edu_ppt.Ports.{AgentEvent}
use shan_hai_edu_ppt.Ports.Repository.{EventPage}
use shan_hai_edu_ppt.Ports.Repository.Log.{IsLog}
use shan_hai_edu_ppt.EventBroker.{
  Subscriber, is_over, is_beyond, is_last, hand, accepts, has_events, feed, catch_up,
}
use shan_hai_edu_ppt.EventBroker.Poll.{broadcast, Served, serve}
use shan_hai_edu_ppt.EventBroker.Slices.{
  get_elem?, slice, slice_snoc, slice-append, get_elem?_of_IsLog, Follows, Continues,
}

-- The subscriber was handed the events of the log after its first cursor, up to its cursor: every
-- one, once and in order.
pub record IsServed (log : List AgentEvent) (s : Subscriber) : Type 0 where
  pub forward : s.after ≤ s.cursor
  pub within : s.cursor ≤ length log
  pub exact : s.handed ≡ slice s.after s.cursor log

pub IsServed-more :
    (log new : List AgentEvent) (s : Subscriber)
    → length log ≤ length (log ++ new)
    → IsServed log s
    → IsServed (log ++ new) s
IsServed-more log new s le w = record {
  forward = w.forward;
  within = omega (arith, w.within, le);
  exact = w.exact ∙ sym (slice-append s.after s.cursor log new w.within w.forward);
}

hand-IsServed :
    (log : List AgentEvent) (e : AgentEvent) (s : Subscriber)
    → IsLog 0 log
    → get_elem? s.cursor log ≡ some e
    → IsServed log s
    → IsServed log (hand e s) × (e.sequence ≡ suc s.cursor)
hand-IsServed log e s l here w =
    let (number, lt) = get_elem?_of_IsLog 0 s.cursor log {e = e} l here in
    let number' : e.sequence ≡ suc s.cursor = omega (arith, number) in
    (
      record {
        forward = omega (arith, number, w.forward);
        within = omega (arith, number, lt);
        exact =
            ap (λ h. h ++ e ∷ []) w.exact
            ∙ slice_snoc s.after s.cursor log {e = e} w.forward here
            ∙ ap (λ c. slice s.after c log) (sym number');
      },
      number',
    )

feed-IsServed :
    (log : List AgentEvent) (t : Option ℕ) (es : List AgentEvent) (s : Subscriber)
    → IsLog 0 log
    → Follows log s.cursor es
    → IsServed log s
    → IsServed log (feed t es s).subscriber
      × ((feed t es s).closed ≡ false → (feed t es s).subscriber.cursor ≡ s.cursor + length es)
unfolding feed
feed-IsServed log t [] s l f w = (w, λ h. omega arith)
feed-IsServed log t (e ∷ es) s l (here, f) w =
    let (served, number) = hand-IsServed log e s l here w in
    let (ih, on) = feed-IsServed log t es (hand e s) l (rw number f) served in
    elim (Bool-cases (is_beyond t e.sequence || not (accepts e s))) [
      | inl out ↦ rw out (w, λ h. cc)
      | inr in_order ↦ rw in_order (elim (Bool-cases (is_last t e.sequence)) [
        | inl ends ↦ rw ends (served, λ h. cc)
        | inr goes ↦ rw goes (ih, λ h. omega (arith, on h, number))
      ])
    ]

feed_kept :
    (t : Option ℕ) (es : List AgentEvent) (s : Subscriber)
    → (feed t es s).subscriber.after ≡ s.after
unfolding feed
feed_kept t [] s = refl
feed_kept t (e ∷ es) s = ground (arith, feed_kept t es (hand e s))

read_all_there :
    {log : List AgentEvent} {c until : ℕ} {events : List AgentEvent} {has_more : Bool}
    → Continues log c events has_more
    → c < until
    → until ≤ length log
    → (not has_more || not (has_events events)) ≡ true
    → c + length events ≡ length log
read_all_there {events = []} {has_more = true} p behind u h =
    absurd (omega (arith, p.proceeds, behind, u))
read_all_there {events = e ∷ es} {has_more = true} p behind u h = cc
read_all_there {has_more = false} p behind u h = p.exhausted refl

goes_on :
    (closed has_more : Bool) (events : List AgentEvent)
    → (closed || not has_more || not (has_events events)) ≡ false
    → (closed ≡ false) × (0 < length events)
goes_on false true [] h = cc
goes_on false true (e ∷ es) h = (refl, omega arith)
goes_on false false events h = cc
goes_on true has_more events h = cc

-- The loop of `subscribe` reaches the channel's cursor, unless the subscriber is closed.
pub catch_up-IsServed :
    (log : List AgentEvent) (read : ℕ → EventPage) (fuel until : ℕ) (t : Option ℕ) (s : Subscriber)
    → IsLog 0 log
    → ((c : ℕ) → c ≤ length log → Continues log c (read c).events (read c).has_more)
    → until ≤ length log
    → length log < fuel + s.cursor
    → IsServed log s
    → let done = catch_up read fuel until t s in
      IsServed log done.subscriber × (done.closed ≡ false → until ≤ done.subscriber.cursor)
unfolding catch_up
catch_up-IsServed log read zero until t s l reads u enough w =
    (w, λ h. absurd (omega (arith, w.within)))
catch_up-IsServed log read (suc fuel) until t s l reads u enough w =
    let page = read s.cursor in
    let there = reads s.cursor w.within in
    let fed = feed page.terminal page.events s in
    let (served, on) = feed-IsServed log page.terminal page.events s l there.follows w in
    let ih = catch_up-IsServed log read fuel until page.terminal fed.subscriber l reads u in
    elim (Bool-cases (ltb s.cursor until)) [
      | inr reached ↦ rw reached (w, λ h. ground arith)
      | inl behind ↦ rw behind (elim (Bool-cases (is_over page.terminal s.cursor)) [
        | inl over ↦ rw over (w, λ h. cc)
        | inr going ↦
            rw going
              (elim (Bool-cases (fed.closed || not page.has_more || not (has_events page.events))) [
                | inl stops ↦ rw stops (
                  served,
                  λ h.
                      omega (
                        arith,
                        on h,
                        u,
                        read_all_there there (ltb→lt _ _ behind) u (rw h at stops),
                      ),
                )
                | inr more ↦ rw more (
                    let (open', some_events) = goes_on fed.closed page.has_more page.events more in
                    ih (omega (arith, on open', some_events, enough)) served)
              ])
      ])
    ]

pub All-append {κ} :
    (P : Subscriber → Type κ) (xs ys : List Subscriber) → All P xs → All P ys → All P (xs ++ ys)
All-append P [] ys hx hy = hy
All-append P (x ∷ xs) ys (h, hx) hy = (h, All-append P xs ys hx hy)

-- An event that every subscriber has reached or takes next.
pub broadcast-IsServed :
    (log : List AgentEvent) (c : ℕ) (e : AgentEvent) (ss : List Subscriber)
    → IsLog 0 log
    → get_elem? c log ≡ some e
    → All (λ s. IsServed log s × (c ≤ s.cursor)) ss
    → All (λ s. IsServed log s × (suc c ≤ s.cursor)) (broadcast e ss).0
      × All (IsServed log) (broadcast e ss).1
unfolding broadcast
broadcast-IsServed log c e [] l here w = (tt, tt)
broadcast-IsServed log c e (s ∷ ss) l here ((served, le), w) =
    let (stay, leave) = broadcast-IsServed log c e ss l here w in
    let (number, lt) = get_elem?_of_IsLog 0 c log {e = e} l here in
    elim (Bool-cases (leb e.sequence s.cursor)) [
      | inl seen ↦ rw seen (((served, omega (arith, leb→le _ _ seen, number)), stay), leave)
      | inr unseen ↦
          let same : s.cursor ≡ c = ground (arith, unseen, number, le) in
          let (handed, n) = hand-IsServed log e s l (rw same here) served in
          rw unseen (elim (Bool-cases (accepts e s)) [
            | inl taken ↦ rw taken (((handed, omega (arith, n, same, number)), stay), leave)
            | inr refused ↦ rw refused (stay, (served, leave))
          ])
    ]

pub record AreServed (log : List AgentEvent) (v : Served) : Type 0 where
  pub within : v.cursor ≤ length log
  pub open_served : All (λ s. IsServed log s × (v.cursor ≤ s.cursor)) v.subscribers
  pub closed_served : All (IsServed log) v.closed

-- The loop of `poll` over a page that continues the log at the channel's cursor.
pub serve-AreServed :
    (log : List AgentEvent) (t : Option ℕ) (es : List AgentEvent) (v : Served)
    → IsLog 0 log
    → Follows log v.cursor es
    → AreServed log v
    → AreServed log (serve t es v)
unfolding serve
serve-AreServed log t [] v l f w = w
serve-AreServed log t (e ∷ es) v l (here, f) w =
    let (stay, leave) = broadcast-IsServed log v.cursor e v.subscribers l here w.open_served in
    let (number, lt) = get_elem?_of_IsLog 0 v.cursor log {e = e} l here in
    let step : e.sequence ≡ suc v.cursor = omega (arith, number) in
    let served : AreServed log (record {
      cursor = e.sequence;
      subscribers = (broadcast e v.subscribers).0;
      closed = v.closed ++ (broadcast e v.subscribers).1;
      terminal = is_last t e.sequence;
    }) =
      record {
        within = omega (arith, step, lt);
        open_served =
            subst (λ k. All (λ s. IsServed log s × (k ≤ s.cursor)) (broadcast e v.subscribers).0)
              (sym step) stay;
        closed_served = All-append (IsServed log) _ _ w.closed_served leave;
      } in
    elim (Bool-cases (is_beyond t e.sequence)) [
      | inl beyond ↦ rw beyond w
      | inr within ↦ rw within (elim (Bool-cases (is_last t e.sequence)) [
        | inl ends ↦ rw ends (rw ends at served)
        | inr goes ↦ rw goes (
            rw goes at
              (serve-AreServed log t es _ l (subst (λ k. Follows log k es) (sym step) f) served))
      ])
    ]
