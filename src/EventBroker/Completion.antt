-- ===== src/EventBroker/Completion.antt =====
-- A client of src/http/run-event-broker.ts that stays gets the whole log.
use shan_hai_edu_ppt.Base.{
  ℕ, zero, suc, ◌+◌, ◌≤◌, ◌<◌, ◌≡◌, ◌∙◌, ap, subst, sym, refl, true, false, none, some, List, [],
  ◌∷◌, length, All, arith,
}
use shan_hai_edu_ppt.Ports.{AgentEvent, StoredRun}
use shan_hai_edu_ppt.Ports.Repository.{EventPage, terminal_sequence, read_events}
use shan_hai_edu_ppt.Ports.Repository.Log.{IsLog}
use shan_hai_edu_ppt.EventBroker.{Subscriber, has_subscribers, Broker, read}
use shan_hai_edu_ppt.EventBroker.Poll.{take_events, fire}
use shan_hai_edu_ppt.EventBroker.Slices.{slice, Continues, read_events-Continues}
use shan_hai_edu_ppt.EventBroker.Delivery.{IsServed}
use shan_hai_edu_ppt.EventBroker.Streams.{BrokerServed, arrive-BrokerServed, fire_on-OptionServed}
use shan_hai_edu_ppt.EventBroker.Reach.{World, new_world, Reach, Reach-IsServedWorld}
use shan_hai_edu_ppt.EventBroker.Rounds.{
  IsWilling, ids, same_ids, waiting_channel, polling_channel, round, rounds, round_lem,
  take_events_willing,
}

at_end :
    (log : List AgentEvent) (ss : List Subscriber)
    → All (λ s. IsServed log s × (length log ≤ s.cursor)) ss
    → All (λ s. s.handed ≡ slice s.after (length log) log) ss
at_end log [] w = tt
at_end log (s ∷ ss) (h, w) =
    let there : s.cursor ≡ length log = omega (arith, h.0.within, h.1) in
    (h.0.exact ∙ ap (λ c. slice s.after c log) there, at_end log ss w)

-- What is left after a number of rounds.
pub record Delivered (log : List AgentEvent) (ss : List Subscriber) (b : Broker) : Type 0 where
  pub delay : ℕ
  pub left : List Subscriber
  pub closed : List Subscriber
  pub all_left : ids left ≡ ids ss
  pub all_handed : All (λ s. s.handed ≡ slice s.after (length log) log) left
  pub waits :
      b ≡ record { channel = some (waiting_channel delay (length log) none left); closed = closed }

module _ (log : List AgentEvent) (read : ℕ → EventPage) (poll_ms : ℕ) where
  round-BrokerServed :
      (b : Broker)
      → IsLog 0 log
      → ((k : ℕ) → k ≤ length log → Continues log k (read k).events (read k).has_more)
      → BrokerServed log b
      → BrokerServed log (round read poll_ms b)
  unfolding round fire
  round-BrokerServed b l reads w = arrive-BrokerServed log poll_ms (fire read false b) l (record {
    channel_served = fire_on-OptionServed log read false b.channel reads w.channel_served;
    closed_served = w.closed_served;
  })

  rounds_from :
      (n delay cursor : ℕ) (ss closed : List Subscriber)
      → IsLog 0 log
      → ((k : ℕ) → k ≤ length log → Continues log k (read k).events (read k).has_more)
      → ((k : ℕ) → (read k).terminal ≡ none)
      → has_subscribers ss ≡ true
      → All IsWilling ss
      → length log ≤ cursor + n
      → BrokerServed log
          (record { channel = some (waiting_channel delay cursor none ss); closed = closed })
      → Delivered log ss (
          rounds read poll_ms n
            (record { channel = some (waiting_channel delay cursor none ss); closed = closed }))
  unfolding rounds
  rounds_from zero delay cursor ss closed l reads open' h w le s =
      let there : cursor ≡ length log = omega (arith, le, s.channel_served.within) in
      subst
        (λ k.
          Delivered log ss
            (record { channel = some (waiting_channel delay k none ss); closed = closed }))
        (sym there)
        (record {
          delay = delay;
          left = ss;
          closed = closed;
          all_left = refl;
          all_handed = at_end log ss (
              subst (λ k. All (λ s. IsServed log s × (k ≤ s.cursor)) ss) there
                s.channel_served.open_served);
          waits = refl;
        })
  rounds_from (suc n) delay cursor ss closed l reads open' h w le s =
      let b : Broker = record {
        channel = some (waiting_channel delay cursor none ss);
        closed = closed;
      } in
      let page = read cursor in
      let there = reads cursor s.channel_served.within in
      let moved : round read poll_ms b
          ≡ take_events poll_ms none page.events page.has_more (polling_channel page cursor none ss)
              closed =
        round_lem read poll_ms delay cursor none ss closed h
        ∙ ap
            (λ t.
              take_events poll_ms t page.events page.has_more (polling_channel page cursor none ss)
                closed)
            (open' cursor) in
      let on = take_events_willing log poll_ms cursor page none ss closed l there.follows h w in
      let there' = moved ∙ on.left_on in
      let served : BrokerServed log (round read poll_ms b) = round-BrokerServed b l reads s in
      let rest =
        rounds_from n poll_ms (cursor + length page.events) on.left on.closed l reads open'
          (same_ids on.left ss on.left_same ∙ h) on.left_willing
          (ground (arith, le, there.proceeds)) (subst (BrokerServed log) there' served) in
      subst (λ x. Delivered log ss (rounds read poll_ms n x)) (sym there')
        (record {
          delay = rest.delay;
          left = rest.left;
          closed = rest.closed;
          all_left = rest.all_left ∙ on.left_same;
          all_handed = rest.all_handed;
          waits = rest.waits;
        })

-- On a run that has not ended, reached under the same conditions (pages hold at least one event, no
-- client ever came with a cursor past the end of the log, and nothing else happened to the broker
-- while a client caught up): if the channel waits for its timer with willing clients, then after as
-- many polls as the log has events the same clients are there and each has been handed exactly the
-- events after the cursor that it came with, to the end of the log.
pub open_completes :
    (size : AgentEvent → ℕ) (limit max_bytes poll_ms : ℕ) (run : StoredRun) {w : World}
    (delay cursor : ℕ) (ss : List Subscriber)
    → IsLog 0 run.events
    → 0 < limit
    → Reach size limit max_bytes poll_ms (new_world run) w
    → terminal_sequence w.run ≡ none
    → w.broker.channel ≡ some (waiting_channel delay cursor none ss)
    → has_subscribers ss ≡ true
    → All IsWilling ss
    → Delivered w.run.events ss
        (rounds (read size limit max_bytes w.run) poll_ms (length w.run.events) w.broker)
unfolding read_events
open_completes size limit max_bytes poll_ms run {w} delay cursor ss log l r ends e h willing =
    let (log', s) =
      Reach-IsServedWorld size limit max_bytes poll_ms l r
        (log, record { channel_served = tt; closed_served = tt }) in
    let same : w.broker ≡ record {
      channel = some (waiting_channel delay cursor none ss);
      closed = w.broker.closed;
    } =
      ap (λ c. record { channel = c; closed = w.broker.closed }) e in
    subst
      (λ b.
        Delivered w.run.events ss
          (rounds (read size limit max_bytes w.run) poll_ms (length w.run.events) b))
      (sym same)
      (rounds_from w.run.events (read size limit max_bytes w.run) poll_ms (length w.run.events)
        delay cursor ss w.broker.closed log'
        (λ k le. read_events-Continues size w.run k limit max_bytes log' l le) (λ k. ends) h willing
        (omega arith) (subst (BrokerServed w.run.events) same s))
