-- ===== src/Ports/Repository/Pages.antt =====
-- Reading the event log in pages: `readEvents` of src/adapters/in-memory-repository.ts.
use mathlib.Core.List.{append_assoc, append-nil}
use native.Mathlib.Numerals.{add-one}
use mathlib.Core.Bool.{not, ◌&&◌}
use shan_hai_edu_ppt.Base.{
  ℕ, zero, suc, ◌+◌, ◌≤◌, ◌<◌, ◌≡◌, ◌∙◌, ap, sym, refl, ◌⊎◌, inl, inr, Bool, true, false, Option,
  none, some, List, [], ◌∷◌, ◌++◌, length, length-append, take, drop, take-append-drop, length-take,
  arith, if◌then◌else◌, Bool-cases, ltb, lt→ltb,
}
use shan_hai_edu_ppt.Ports.{AgentEvent, StoredRun}
use shan_hai_edu_ppt.Ports.Repository.{last_sequence, after_sequence, fill, read_events}
use shan_hai_edu_ppt.Ports.Repository.Log.{IsLog}

after_sequence_below :
    (n m : ℕ) (es : List AgentEvent) → n ≤ m → IsLog m es → after_sequence n es ≡ es
unfolding after_sequence
after_sequence_below n m [] le h = refl
after_sequence_below n m (e ∷ es) le h =
    ground (arith, after_sequence_below n (m + 1) es (omega arith) h.1)

after_sequence_skip :
    (n : ℕ) (e : AgentEvent) (es : List AgentEvent)
    → e.sequence ≤ n
    → after_sequence n (e ∷ es) ≡ after_sequence n es
unfolding after_sequence
after_sequence_skip n e es le = ground arith

-- A reader that has seen the events `seen` gets exactly the others.
after_sequence_rest :
    (m : ℕ) (seen rest : List AgentEvent)
    → IsLog m (seen ++ rest)
    → (m ≤ last_sequence m seen) × (after_sequence (last_sequence m seen) (seen ++ rest) ≡ rest)
unfolding last_sequence
after_sequence_rest m [] rest h = (omega arith, after_sequence_below m m rest (omega arith) h)
after_sequence_rest m (e ∷ seen) rest h =
    let (le, ih) = after_sequence_rest (m + 1) seen rest h.1 in
    let same : last_sequence e.sequence seen ≡ last_sequence (m + 1) seen =
      ap (λ k. last_sequence k seen) h.0 in
    (
      omega (arith, same, le),
      after_sequence_skip _ e _ (omega (arith, same, le, h.0))
          ∙ ap (λ k. after_sequence k (seen ++ rest)) same
          ∙ ih,
    )

last_sequence-append :
    (n : ℕ) (xs ys : List AgentEvent)
    → last_sequence n (xs ++ ys) ≡ last_sequence (last_sequence n xs) ys
unfolding last_sequence
last_sequence-append n [] ys = refl
last_sequence-append n (x ∷ xs) ys = last_sequence-append x.sequence xs ys

take-take : (n : ℕ) (xs : List AgentEvent) → take n (take (suc n) xs) ≡ take n xs
take-take zero xs = refl
take-take (suc n) [] = refl
take-take (suc n) (x ∷ xs) = ap (λ l. x ∷ l) (take-take n xs)

take_again : (n : ℕ) (xs : List AgentEvent) → take n (take (n + 1) xs) ≡ take n xs
take_again n xs = rw add-one (take-take n xs)

list_cases : (l : List AgentEvent) → (l ≡ []) ⊎ (0 < length l)
list_cases [] = inl refl
list_cases (x ∷ xs) = inr (omega arith)

module _ (size : AgentEvent → ℕ) (max_bytes : ℕ) where
  fill_prefix :
      (first : Bool) (taken : ℕ) (es : List AgentEvent)
      → (rest : List AgentEvent) × (fill size max_bytes first taken es ++ rest ≡ es)
  unfolding fill
  fill_prefix first taken [] = ([], refl)
  fill_prefix first taken (e ∷ es) =
      elim (Bool-cases (not first && ltb max_bytes (taken + size e))) [
        | inl full ↦ (e ∷ es, rw full)
        | inr fits ↦
            let (rest, h) = fill_prefix false (taken + size e) es in
            (rest, rw fits (ap (λ l. e ∷ l) h))
      ]

  fill_nonempty :
      (limit : ℕ) (rest : List AgentEvent)
      → 0 < limit
      → (rest ≡ []) ⊎ (0 < length (fill size max_bytes true 0 (take limit rest)))
  unfolding fill
  fill_nonempty zero rest l = absurd (omega arith)
  fill_nonempty (suc n) [] l = inl refl
  fill_nonempty (suc n) (e ∷ es) l = inr (omega arith)

  fill-take :
      (limit : ℕ) (rest : List AgentEvent)
      → let events = fill size max_bytes true 0 (take limit rest) in
        (left : List AgentEvent) × (rest ≡ events ++ left) × (length events ≤ limit)
  fill-take limit rest =
      let (more, h) = fill_prefix true 0 (take limit rest) in
      let events = fill size max_bytes true 0 (take limit rest) in
      (
        more ++ drop limit rest,
        sym (take-append-drop limit rest)
            ∙ ap (λ l. l ++ drop limit rest) (sym h)
            ∙ append_assoc events more (drop limit rest),
        omega (arith, ap length h, length-append events more, length-take limit rest),
      )

has_more_lem :
    (limit : ℕ) (events left rest : List AgentEvent)
    → rest ≡ events ++ left
    → length events ≤ limit
    → ltb (length events) (length (take (limit + 1) rest)) ≡ ltb 0 (length left)
has_more_lem limit events left rest e le =
    ground (arith, length-take (limit + 1) rest, length-append events left, ap length e)

-- The page after the events `seen`: it continues them, and says whether events are left.
pub read_events-page :
    (size : AgentEvent → ℕ) (s : StoredRun) (seen rest : List AgentEvent) (limit max_bytes : ℕ)
    → s.events ≡ seen ++ rest
    → IsLog 0 s.events
    → 0 < limit
    → let page = read_events size s (last_sequence 0 seen) limit max_bytes in
      (left : List AgentEvent) × (rest ≡ page.events ++ left)
      × (page.next_after ≡ last_sequence 0 (seen ++ page.events))
      × (page.has_more ≡ ltb 0 (length left))
      × ((rest ≡ []) ⊎ (0 < length page.events))
unfolding read_events
read_events-page size s seen rest limit max_bytes e h l = rw e (
    rw ((after_sequence_rest 0 seen rest (rw e at h)).1) (
      rw (take_again limit rest) (
        left,
        split,
        sym (last_sequence-append 0 seen events),
        has_more_lem limit events left rest split bound,
        fill_nonempty size max_bytes limit rest l,
      )))
  where
    events : List AgentEvent
    events = fill size max_bytes true 0 (take limit rest)

    left : List AgentEvent
    left = (fill-take size max_bytes limit rest).0

    split : rest ≡ events ++ left
    split = (fill-take size max_bytes limit rest).1

    bound : length events ≤ limit
    bound = (fill-take size max_bytes limit rest).2

shorter :
    (events left rest : List AgentEvent) {fuel : ℕ}
    → rest ≡ events ++ left
    → 0 < length left
    → (rest ≡ []) ⊎ (0 < length events)
    → length rest < suc fuel
    → length left < fuel
shorter events left rest e left_some (inl none_left) lt =
    absurd (omega (arith, ap length e, ap length none_left, length-append events left))
shorter events left rest e left_some (inr some_read) lt =
    omega (arith, ap length e, length-append events left)

-- The events of a page, and those that are read after it.
read_on_from : List AgentEvent → Option (List AgentEvent) → Option (List AgentEvent)
read_on_from es none = none
read_on_from es (some more) = some (es ++ more)

-- A reader that asks for page after page, from the last sequence that it has seen, until a page
-- says that nothing is left: `none` when it is still asking after the reads it is given.
pub read_all : (AgentEvent → ℕ) → StoredRun → ℕ → ℕ → ℕ → ℕ → Option (List AgentEvent)
read_all size s limit max_bytes zero after = none
read_all size s limit max_bytes (suc fuel) after =
    let page = read_events size s after limit max_bytes in
    let rest = read_all size s limit max_bytes fuel page.next_after in
    if page.has_more then read_on_from page.events rest else some page.events

read_on :
    (size : AgentEvent → ℕ) (s : StoredRun) (limit max_bytes : ℕ)
    → IsLog 0 s.events
    → 0 < limit
    → (fuel : ℕ) (seen rest : List AgentEvent) → s.events ≡ seen ++ rest
    → length rest < fuel
    → read_all size s limit max_bytes fuel (last_sequence 0 seen) ≡ some rest
unfolding read_all read_on_from
read_on size s limit max_bytes h l zero seen rest e lt = absurd (omega arith)
read_on size s limit max_bytes h l (suc fuel) seen rest e lt =
    let (left, split, at, more, some_read) =
      read_events-page size s seen rest limit max_bytes e h l in
    let page = read_events size s (last_sequence 0 seen) limit max_bytes in
    elim (list_cases left) [
      | inl done ↦ rw more (
          rw done
            (ap some (sym (split ∙ ap (λ k. page.events ++ k) done ∙ append-nil page.events))))
      | inr left_some ↦ rw more (
          rw (lt→ltb _ _ left_some) (
            rw at (
              ap (read_on_from page.events) (
                read_on size s limit max_bytes h l fuel (seen ++ page.events) left
                  (e ∙ ap (λ k. seen ++ k) split ∙ sym (append_assoc seen page.events left))
                  (shorter page.events left rest split left_some some_read lt))
              ∙ ap some (sym split))))
    ]

-- Reading in pages delivers the log completely: for a log numbered from 1, whatever the page limit
-- (at least one event) and the byte limit, a reader that starts at 0 and always asks from the last
-- sequence it has seen gets every event once, in order, and stops, within one read more than there
-- are events, at a page that says that nothing is left.
pub replay_complete :
    (size : AgentEvent → ℕ) (s : StoredRun) (limit max_bytes fuel : ℕ)
    → IsLog 0 s.events
    → 0 < limit
    → length s.events < fuel
    → read_all size s limit max_bytes fuel 0 ≡ some s.events
unfolding last_sequence
replay_complete size s limit max_bytes fuel h l f =
    read_on size s limit max_bytes h l fuel [] s.events refl f
