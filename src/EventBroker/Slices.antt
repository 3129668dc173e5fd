-- ===== src/EventBroker/Slices.antt =====
-- The part of an event log between two cursors, and the pages that continue it.
use shan_hai_edu_ppt.Base.{
  ℕ, zero, suc, ◌+◌, ◌≤◌, ◌<◌, ◌≡◌, ap, sym, refl, ◌⊎◌, inl, inr, Bool, false, Option, none, some,
  List, [], ◌∷◌, ◌++◌, length, length-append, take, drop, take-append-drop, length-take, arith, ltb,
}
use shan_hai_edu_ppt.Ports.{AgentEvent, StoredRun}
use shan_hai_edu_ppt.Ports.Repository.{read_events, last_sequence}
use shan_hai_edu_ppt.Ports.Repository.Log.{IsLog, last_sequence_of_IsLog}
use shan_hai_edu_ppt.Ports.Repository.Pages.{read_events-page}

abbrev pub get_elem? : ℕ → List AgentEvent → Option AgentEvent
get_elem? c [] = none
get_elem? zero (e ∷ es) = some e
get_elem? (suc c) (e ∷ es) = get_elem? c es

-- The events after the cursor `a`, up to the cursor `c`.
abbrev pub slice : ℕ → ℕ → List AgentEvent → List AgentEvent
slice a c [] = []
slice a zero (e ∷ es) = []
slice zero (suc c) (e ∷ es) = e ∷ slice zero c es
slice (suc a) (suc c) (e ∷ es) = slice a c es

pub slice_empty : (a : ℕ) (es : List AgentEvent) → slice a a es ≡ []
slice_empty a [] = refl
slice_empty zero (e ∷ es) = refl
slice_empty (suc a) (e ∷ es) = slice_empty a es

pub slice_snoc :
    (a c : ℕ) (es : List AgentEvent) {e : AgentEvent}
    → a ≤ c
    → get_elem? c es ≡ some e
    → slice a c es ++ e ∷ [] ≡ slice a (suc c) es
slice_snoc a c [] le h = cc
slice_snoc zero zero (d ∷ []) le h = ground arith
slice_snoc zero zero (d ∷ x ∷ es) le h = ground arith
slice_snoc zero (suc c) (d ∷ es) {e} le h =
    ap (λ l. d ∷ l) (slice_snoc zero c es {e = e} (omega arith) h)
slice_snoc (suc a) zero (d ∷ es) le h = absurd (omega arith)
slice_snoc (suc a) (suc c) (d ∷ es) {e} le h = slice_snoc a c es {e = e} (omega arith) h

pub slice-append :
    (a c : ℕ) (es new : List AgentEvent)
    → c ≤ length es
    → a ≤ c
    → slice a c (es ++ new) ≡ slice a c es
slice-append a zero [] [] le ac = refl
slice-append a zero [] (d ∷ new) le ac = refl
slice-append a (suc c) [] new le ac = absurd (omega arith)
slice-append a zero (e ∷ es) new le ac = refl
slice-append zero (suc c) (e ∷ es) new le ac =
    ap (λ l. e ∷ l) (slice-append zero c es new (omega arith) (omega arith))
slice-append (suc a) (suc c) (e ∷ es) new le ac =
    slice-append a c es new (omega arith) (omega arith)

pub get_elem?-append :
    (c : ℕ) (es new : List AgentEvent) {e : AgentEvent}
    → get_elem? c es ≡ some e
    → get_elem? c (es ++ new) ≡ some e
get_elem?-append c [] new h = cc
get_elem?-append zero (d ∷ es) new h = h
get_elem?-append (suc c) (d ∷ es) new {e} h = get_elem?-append c es new {e = e} h

pub get_elem?_of_IsLog :
    (n c : ℕ) (es : List AgentEvent) {e : AgentEvent}
    → IsLog n es
    → get_elem? c es ≡ some e
    → (e.sequence ≡ n + c + 1) × (c < length es)
get_elem?_of_IsLog n c [] l h = cc
get_elem?_of_IsLog n zero (d ∷ es) l h = ground (arith, l.0)
get_elem?_of_IsLog n (suc c) (d ∷ es) {e} l h =
    let (at, lt) = get_elem?_of_IsLog (n + 1) c es {e = e} l.1 h in (omega arith, omega arith)

-- `es` stands in the log right after the cursor `c`.
abbrev pub Follows : List AgentEvent → ℕ → List AgentEvent → Type 0
Follows log c [] = Unit
Follows log c (e ∷ es) = (get_elem? c log ≡ some e) × Follows log (suc c) es

pub Follows-more :
    (log new : List AgentEvent) (c : ℕ) (es : List AgentEvent)
    → Follows log c es
    → Follows (log ++ new) c es
Follows-more log new c [] f = tt
Follows-more log new c (e ∷ es) (here, f) =
    (get_elem?-append c log new {e = e} here, Follows-more log new (suc c) es f)

Follows-tail :
    (d : AgentEvent) (log : List AgentEvent) (c : ℕ) (es : List AgentEvent)
    → Follows log c es
    → Follows (d ∷ log) (suc c) es
Follows-tail d log c [] f = tt
Follows-tail d log c (e ∷ es) (here, f) = (here, Follows-tail d log (suc c) es f)

Follows-here : (es left : List AgentEvent) → Follows (es ++ left) 0 es
Follows-here [] left = tt
Follows-here (e ∷ es) left = (refl, Follows-tail e (es ++ left) 0 es (Follows-here es left))

Follows-split : (seen es left : List AgentEvent) → Follows (seen ++ (es ++ left)) (length seen) es
Follows-split [] es left = Follows-here es left
Follows-split (d ∷ seen) es left =
    Follows-tail d (seen ++ (es ++ left)) (length seen) es (Follows-split seen es left)

IsLog-prefix : (n : ℕ) (xs ys : List AgentEvent) → IsLog n (xs ++ ys) → IsLog n xs
IsLog-prefix n [] ys h = tt
IsLog-prefix n (x ∷ xs) ys h = (h.0, IsLog-prefix (n + 1) xs ys h.1)

-- What a page that is read at a cursor of the log gives.
pub record Continues (log : List AgentEvent) (c : ℕ) (events : List AgentEvent) (has_more : Bool)
    : Type 0 where
  pub follows : Follows log c events
  pub bounded : c + length events ≤ length log
  pub exhausted : has_more ≡ false → c + length events ≡ length log
  pub proceeds : c < length log → 0 < length events

Continues-split :
    (seen rest events left : List AgentEvent) (has_more : Bool) {log : List AgentEvent}
    → log ≡ seen ++ rest
    → rest ≡ events ++ left
    → has_more ≡ ltb 0 (length left)
    → (rest ≡ []) ⊎ (0 < length events)
    → Continues log (length seen) events has_more
Continues-split seen rest events left has_more e split more some_read = rw e (record {
  follows = rw split (Follows-split seen events left);
  bounded = omega (arith, ap length split, length-append events left, length-append seen rest);
  exhausted = λ h.
      ground (arith, ap length split, length-append events left, length-append seen rest, more, h);
  proceeds = λ lt. elim some_read [
    | inl none_left ↦ absurd (omega (arith, ap length none_left, length-append seen rest))
    | inr some_left ↦ some_left
  ];
})

pub read_events-Continues :
    (size : AgentEvent → ℕ) (run : StoredRun) (c limit max_bytes : ℕ)
    → IsLog 0 run.events
    → 0 < limit
    → c ≤ length run.events
    → let page = read_events size run c limit max_bytes in
      Continues run.events c page.events page.has_more
read_events-Continues size run c limit max_bytes log l le =
    let seen = take c run.events in
    let rest = drop c run.events in
    let e : run.events ≡ seen ++ rest = sym (take-append-drop c run.events) in
    let len : length seen ≡ c = omega (arith, length-take c run.events) in
    let reached : last_sequence 0 seen ≡ c =
      omega (arith, last_sequence_of_IsLog 0 seen (IsLog-prefix 0 seen rest (rw e at log)), len) in
    let (left, split, next, more, some_read) =
      read_events-page size run seen rest limit max_bytes e log l in
    let page = read_events size run (last_sequence 0 seen) limit max_bytes in
    let there : Continues run.events (length seen) page.events page.has_more =
      Continues-split seen rest page.events left page.has_more e split more some_read in
    rw (len, reached) at there
