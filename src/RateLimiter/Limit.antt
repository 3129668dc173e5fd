-- ===== src/RateLimiter/Limit.antt =====
-- The limit on a key's requests: src/http/principal-rate-limiter.ts.
use shan_hai_edu_ppt.Base.{
  ℕ, ◌+◌, ◌≤◌, ◌<◌, ◌≡◌, ◌∙◌, refl, sym, ap, inl, inr, true, false, some, List, [], ◌∷◌, arith, All,
  Bool-cases, Option-cases, leb, length, if◌then◌else◌,
}
use shan_hai_edu_ppt.RateLimiter.{
  Scope, create_run, run_action, Key, Window, Limiter, allowed, policy_of, find, delete, put, sweep,
  is_live, consume_at, count_and_sweep, open_window, first_window,
}
use shan_hai_edu_ppt.RateLimiter.Windows.{
  IsMap, find-live_entries_dead, find-live_entries_new, find-put,
}
use shan_hai_edu_ppt.RateLimiter.Requests.{
  counted, consume-Counts, consume_new, consume_dead, policy_of_sweep, policy_of_entries,
  is_key_self,
}

-- How many of a sequence of requests are granted to a key.
pub granted : Key → List (Key × ℕ) → Limiter → ℕ
granted k [] l = 0
granted k ((j, now) ∷ rest) l =
    counted j k (consume_at j now l).1 + granted k rest (consume_at j now l).0

All-is_live :
    (v w : Window) (requests : List (Key × ℕ))
    → w.started_at ≡ v.started_at
    → w.resets_at ≡ v.resets_at
    → All (λ r. is_live r.1 v ≡ true) requests
    → All (λ r. is_live r.1 w ≡ true) requests
All-is_live v w [] start reset a = tt
All-is_live v w ((j, now) ∷ rest) start reset a =
    (rw (start, reset) a.0, All-is_live v w rest start reset a.1)

counted_granted-le-limit :
    (k : Key) (requests : List (Key × ℕ)) (l : Limiter) (w : Window)
    → find k l.entries ≡ some w
    → w.count ≤ (policy_of l k.scope).limit
    → All (λ r. is_live r.1 w ≡ true) requests
    → w.count + granted k requests l ≤ (policy_of l k.scope).limit
unfolding granted
counted_granted-le-limit k [] l w h b live = omega arith
counted_granted-le-limit k ((j, now) ∷ rest) l w h b live =
    let c = consume-Counts j k now l w h live.0 in
    let limit = ap (λ p. p.limit) c.policy_kept in
    let ih =
      counted_granted-le-limit k rest (consume_at j now l).0 c.after c.found
        (omega (arith, c.bounded b, limit))
        (All-is_live w c.after rest c.same_start c.same_reset live.1) in
    omega (arith, c.counts, ih, limit)

policy_of_swept : (now : ℕ) (l : Limiter) (s : Scope) → policy_of (sweep now l) s ≡ policy_of l s
policy_of_swept now l create_run = refl
policy_of_swept now l run_action = refl

-- A window of the key that is left by the request before it is looked up has run out.
swept_dead :
    (k : Key) (now : ℕ) (l : Limiter) (w : Window)
    → IsMap l.entries
    → ((v : Window) → find k l.entries ≡ some v → is_live now v ≡ false)
    → find k (count_and_sweep now l).entries ≡ some w
    → is_live now w ≡ false
swept_dead k now l w m dead h = elim (Bool-cases (leb 256 (l.requests_since_sweep + 1))) [
  | inl sweeps ↦ elim (Option-cases (find k l.entries)) [
    | inl new ↦
        let gone = find-live_entries_new now k l.entries new in
        absurd (ground (arith, gone, rw sweeps at h))
    | inr (v, old) ↦
        let gone = find-live_entries_dead now k l.entries m old (dead v old) in
        absurd (ground (arith, gone, rw sweeps at h))
  ]
  | inr stays ↦ dead w (rw stays at h)
]

All-is_live_first :
    (k : Key) (now : ℕ) (l : Limiter) (requests : List (Key × ℕ))
    → All (λ r. (now ≤ r.1) × (r.1 < now + (policy_of l k.scope).window_ms)) requests
    → All (λ r. is_live r.1 (first_window l k now) ≡ true) requests
All-is_live_first k now l [] a = tt
All-is_live_first k now l ((j, later) ∷ rest) ((from, to), a) =
    (ground (arith, from, to), All-is_live_first k now l rest a)

open_window-opens :
    (k : Key) (now : ℕ) (l : Limiter)
    → (open_window k now l).1 ≡ allowed
    → (find k (open_window k now l).0.entries ≡ some (first_window l k now))
      × (policy_of (open_window k now l).0 k.scope ≡ policy_of l k.scope)
unfolding open_window
open_window-opens k now l granted_it = elim (Bool-cases (leb m.max_entries (length m.entries))) [
  | inl full ↦ absurd (ground (arith, full))
  | inr room ↦ rw room (
    find-put k k (first_window m k now) m.entries
        ∙ rw (is_key_self k) (
            ap some (
              ap (λ p. record { count = 1; started_at = now; resets_at = now + p.window_ms })
                same)),
    policy_of_entries m (put k (first_window m k now) m.entries) k.scope ∙ same,
  )
]
  where
    m : Limiter
    m = if leb l.max_entries (length l.entries) then sweep now l else l

    same : policy_of m k.scope ≡ policy_of l k.scope
    same = elim (Bool-cases (leb l.max_entries (length l.entries))) [
      | inl full ↦ rw full (policy_of_swept now l k.scope)
      | inr room ↦ rw room refl
    ]

-- A key without a window that runs, whose request is granted, gets a window that counts it.
consume-opens :
    (k : Key) (now : ℕ) (l : Limiter)
    → IsMap l.entries
    → ((w : Window) → find k l.entries ≡ some w → is_live now w ≡ false)
    → (consume_at k now l).1 ≡ allowed
    → (find k (consume_at k now l).0.entries ≡ some (first_window l k now))
      × (policy_of (consume_at k now l).0 k.scope ≡ policy_of l k.scope)
consume-opens k now l m dead granted_it = elim (Option-cases (find k n.entries)) [
  | inl new ↦ opens n (consume_new k now l new) (policy_of_sweep l now k.scope) granted_it
  | inr (w, old) ↦
      opens (record n { entries = delete k n.entries })
        (consume_dead k now l w old (swept_dead k now l w m dead old))
        (policy_of_entries n (delete k n.entries) k.scope ∙ policy_of_sweep l now k.scope)
        granted_it
]
  where
    n : Limiter
    n = count_and_sweep now l

    opens :
        (o : Limiter)
        → consume_at k now l ≡ open_window k now o
        → policy_of o k.scope ≡ policy_of l k.scope
        → (consume_at k now l).1 ≡ allowed
        → (find k (consume_at k now l).0.entries ≡ some (first_window l k now))
          × (policy_of (consume_at k now l).0 k.scope ≡ policy_of l k.scope)
    opens o path same answer =
        let (found, policy) = open_window-opens k now o (ap (λ r. r.1) (sym path) ∙ answer) in
        rw path (
          found
              ∙ ap some (
                  ap (λ p. record { count = 1; started_at = now; resets_at = now + p.window_ms })
                    same),
          policy ∙ same,
        )

-- The limit of a window: when a key has no window that runs (in a table that holds each key once)
-- and its request is granted, the requests granted to the key from then until `window_ms` later,
-- that first one included, never exceed the limit of its policy, which is positive, however many
-- requests come, of this key and of others, and whatever is swept away.
pub granted-le-limit :
    (k : Key) (now : ℕ) (requests : List (Key × ℕ)) (l : Limiter)
    → IsMap l.entries
    → 0 < (policy_of l k.scope).limit
    → ((w : Window) → find k l.entries ≡ some w → is_live now w ≡ false)
    → (consume_at k now l).1 ≡ allowed
    → All (λ r. (now ≤ r.1) × (r.1 < now + (policy_of l k.scope).window_ms)) requests
    → granted k ((k, now) ∷ requests) l ≤ (policy_of l k.scope).limit
unfolding granted
granted-le-limit k now requests l m some_limit dead granted_it within =
    let (found, policy) = consume-opens k now l m dead granted_it in
    let limit = ap (λ p. p.limit) policy in
    let rest =
      counted_granted-le-limit k requests (consume_at k now l).0 (first_window l k now) found
        (omega (arith, limit, some_limit)) (All-is_live_first k now l requests within) in
    rw granted_it (rw (is_key_self k) (omega (arith, rest, limit)))
