-- ===== src/RateLimiter/Retry.antt =====
-- The size of the table and the time to retry after: src/http/principal-rate-limiter.ts.
use shan_hai_edu_ppt.Base.{
  ℕ, ◌+◌, ◌*◌, ◌≤◌, ◌<◌, ◌≡◌, refl, sym, ap, ◌⊎◌, ◌∙◌, true, false, some, [], ◌∷◌, inl, inr, arith,
  length, if◌then◌else◌, Bool-cases, Option-cases, length-keep-le, leb,
}
use shan_hai_edu_ppt.RateLimiter.{
  Key, is_key, Window, Limiter, allowed, refused, policy_of, find, delete, put, is_live,
  live_entries, sweep, count_and_sweep, open_window, count_request, consume_at, first_window,
  retry_after_seconds,
}
use shan_hai_edu_ppt.RateLimiter.Windows.{
  Entries, IsMap, put-IsMap, live_entries-IsMap, delete-IsMap, find-live_entries_dead,
  length-put-le, length-put_of_some, length-delete-lt,
}
use shan_hai_edu_ppt.RateLimiter.Requests.{
  count_and_sweep_keeps, consume_live, consume_dead, consume_new,
}

length-live_entries : (now : ℕ) (es : Entries) → length (live_entries now es) ≤ length es
unfolding live_entries
length-live_entries now es = length-keep-le (λ e. is_live now e.1) es

length-live_entries-lt :
    (k : Key) (now : ℕ) (es : Entries) {w : Window}
    → find k es ≡ some w
    → is_live now w ≡ false
    → length (live_entries now es) < length es
unfolding find live_entries
length-live_entries-lt k now [] h dead = cc
length-live_entries-lt k now ((j, u) ∷ es) {w} h dead = elim (Bool-cases (is_key j k)) [
  | inl same ↦ ground (arith, length-keep-le (λ e. is_live now e.1) es)
  | inr other ↦ ground (arith, length-live_entries-lt k now es {w = w} (ground arith) dead)
]

-- No key stands twice in the table, which holds no more windows than it may.
pub record IsTable (l : Limiter) : Type 0 where
  pub unique : IsMap l.entries
  pub fits : length l.entries ≤ l.max_entries

count_and_sweep-IsTable : (now : ℕ) (l : Limiter) → IsTable l → IsTable (count_and_sweep now l)
count_and_sweep-IsTable now l t = elim (Bool-cases (leb 256 (l.requests_since_sweep + 1))) [
  | inl sweeps ↦ rw sweeps (record {
    unique = live_entries-IsMap now l.entries t.unique;
    fits = omega (arith, length-live_entries now l.entries, t.fits);
  })
  | inr stays ↦ rw stays (record { unique = t.unique; fits = t.fits })
]

sweep_if_full-IsTable :
    (now : ℕ) (l : Limiter)
    → IsTable l
    → IsTable (if leb l.max_entries (length l.entries) then sweep now l else l)
sweep_if_full-IsTable now l t = elim (Bool-cases (leb l.max_entries (length l.entries))) [
  | inl full ↦ rw full (record {
    unique = live_entries-IsMap now l.entries t.unique;
    fits = omega (arith, length-live_entries now l.entries, t.fits);
  })
  | inr free ↦ rw free t
]

put-IsTable :
    (k : Key) (w : Window) (l : Limiter)
    → IsTable l
    → (length l.entries < l.max_entries) ⊎ ((v : Window) × (find k l.entries ≡ some v))
    → IsTable (record l { entries = put k w l.entries })
put-IsTable k w l t (inl room) = record {
  unique = put-IsMap k w l.entries t.unique;
  fits = omega (arith, length-put-le k w l.entries);
}
put-IsTable k w l t (inr (v, old)) = record {
  unique = put-IsMap k w l.entries t.unique;
  fits = omega (arith, length-put_of_some k w l.entries old, t.fits);
}

open_window-IsTable :
    (k : Key) (now : ℕ) (l : Limiter) → IsTable l → IsTable (open_window k now l).0
unfolding open_window
open_window-IsTable k now l t = elim (Bool-cases (leb m.max_entries (length m.entries))) [
  | inl full ↦ rw full table
  | inr free ↦ rw free (put-IsTable k (first_window m k now) m table (inl (ground (arith, free))))
]
  where
    m : Limiter
    m = if leb l.max_entries (length l.entries) then sweep now l else l

    table : IsTable m
    table = sweep_if_full-IsTable now l t

count_request-IsTable :
    (k : Key) (now : ℕ) (w : Window) (l : Limiter)
    → find k l.entries ≡ some w
    → IsTable l
    → IsTable (count_request k now w l).0
unfolding count_request
count_request-IsTable k now w l h t = elim (Bool-cases (leb (policy_of l k.scope).limit w.count)) [
  | inl full ↦ rw full t
  | inr free ↦ rw free (put-IsTable k (record w { count = w.count + 1 }) l t (inr (w, h)))
]

delete-IsTable :
    (k : Key) (w : Window) (l : Limiter)
    → find k l.entries ≡ some w
    → IsTable l
    → IsTable (record l { entries = delete k l.entries })
delete-IsTable k w l h t = record {
  unique = delete-IsMap k l.entries t.unique;
  fits = omega (arith, length-delete-lt k l.entries h, t.fits);
}

-- A request leaves at most one window per key and no more windows than the table may hold, whatever
-- its key and its time.
pub consume_at-IsTable :
    (k : Key) (now : ℕ) (l : Limiter) → IsTable l → IsTable (consume_at k now l).0
consume_at-IsTable k now l t = elim (Option-cases (find k m.entries)) [
  | inl new ↦ rw (consume_new k now l new) (open_window-IsTable k now m table)
  | inr (w, old) ↦ elim (Bool-cases (is_live now w)) [
    | inl runs ↦ rw (consume_live k now l w old runs) (count_request-IsTable k now w m old table)
    | inr dead ↦ rw (consume_dead k now l w old dead) (
        open_window-IsTable k now (record m { entries = delete k m.entries })
          (delete-IsTable k w m old table))
  ]
]
  where
    m : Limiter
    m = count_and_sweep now l

    table : IsTable m
    table = count_and_sweep-IsTable now l t

open_window_allows :
    (k : Key) (now : ℕ) (l : Limiter)
    → length l.entries < l.max_entries
    → (open_window k now l).1 ≡ allowed
unfolding open_window
open_window_allows k now l room = ground arith

-- A window that has run out makes room for its own key.
ended_allows :
    (k : Key) (now : ℕ) (l : Limiter) (w : Window)
    → IsTable l
    → find k l.entries ≡ some w
    → is_live now w ≡ false
    → (consume_at k now l).1 ≡ allowed
ended_allows k now l w t h dead = elim (Bool-cases (leb 256 (l.requests_since_sweep + 1))) [
  | inl sweeps ↦
      rw (consume_new k now l (rw sweeps (find-live_entries_dead now k l.entries t.unique h dead)))
        (open_window_allows k now (count_and_sweep now l)
          (rw sweeps (omega (arith, length-live_entries-lt k now l.entries h dead, t.fits))))
  | inr stays ↦ rw (consume_dead k now l w (rw stays h) dead) (
      open_window_allows k now
        (record (count_and_sweep now l) { entries = delete k (count_and_sweep now l).entries })
        (rw stays (omega (arith, length-delete-lt k l.entries h, t.fits))))
]

count_request_refuses :
    (k : Key) (now : ℕ) (w : Window) (l : Limiter) {s : ℕ}
    → (count_request k now w l).1 ≡ refused s
    → ((count_request k now w l).0 ≡ l) × (s ≡ retry_after_seconds w.resets_at now)
unfolding count_request
count_request_refuses k now w l {s} r =
    elim (Bool-cases (leb (policy_of l k.scope).limit w.count)) [
      | inl full ↦ rw full (refl, ground arith)
      | inr free ↦ absurd (ground arith)
    ]

ended_by_then :
    (w : Window) (now later s : ℕ)
    → is_live now w ≡ true
    → s ≡ retry_after_seconds w.resets_at now
    → now + 1000 * s ≤ later
    → is_live later w ≡ false
ended_by_then w now later s live seconds wait = ground arith

-- A client that waits is served: when a key whose window runs is told to retry after some seconds,
-- its request at that time or later is granted, if no other request came between.
pub retry_allows :
    (k : Key) (now later : ℕ) (l : Limiter) (w : Window) (s : ℕ)
    → IsTable l
    → find k l.entries ≡ some w
    → is_live now w ≡ true
    → (consume_at k now l).1 ≡ refused s
    → now + 1000 * s ≤ later
    → (consume_at k later (consume_at k now l).0).1 ≡ allowed
retry_allows k now later l w s t h live r wait =
    let kept = count_and_sweep_keeps k now l w h live in
    let path = consume_live k now l w kept live in
    let (same, seconds) =
      count_request_refuses k now w (count_and_sweep now l) (ap (λ p. p.1) (sym path) ∙ r) in
    rw (ap (λ p. p.0) path ∙ same) (
      ended_allows k later (count_and_sweep now l) w (count_and_sweep-IsTable now l t) kept
        (ended_by_then w now later s live seconds wait))
