-- ===== src/RateLimiter/Requests.antt =====
-- One request and the window of a key: src/http/principal-rate-limiter.ts.
use shan_hai_edu_ppt.Base.{
  ℕ, ◌+◌, ◌≤◌, ◌≡◌, refl, sym, subst, ◌∙◌, ap, inl, inr, Bool, true, false, ◌&&◌, none, some, arith,
  if◌then◌else◌, Bool-cases, Option-cases, leb,
}
use shan_hai_edu_ppt.RateLimiter.{
  Scope, Key, is_key, Window, Limiter, RateLimitDecision, allowed, refused, policy_of, find, delete,
  put, is_live, live_entries, count_and_sweep, open_window, count_request, consume_at, first_window,
}
use shan_hai_edu_ppt.RateLimiter.Windows.{
  Entries, is_key_iff, find-put, find-delete, find-live_entries,
}

pub count_and_sweep_keeps :
    (k : Key) (now : ℕ) (l : Limiter) (w : Window)
    → find k l.entries ≡ some w
    → is_live now w ≡ true
    → find k (count_and_sweep now l).entries ≡ some w
count_and_sweep_keeps k now l w h live = ground (arith, find-live_entries now k l.entries h live)

open_window_keeps :
    (j k : Key) (now : ℕ) (l : Limiter) (w : Window)
    → is_key j k ≡ false
    → find k l.entries ≡ some w
    → is_live now w ≡ true
    → find k (open_window j now l).0.entries ≡ some w
unfolding open_window
open_window_keeps j k now l w other h live = ground (
  arith,
  find-live_entries now k l.entries h live,
  find-put k j (first_window l j now) l.entries,
  find-put k j (first_window l j now) (live_entries now l.entries),
)

pub consume_live :
    (j : Key) (now : ℕ) (l : Limiter) (w : Window)
    → find j (count_and_sweep now l).entries ≡ some w
    → is_live now w ≡ true
    → consume_at j now l ≡ count_request j now w (count_and_sweep now l)
unfolding consume_at
consume_live j now l w h live = rw (h, consume_at) (rw live)

pub consume_dead :
    (j : Key) (now : ℕ) (l : Limiter) (w : Window)
    → find j (count_and_sweep now l).entries ≡ some w
    → is_live now w ≡ false
    → consume_at j now l
      ≡ open_window j now
          (record (count_and_sweep now l) { entries = delete j (count_and_sweep now l).entries })
unfolding consume_at
consume_dead j now l w h dead = rw (h, consume_at) (rw dead)

pub consume_new :
    (j : Key) (now : ℕ) (l : Limiter)
    → find j (count_and_sweep now l).entries ≡ none
    → consume_at j now l ≡ open_window j now (count_and_sweep now l)
unfolding consume_at
consume_new j now l h = rw (h, consume_at)

abbrev pub is_allowed : RateLimitDecision → Bool
is_allowed allowed = true
is_allowed (refused s) = false

-- Whether a request of `j` with the answer `d` counts for `k`.
abbrev pub counted : Key → Key → RateLimitDecision → ℕ
counted j k d = if is_key j k && is_allowed d then 1 else 0

-- A request, of whatever key, and the window of `k` that runs.
pub record Counts (j k : Key) (l : Limiter) (w : Window) (r : Limiter × RateLimitDecision)
    : Type 0 where
  pub after : Window
  pub found : find k r.0.entries ≡ some after
  pub same_start : after.started_at ≡ w.started_at
  pub same_reset : after.resets_at ≡ w.resets_at
  pub counts : after.count ≡ w.count + counted j k r.1
  pub bounded : w.count ≤ (policy_of l k.scope).limit → after.count ≤ (policy_of l k.scope).limit
  pub policy_kept : policy_of r.0 k.scope ≡ policy_of l k.scope

pub policy_of_entries :
    (l : Limiter) (es : Entries) (s : Scope)
    → policy_of (record l { entries = es }) s ≡ policy_of l s
policy_of_entries l es Scope.create_run = refl
policy_of_entries l es Scope.run_action = refl

pub policy_of_sweep :
    (l : Limiter) (now : ℕ) (s : Scope) → policy_of (count_and_sweep now l) s ≡ policy_of l s
policy_of_sweep l now Scope.create_run = ground arith
policy_of_sweep l now Scope.run_action = ground arith

pub open_window_policy :
    (j : Key) (s : Scope) (now : ℕ) (l : Limiter)
    → policy_of (open_window j now l).0 s ≡ policy_of l s
unfolding open_window
open_window_policy j Scope.create_run now l = ground arith
open_window_policy j Scope.run_action now l = ground arith

pub is_key_self : (k : Key) → is_key k k ≡ true
is_key_self k = (is_key_iff k k).1 refl

count_request-Counts :
    (k : Key) (now : ℕ) (l : Limiter) (w : Window)
    → find k l.entries ≡ some w
    → Counts k k l w (count_request k now w l)
unfolding count_request
count_request-Counts k now l w h = elim (Bool-cases (leb (policy_of l k.scope).limit w.count)) [
  | inl full ↦ rw full (record {
    after = w;
    found = h;
    same_start = refl;
    same_reset = refl;
    counts = ground (arith, is_key_self k);
    bounded = λ b. b;
    policy_kept = refl;
  })
  | inr free ↦ rw free (record {
    after = record w { count = w.count + 1 };
    found = find-put k k (record w { count = w.count + 1 }) l.entries ∙ rw (is_key_self k);
    same_start = refl;
    same_reset = refl;
    counts = ground (arith, is_key_self k);
    bounded = λ b. ground arith;
    policy_kept = policy_of_entries l (put k (record w { count = w.count + 1 }) l.entries) k.scope;
  })
]

count_other-Counts :
    (j k : Key) (now : ℕ) (l : Limiter) (v w : Window)
    → is_key j k ≡ false
    → find k l.entries ≡ some w
    → Counts j k l w (count_request j now v l)
unfolding count_request
count_other-Counts j k now l v w other h =
    elim (Bool-cases (leb (policy_of l j.scope).limit v.count)) [
      | inl full ↦ rw full (record {
        after = w;
        found = h;
        same_start = refl;
        same_reset = refl;
        counts = ground arith;
        bounded = λ b. b;
        policy_kept = refl;
      })
      | inr free ↦ rw free (record {
        after = w;
        found = find-put k j (record v { count = v.count + 1 }) l.entries ∙ rw other h;
        same_start = refl;
        same_reset = refl;
        counts = ground arith;
        bounded = λ b. b;
        policy_kept =
            policy_of_entries l (put j (record v { count = v.count + 1 }) l.entries) k.scope;
      })
    ]

open_other-Counts :
    (j k : Key) (now : ℕ) (l : Limiter) (w : Window)
    → is_key j k ≡ false
    → find k l.entries ≡ some w
    → is_live now w ≡ true
    → Counts j k l w (open_window j now l)
open_other-Counts j k now l w other h live = record {
  after = w;
  found = open_window_keeps j k now l w other h live;
  same_start = refl;
  same_reset = refl;
  counts = ground arith;
  bounded = λ b. b;
  policy_kept = open_window_policy j k.scope now l;
}

-- The same window under a limiter with the same policies.
Counts-policy :
    (j k : Key) (l m : Limiter) (w : Window) (r : Limiter × RateLimitDecision)
    → policy_of m k.scope ≡ policy_of l k.scope
    → Counts j k m w r
    → Counts j k l w r
Counts-policy j k l m w r e c = record {
  after = c.after;
  found = c.found;
  same_start = c.same_start;
  same_reset = c.same_reset;
  counts = c.counts;
  bounded = λ b. omega (arith, ap (λ p. p.limit) e, c.bounded (omega (arith, ap (λ p. p.limit) e)));
  policy_kept = c.policy_kept ∙ e;
}

swept-Counts :
    (j k : Key) (now : ℕ) (l : Limiter) (w : Window)
    → find k (count_and_sweep now l).entries ≡ some w
    → is_live now w ≡ true
    → Counts j k (count_and_sweep now l) w (consume_at j now l)
swept-Counts j k now l w h live = elim (Bool-cases (is_key j k)) [
  | inl same ↦
      let e = (is_key_iff j k).0 same in
      subst (λ i. Counts i k m w (consume_at i now l)) (sym e)
        (rw (consume_live k now l w h live) (count_request-Counts k now m w h))
  | inr other ↦ elim (Option-cases (find j m.entries)) [
    | inl new ↦ rw (consume_new j now l new) (open_other-Counts j k now m w other h live)
    | inr (v, old) ↦ elim (Bool-cases (is_live now v)) [
      | inl runs ↦ rw (consume_live j now l v old runs) (count_other-Counts j k now m v w other h)
      | inr dead ↦ rw (consume_dead j now l v old dead) (
          Counts-policy j k m (record m { entries = delete j m.entries }) w _
            (policy_of_entries m (delete j m.entries) k.scope)
            (open_other-Counts j k now (record m { entries = delete j m.entries }) w other
              (find-delete k j m.entries ∙ rw other h) live))
    ]
  ]
]
  where
    m : Limiter
    m = count_and_sweep now l

pub consume-Counts :
    (j k : Key) (now : ℕ) (l : Limiter) (w : Window)
    → find k l.entries ≡ some w
    → is_live now w ≡ true
    → Counts j k l w (consume_at j now l)
consume-Counts j k now l w h live =
    Counts-policy j k l (count_and_sweep now l) w _ (policy_of_sweep l now k.scope)
      (swept-Counts j k now l w (count_and_sweep_keeps k now l w h live) live)
