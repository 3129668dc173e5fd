-- ===== src/Concurrency/Bound.antt =====
-- The number of turns: src/core/concurrency.ts.
use shan_hai_edu_ppt.Base.{
  ℕ, zero, suc, ◌+◌, ◌-◌, ◌*◌, ◌≤◌, ◌≡◌, refl, inl, inr, min, Option, none, some, List, [], ◌∷◌,
  arith, length, Option-cases,
}
use shan_hai_edu_ppt.Concurrency.{
  Worker, at_head, operating, returned, Turn, proceeds, resolves, rejects, Pool, get_worker,
  set_worker, copies, turn_of, take_turn, run_turns, start_pool,
}

-- How many turns a worker has left before it takes another index.
abbrev weight : Worker → ℕ
weight at_head = 1
weight (operating i) = 2
weight returned = 0

abbrev total_weight : List Worker → ℕ
total_weight [] = 0
total_weight (w ∷ ws) = weight w + total_weight ws

weight-set_worker :
    (k : ℕ) (v : Worker) (ws : List Worker) {w : Worker}
    → get_worker k ws ≡ some w
    → total_weight (set_worker k v ws) + weight w ≡ total_weight ws + weight v
unfolding get_worker set_worker
weight-set_worker k v [] g = cc
weight-set_worker zero v (u ∷ us) g = ground arith
weight-set_worker (suc k) v (u ∷ us) {w} g = ground (arith, weight-set_worker k v us {w = w} g)

weight-copies : (m : ℕ) → total_weight (copies m) ≡ m
unfolding copies
weight-copies zero = refl
weight-copies (suc m) = omega (arith, weight-copies m)

module _ {R E : Type 0} where
  -- The turns that are left at most: two for every index not taken yet, and those of the workers.
  abbrev left : Pool R E → ℕ
  left p = 2 * (p.count - p.next_index) + total_weight p.workers

  turn_left :
      (k : ℕ) (o : Option Worker) (turn : Turn R E) (p q : Pool R E)
      → get_worker k p.workers ≡ o
      → turn_of o k turn p ≡ some q
      → suc (left q) ≤ left p
  turn_left k (some at_head) proceeds p q here h = ground (
    arith,
    weight-set_worker k returned p.workers {w = at_head} here,
    weight-set_worker k (operating p.next_index) p.workers {w = at_head} here,
  )
  turn_left k (some (operating i)) (resolves r) p q here h =
      ground (arith, weight-set_worker k at_head p.workers {w = operating i} here)
  turn_left k (some (operating i)) (rejects e) p q here h =
      ground (arith, weight-set_worker k at_head p.workers {w = operating i} here)
  turn_left k (some at_head) (resolves r) p q here h = cc
  turn_left k (some at_head) (rejects e) p q here h = cc
  turn_left k (some (operating i)) proceeds p q here h = cc
  turn_left k (some returned) turn p q here h = cc
  turn_left k none turn p q here h = cc

  run_left :
      (turns : List (ℕ × Turn R E)) (p q : Pool R E)
      → run_turns turns p ≡ some q
      → length turns + left q ≤ left p
  unfolding run_turns take_turn
  run_left [] p q h = ground arith
  run_left ((k, turn) ∷ turns) p q h =
      elim (Option-cases (turn_of (get_worker k p.workers) k turn p)) [
        | inl stuck ↦ absurd (ground (arith, rw (stuck, run_turns) at h))
        | inr (next, taken) ↦ omega (
          arith,
          run_left turns next q (rw (taken, run_turns) at h),
          turn_left k (get_worker k p.workers) turn p next refl taken,
        )
      ]

  -- The workers come to an end: however they interleave, they take at most two turns for each value
  -- and one for each worker.
  pub turns_bounded :
      (c n : ℕ) (turns : List (ℕ × Turn R E)) (p : Pool R E)
      → run_turns turns (start_pool c n) ≡ some p
      → length turns ≤ 2 * n + min c n
  unfolding start_pool
  turns_bounded c n turns p h =
      omega (arith, run_left turns (start_pool c n) p h, weight-copies (min c n))
