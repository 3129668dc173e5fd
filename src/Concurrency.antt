-- ===== src/Concurrency.antt =====
-- src/core/concurrency.ts: mapWithConcurrency, whose workers take the indices in turn.
pub mod Workers
pub mod Steps
pub mod Complete
pub mod Bound
mod Examples
use shan_hai_edu_ppt.Base.{
  ℕ, zero, suc, ◌+◌, min, Bool, true, false, not, ◌&&◌, ◌||◌, Option, none, some, List, [], ◌∷◌,
  ltb, leb, all, any, is_some, ◌==◌, if◌then◌else◌, Result, ok, err,
}
use shan_hai_edu_ppt.Base.Int.{Number, is_positive_safe, amount}

-- A worker stands at the head of its loop, waits for its operation, or has returned.
pub data Worker : Type 0 where
  at_head : Worker
  operating : (index : ℕ) → Worker
  returned : Worker

-- A worker's turn: it passes the head of its loop, or its operation resolves or rejects. A thrown
-- `null` or `undefined` is `none`.
pub data Turn (R E : Type 0) : Type 0 where
  proceeds : Turn R E
  resolves : R → Turn R E
  rejects : Option E → Turn R E

pub record Pool (R E : Type 0) : Type 0 where
  pub count : ℕ
  pub next_index : ℕ
  pub stopped : Bool
  pub failure : Option E
  pub results : ℕ → Option R
  pub workers : List Worker

abbrev pub is_operating : ℕ → Worker → Bool
is_operating i (operating j) = i == j
is_operating i _ = false

abbrev pub is_returned : Worker → Bool
is_returned returned = true
is_returned _ = false

pub get_worker : ℕ → List Worker → Option Worker
get_worker k [] = none
get_worker zero (w ∷ ws) = some w
get_worker (suc k) (w ∷ ws) = get_worker k ws

pub set_worker : ℕ → Worker → List Worker → List Worker
set_worker k v [] = []
set_worker zero v (w ∷ ws) = v ∷ ws
set_worker (suc k) v (w ∷ ws) = w ∷ set_worker k v ws

pub copies : ℕ → List Worker
copies zero = []
copies (suc n) = at_head ∷ copies n

abbrev pub set_result {ℓ} : {R : Type ℓ} → ℕ → R → (ℕ → Option R) → ℕ → Option R
set_result i r results j = if j == i then some r else results j

-- `failure ??= error`: the first error is kept.
abbrev pub first_failure {ℓ} : {E : Type ℓ} → Option E → Option E → Option E
first_failure none e = e
first_failure (some f) e = some f

module _ {R E : Type 0} where
  -- The head of the loop: `while (!stopped)`, the next index, and the return past the last one.
  abbrev pub proceed : ℕ → Pool R E → Pool R E
  proceed k p =
      if p.stopped
      then record p { workers = set_worker k returned p.workers }
      else if leb p.count p.next_index
      then record p { next_index = p.next_index + 1; workers = set_worker k returned p.workers }
      else record p {
        next_index = p.next_index + 1;
        workers = set_worker k (operating p.next_index) p.workers;
      }

  abbrev pub resolve : ℕ → ℕ → R → Pool R E → Pool R E
  resolve k i r p = record p {
    results = set_result i r p.results;
    workers = set_worker k at_head p.workers;
  }

  abbrev pub reject : ℕ → Option E → Pool R E → Pool R E
  reject k e p = record p {
    failure = first_failure p.failure e;
    stopped = true;
    workers = set_worker k at_head p.workers;
  }

  abbrev pub turn_of : Option Worker → ℕ → Turn R E → Pool R E → Option (Pool R E)
  turn_of (some at_head) k proceeds p = some (proceed k p)
  turn_of (some (operating i)) k (resolves r) p = some (resolve k i r p)
  turn_of (some (operating i)) k (rejects e) p = some (reject k e p)
  turn_of _ k turn p = none

  -- A turn of the worker `k`, if it can take it.
  unfoldable pub take_turn : ℕ → Turn R E → Pool R E → Option (Pool R E)
  unfolding get_worker set_worker
  take_turn k turn p = turn_of (get_worker k p.workers) k turn p

  -- An interleaving: which worker takes which turn, one after the other.
  pub run_turns : List (ℕ × Turn R E) → Pool R E → Option (Pool R E)
  unfolding take_turn
  run_turns [] p = some p
  run_turns ((k, turn) ∷ turns) p = elim (take_turn k turn p) [
    | none ↦ none
    | some q ↦ run_turns turns q
  ]

  unfoldable pub start_pool : ℕ → ℕ → Pool R E
  unfolding copies
  start_pool concurrency count = record {
    count = count;
    next_index = 0;
    stopped = false;
    failure = none;
    results = λ i. none;
    workers = copies (min concurrency count);
  }

  -- `none` where the code throws CONCURRENCY_INVALID.
  unfoldable pub open_pool : Number → ℕ → Option (Pool R E)
  unfolding start_pool
  open_pool c n = if is_positive_safe c then some (start_pool (amount c) n) else none

  -- What the call gives when every worker has returned.
  unfoldable pub outcome : Pool R E → Result E (ℕ → Option R)
  outcome p = elim p.failure [ none ↦ ok p.results | some e ↦ err e ]
