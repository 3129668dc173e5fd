-- ===== src/Concurrency/Steps.antt =====
-- The state of the workers after every turn: src/core/concurrency.ts.
use shan_hai_edu_ppt.Base.{
  ℕ, zero, suc, ◌+◌, ◌≤◌, ◌<◌, ◌≡◌, refl, ◌⊎◌, inl, inr, Bool, true, false, Option, none, some,
  List, [], ◌∷◌, any, all, arith, is_some, leb, ◌==◌, if◌then◌else◌, Bool-cases,
}
use shan_hai_edu_ppt.Concurrency.{
  Worker, at_head, operating, returned, Turn, rejects, Pool, is_operating, is_returned, get_worker,
  set_worker, proceed, resolve, first_failure, reject,
}
use shan_hai_edu_ppt.Concurrency.Workers.{any-set_worker, any-set_worker_new, set_worker-any}

abbrev pub is_staffed : List Worker → Bool
is_staffed [] = false
is_staffed (w ∷ ws) = true

pub set_worker_staffed :
    (k : ℕ) (v : Worker) (ws : List Worker) → is_staffed (set_worker k v ws) ≡ is_staffed ws
unfolding set_worker
set_worker_staffed k v [] = refl
set_worker_staffed zero v (w ∷ ws) = refl
set_worker_staffed (suc k) v (w ∷ ws) = refl

pub staffed_returned :
    (ws : List Worker)
    → is_staffed ws ≡ true
    → all is_returned ws ≡ true
    → any is_returned ws ≡ true
staffed_returned [] s a = cc
staffed_returned (w ∷ ws) s a = ground arith

module _ {R E : Type 0} where
  -- An index that has been taken has its result, or is at its operation, or the pool has stopped.
  pub record IsSound (n : ℕ) (p : Pool R E) : Type 0 where
    pub same_count : p.count ≡ n
    pub failing : p.stopped ≡ true → is_some p.failure ≡ true
    pub covered :
        (i : ℕ)
        → i < n
        → i < p.next_index
        → (is_some (p.results i) ≡ true)
          ⊎ (any (is_operating i) p.workers ≡ true)
          ⊎ (p.stopped ≡ true)
    pub spent : any is_returned p.workers ≡ true → (p.stopped ≡ true) ⊎ (n ≤ p.next_index)
    pub staffed : (n ≡ 0) ⊎ (is_staffed p.workers ≡ true)

  -- What is thrown is neither `null` nor `undefined`.
  abbrev pub CarriesValue : Turn R E → Type 0
  CarriesValue (rejects none) = ⊥
  CarriesValue _ = Unit

  abbrev pub some_of : Pool R E → Option (Pool R E)
  some_of p = some p

  pub some_same : {p q : Pool R E} → some_of p ≡ some_of q → p ≡ q
  some_same {p} {q} h = ground arith

  -- Its place is taken by another worker: an index at its operation stays there.
  kept_covered :
      (n k i : ℕ) (v w : Worker) (p : Pool R E)
      → get_worker k p.workers ≡ some w
      → is_operating i w ≡ false
      → IsSound n p
      → i < n
      → i < p.next_index
      → (is_some (p.results i) ≡ true)
        ⊎ (any (is_operating i) (set_worker k v p.workers) ≡ true)
        ⊎ (p.stopped ≡ true)
  kept_covered n k i v w p here other sound low taken = elim (sound.covered i low taken) [
    | inl done ↦ inl done
    | inr (inl busy) ↦ inr (inl (any-set_worker (is_operating i) k v p.workers here other busy))
    | inr (inr stop) ↦ inr (inr stop)
  ]

  stop-IsSound :
      (n k : ℕ) (p : Pool R E)
      → IsSound n p
      → p.stopped ≡ true
      → IsSound n (record p { workers = set_worker k returned p.workers })
  stop-IsSound n k p sound stop = record {
    same_count = sound.same_count;
    failing = sound.failing;
    covered = λ i low taken. inr (inr stop);
    spent = λ a. inl stop;
    staffed = rw (set_worker_staffed k returned p.workers) sound.staffed;
  }

  last-IsSound :
      (n k : ℕ) (p : Pool R E)
      → get_worker k p.workers ≡ some at_head
      → IsSound n p
      → n ≤ p.next_index
      → IsSound n
          (record p { next_index = p.next_index + 1; workers = set_worker k returned p.workers })
  last-IsSound n k p here sound past = record {
    same_count = sound.same_count;
    failing = sound.failing;
    covered =
        λ i low taken. kept_covered n k i returned at_head p here refl sound low (omega arith);
    spent = λ a. inr (omega arith);
    staffed = rw (set_worker_staffed k returned p.workers) sound.staffed;
  }

  take-IsSound :
      (n k : ℕ) (p : Pool R E)
      → get_worker k p.workers ≡ some at_head
      → IsSound n p
      → IsSound n (record p {
        next_index = p.next_index + 1;
        workers = set_worker k (operating p.next_index) p.workers;
      })
  take-IsSound n k p here sound = record {
    same_count = sound.same_count;
    failing = sound.failing;
    covered = λ i low taken. elim (Bool-cases (i == p.next_index)) [
      | inl new ↦
          inr (
            inl (any-set_worker_new (is_operating i) k (operating p.next_index) p.workers here new))
      | inr old ↦
          kept_covered n k i (operating p.next_index) at_head p here refl sound low
            (ground (arith, old, taken))
    ];
    spent = λ a. elim (set_worker-any is_returned k (operating p.next_index) p.workers a) [
      | inl new ↦ cc
      | inr old ↦ elim (sound.spent old) [
        | inl stop ↦ inl stop
        | inr past ↦ inr (omega (arith, past))
      ]
    ];
    staffed = rw (set_worker_staffed k (operating p.next_index) p.workers) sound.staffed;
  }

  if-either :
      (P : Pool R E → Type 0) (b : Bool) {x y : Pool R E}
      → (b ≡ true → P x)
      → (b ≡ false → P y)
      → P (if b then x else y)
  if-either P true t f = t refl
  if-either P false t f = f refl

  pub proceed-IsSound :
      (n k : ℕ) (p : Pool R E)
      → get_worker k p.workers ≡ some at_head
      → IsSound n p
      → IsSound n (proceed k p)
  proceed-IsSound n k p here sound =
      if-either (IsSound n) p.stopped (λ stop. stop-IsSound n k p sound stop)
        (λ runs.
          if-either (IsSound n) (leb p.count p.next_index)
            (λ past. last-IsSound n k p here sound (ground (arith, past, sound.same_count)))
            (λ more. take-IsSound n k p here sound))

  pub resolve-IsSound :
      (n k j : ℕ) (r : R) (p : Pool R E)
      → get_worker k p.workers ≡ some (operating j)
      → IsSound n p
      → IsSound n (resolve k j r p)
  resolve-IsSound n k j r p here sound = record {
    same_count = sound.same_count;
    failing = sound.failing;
    covered = λ i low taken. elim (Bool-cases (i == j)) [
      | inl same ↦ inl (rw same refl)
      | inr other ↦ elim (kept_covered n k i at_head (operating j) p here other sound low taken) [
        | inl done ↦ inl (rw other done)
        | inr busy ↦ inr busy
      ]
    ];
    spent = λ a. elim (set_worker-any is_returned k at_head p.workers a) [
      | inl new ↦ cc
      | inr old ↦ sound.spent old
    ];
    staffed = rw (set_worker_staffed k at_head p.workers) sound.staffed;
  }

  pub reject-IsSound :
      (n k j : ℕ) (e : E) (p : Pool R E)
      → get_worker k p.workers ≡ some (operating j)
      → IsSound n p
      → IsSound n (reject k (some e) p)
  reject-IsSound n k j e p here sound = record {
    same_count = sound.same_count;
    failing = λ s. first_is_some p.failure e;
    covered = λ i low taken. inr (inr refl);
    spent = λ a. inl refl;
    staffed = rw (set_worker_staffed k at_head p.workers) sound.staffed;
  }
    where
      first_is_some : (f : Option E) (e : E) → is_some (first_failure f (some e)) ≡ true
      first_is_some none e = refl
      first_is_some (some f) e = refl
