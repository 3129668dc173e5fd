-- ===== src/Concurrency/Complete.antt =====
-- The results of a call: src/core/concurrency.ts.
use shan_hai_edu_ppt.Base.{
  Result, ok, err, ℕ, zero, suc, ◌≤◌, ◌<◌, ◌≡◌, refl, sym, subst, ◌∙◌, ap, ◌⊎◌, inl, inr, min, true,
  false, Option, none, some, List, [], ◌∷◌, any, all, All, arith, is_some, Bool-cases, Option-cases,
}
use shan_hai_edu_ppt.Concurrency.{
  Worker, at_head, operating, returned, Turn, proceeds, resolves, rejects, Pool, is_returned,
  get_worker, copies, turn_of, take_turn, run_turns, start_pool, open_pool, outcome,
}
use shan_hai_edu_ppt.Base.Int.{Number, is_positive_safe, amount}
use shan_hai_edu_ppt.Concurrency.Workers.{returned_not_operating}
use shan_hai_edu_ppt.Concurrency.Steps.{
  is_staffed, staffed_returned, some_same, proceed-IsSound, resolve-IsSound, reject-IsSound,
  IsSound, CarriesValue,
}

none_returned : (m : ℕ) → any is_returned (copies m) ≡ false
unfolding copies
none_returned zero = refl
none_returned (suc m) = none_returned m

copies_are_staffed : (m : ℕ) → 1 ≤ m → is_staffed (copies m) ≡ true
unfolding copies
copies_are_staffed zero h = absurd (omega (arith, h))
copies_are_staffed (suc m) h = refl

copies_staffed : (c n : ℕ) → 1 ≤ c → (n ≡ 0) ⊎ (is_staffed (copies (min c n)) ≡ true)
copies_staffed c zero h = inl refl
copies_staffed c (suc n) h = inr (copies_are_staffed (min c (suc n)) (omega (arith, h)))

positive_amount : (c : Number) → is_positive_safe c ≡ true → 1 ≤ amount c
positive_amount c h = ground arith

module _ {R E : Type 0} where
  turn-IsSound :
      (n k : ℕ) (o : Option Worker) (turn : Turn R E) (p q : Pool R E)
      → get_worker k p.workers ≡ o
      → CarriesValue turn
      → IsSound n p
      → turn_of o k turn p ≡ some q
      → IsSound n q
  turn-IsSound n k (some at_head) proceeds p q here value sound h =
      subst (IsSound n) (some_same h) (proceed-IsSound n k p here sound)
  turn-IsSound n k (some (operating i)) (resolves r) p q here value sound h =
      subst (IsSound n) (some_same h) (resolve-IsSound n k i r p here sound)
  turn-IsSound n k (some (operating i)) (rejects (some e)) p q here value sound h =
      subst (IsSound n) (some_same h) (reject-IsSound n k i e p here sound)
  turn-IsSound n k (some (operating i)) (rejects none) p q here value sound h = absurd value
  turn-IsSound n k (some at_head) (resolves r) p q here value sound h = cc
  turn-IsSound n k (some at_head) (rejects e) p q here value sound h = cc
  turn-IsSound n k (some (operating i)) proceeds p q here value sound h = cc
  turn-IsSound n k (some returned) turn p q here value sound h = cc
  turn-IsSound n k none turn p q here value sound h = cc

  run-IsSound :
      (n : ℕ) (turns : List (ℕ × Turn R E)) (p q : Pool R E)
      → All (λ t. CarriesValue t.1) turns
      → IsSound n p
      → run_turns turns p ≡ some q
      → IsSound n q
  unfolding run_turns take_turn
  run-IsSound n [] p q values sound h = subst (IsSound n) (some_same h) sound
  run-IsSound n ((k, turn) ∷ turns) p q values sound h =
      elim (Option-cases (turn_of (get_worker k p.workers) k turn p)) [
        | inl stuck ↦ absurd (ground (arith, rw (stuck, run_turns) at h))
        | inr (next, taken) ↦
            run-IsSound n turns next q values.1
              (turn-IsSound n k (get_worker k p.workers) turn p next refl values.0 sound taken)
              (rw (taken, run_turns) at h)
      ]

  start-IsSound : (c n : ℕ) → 1 ≤ c → IsSound {R = R} {E = E} n (start_pool c n)
  unfolding start_pool
  start-IsSound c n h = record {
    same_count = refl;
    failing = λ s. cc;
    covered = λ i low taken. absurd (omega (arith, taken));
    spent = λ a. absurd (ground (arith, a, none_returned (min c n)));
    staffed = copies_staffed c n h;
  }

  workers_complete :
      (c n : ℕ) (turns : List (ℕ × Turn R E)) (p : Pool R E)
      → 1 ≤ c
      → All (λ t. CarriesValue t.1) turns
      → run_turns turns (start_pool c n) ≡ some p
      → all is_returned p.workers ≡ true
      → p.failure ≡ none
      → (i : ℕ) → i < n
      → is_some (p.results i) ≡ true
  workers_complete c n turns p h values ran ended fine i low =
      let sound = run-IsSound n turns (start_pool c n) p values (start-IsSound c n h) ran in
      let runs : p.stopped ≡ false = elim (Bool-cases p.stopped) [
        | inl stop ↦ absurd (ground (arith, ap is_some fine, sound.failing stop))
        | inr goes ↦ goes
      ] in
      elim sound.staffed [
        | inl empty ↦ absurd (omega (arith, empty, low))
        | inr staffed ↦ elim (sound.spent (staffed_returned p.workers staffed ended)) [
          | inl stop ↦ absurd (ground (arith, stop, runs))
          | inr past ↦ elim (sound.covered i low (omega (arith, low, past))) [
            | inl done ↦ done
            | inr (inl busy) ↦
                absurd (ground (arith, busy, returned_not_operating i p.workers ended))
            | inr (inr stop) ↦ absurd (ground (arith, stop, runs))
          ]
        ]
      ]

  open_pool_start :
      (c : Number) (n : ℕ) (q : Pool R E)
      → open_pool c n ≡ some q
      → (1 ≤ amount c) × (start_pool (amount c) n ≡ q)
  unfolding open_pool
  open_pool_start c n q h = elim (Bool-cases (is_positive_safe c)) [
    | inl valid ↦ (positive_amount c valid, some_same (rw (valid, open_pool) at h))
    | inr other ↦ absurd (ground (arith, rw (other, open_pool) at h))
  ]

  outcome_ok :
      (o : Option E) (f g : ℕ → Option R)
      → Path (Result E (ℕ → Option R)) (elim o [ none ↦ ok f | some e ↦ err e ]) (ok g)
      → (o ≡ none) × (f ≡ g)
  outcome_ok none f g h = (refl, ap (λ r. elim r [ ok x ↦ x | err e ↦ f ]) h)
  outcome_ok (some e) f g h = cc

  -- A call that gives results gives all of them: when every worker has returned and none of the
  -- operations threw, each of the values has its result, however the workers interleave. What is
  -- thrown is never `null` or `undefined`, which the call would not tell from no failure.
  pub results_complete :
      (c : Number) (n : ℕ) (turns : List (ℕ × Turn R E)) (q p : Pool R E) (results : ℕ → Option R)
      → open_pool c n ≡ some q
      → All (λ t. CarriesValue t.1) turns
      → run_turns turns q ≡ some p
      → all is_returned p.workers ≡ true
      → outcome p ≡ ok results
      → (i : ℕ) → i < n
      → is_some (results i) ≡ true
  unfolding outcome
  results_complete c n turns q p results opens values ran ended gives i low =
      let (positive, starts) = open_pool_start c n q opens in
      let (fine, same) = outcome_ok p.failure p.results results gives in
      ap (λ f. is_some (f i)) (sym same)
      ∙ workers_complete (amount c) n turns p positive values
          (ap (λ x. run_turns turns x) starts ∙ ran) ended fine i low
