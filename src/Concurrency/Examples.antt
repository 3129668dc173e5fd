-- ===== src/Concurrency/Examples.antt =====
-- Two workers and three values: src/core/concurrency.ts.
use shan_hai_edu_ppt.Base.Int.{int, pos}
use shan_hai_edu_ppt.Base.{
  ok, ℕ, ◌+◌, ◌*◌, ◌≤◌, ◌≡◌, refl, min, true, false, none, some, List, [], ◌∷◌, arith, length,
  is_some,
}
use shan_hai_edu_ppt.Concurrency.{
  Turn, proceeds, resolves, Pool, run_turns, start_pool, open_pool, outcome, returned, set_result,
  get_worker, set_worker, copies,
}
use shan_hai_edu_ppt.Concurrency.Complete.{results_complete}
use shan_hai_edu_ppt.Concurrency.Bound.{turns_bounded}

-- The second worker finishes the last value before the first one finishes the first.
abbrev turns : List (ℕ × Turn ℕ ℕ)
turns =
    (0, proceeds)
    ∷ (1, proceeds)
    ∷ (1, resolves 11)
    ∷ (1, proceeds)
    ∷ (1, resolves 12)
    ∷ (1, proceeds)
    ∷ (0, resolves 10)
    ∷ (0, proceeds)
    ∷ []

abbrev finished : Pool ℕ ℕ
finished = record {
  count = 3;
  next_index = 5;
  stopped = false;
  failure = none;
  results = set_result 0 10 (set_result 2 12 (set_result 1 11 (λ i. none)));
  workers = returned ∷ returned ∷ [];
}

ran : run_turns turns (start_pool 2 3) ≡ some finished
unfolding run_turns start_pool copies get_worker set_worker
ran = refl

opens : open_pool (int (pos 2)) 3 ≡ some (start_pool {R = ℕ} {E = ℕ} 2 3)
unfolding open_pool
opens = refl

gives : outcome finished ≡ ok finished.results
unfolding outcome
gives = refl

results_complete_example : is_some (finished.results 2) ≡ true
results_complete_example =
    results_complete (int (pos 2)) 3 turns (start_pool 2 3) finished finished.results opens
      (tt, (tt, (tt, (tt, (tt, (tt, (tt, (tt, tt)))))))) ran refl gives 2 (omega arith)

turns_bounded_example : length turns ≤ 2 * 3 + min 2 3
turns_bounded_example = turns_bounded 2 3 turns finished ran
