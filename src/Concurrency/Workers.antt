-- ===== src/Concurrency/Workers.antt =====
-- The list of workers: src/core/concurrency.ts.
use shan_hai_edu_ppt.Base.{
  ℕ, zero, suc, ◌≡◌, refl, ◌⊎◌, inr, Bool, true, false, some, List, [], ◌∷◌, any, all, arith,
}
use shan_hai_edu_ppt.Concurrency.{Worker, is_returned, is_operating, get_worker, set_worker}

module _ (p : Worker → Bool) where
  -- The worker whose place is taken does not satisfy `p`: the one that does is still there.
  pub any-set_worker :
      (k : ℕ) (v : Worker) (ws : List Worker) {w : Worker}
      → get_worker k ws ≡ some w
      → p w ≡ false
      → any p ws ≡ true
      → any p (set_worker k v ws) ≡ true
  unfolding get_worker set_worker
  any-set_worker k v [] g other a = a
  any-set_worker zero v (u ∷ us) g other a = ground arith
  any-set_worker (suc k) v (u ∷ us) {w} g other a =
      ground (arith, any-set_worker k v us {w = w} g other)

  pub any-set_worker_new :
      (k : ℕ) (v : Worker) (ws : List Worker) {w : Worker}
      → get_worker k ws ≡ some w
      → p v ≡ true
      → any p (set_worker k v ws) ≡ true
  unfolding get_worker set_worker
  any-set_worker_new k v [] g new = cc
  any-set_worker_new zero v (u ∷ us) g new = ground arith
  any-set_worker_new (suc k) v (u ∷ us) {w} g new =
      ground (arith, any-set_worker_new k v us {w = w} g new)

  pub set_worker-any :
      (k : ℕ) (v : Worker) (ws : List Worker)
      → any p (set_worker k v ws) ≡ true
      → (p v ≡ true) ⊎ (any p ws ≡ true)
  unfolding set_worker
  set_worker-any k v [] a = inr a
  set_worker-any zero v (u ∷ us) a = ground arith
  set_worker-any (suc k) v (u ∷ us) a = ground (arith, set_worker-any k v us)

-- Where all have returned, none is at its operation.
pub returned_not_operating :
    (i : ℕ) (ws : List Worker) → all is_returned ws ≡ true → any (is_operating i) ws ≡ false
returned_not_operating i [] a = refl
returned_not_operating i (w ∷ ws) a = ground (arith, returned_not_operating i ws)
