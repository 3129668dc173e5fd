-- ===== src/Policy/Budget.antt =====
-- The budget of a run: reservations and releases of src/core/policy.ts.
use shan_hai_edu_ppt.Base.{ℕ, ◌+◌, ◌≤◌, ◌<◌, ◌≡◌, ◌↔◌, false, arith, ok}
use shan_hai_edu_ppt.Base.Int.{pos, negsuc, Number, int, not_int, max_safe_integer}
use shan_hai_edu_ppt.Policy.{RunPolicyState, is_inactive, reserve_budget, release_budget}
use shan_hai_edu_ppt.Policy.Invariant.{IsWellFormed}

-- A reservation succeeds exactly for a positive safe amount that fits what is left of the budget
-- of an active run, and then commits that amount.
pub reserve_budget_iff :
    (s : RunPolicyState) (n : Number) (t : RunPolicyState)
    → (reserve_budget s n ≡ ok t) ↔ (
        (k : ℕ) × (n ≡ int (pos k))
        × (0 < k)
        × (k ≤ max_safe_integer)
        × (is_inactive s.status ≡ false)
        × (s.committed_budget_units + k ≤ s.budget_units)
        × (t ≡ record s {
          committed_budget_units = s.committed_budget_units + k;
          version = s.version + 1;
        }))
unfolding reserve_budget
reserve_budget_iff s not_int t = (λ h. cc, λ h. ground arith)
reserve_budget_iff s (int (negsuc m)) t = (λ h. cc, λ h. ground arith)
reserve_budget_iff s (int (pos k)) t = (
  λ h. (k, ground arith, ground arith, ground arith, ground arith, ground arith, ground arith),
  λ h. ground arith,
)

-- A well-formed run stays so under a reservation and under a release, whatever the amount.
pub reserve_budget-IsWellFormed :
    (s : RunPolicyState) (n : Number) {t : RunPolicyState}
    → reserve_budget s n ≡ ok t
    → IsWellFormed s
    → IsWellFormed t
unfolding reserve_budget
reserve_budget-IsWellFormed s (int (pos k)) h w = ground arith
reserve_budget-IsWellFormed s (int (negsuc k)) h w = absurd (ground arith)
reserve_budget-IsWellFormed s not_int h w = absurd (ground arith)

pub release_budget-IsWellFormed :
    (s : RunPolicyState) (n : Number) {t : RunPolicyState}
    → release_budget s n ≡ ok t
    → IsWellFormed s
    → IsWellFormed t
unfolding release_budget
release_budget-IsWellFormed s n h w = ground arith

-- What a reservation took, a release of the same amount gives back: both succeed, only the version
-- has moved, by two.
pub release-reserve :
    (s : RunPolicyState) (n : Number) {t : RunPolicyState}
    → reserve_budget s n ≡ ok t
    → release_budget t n ≡ ok (record s { version = s.version + 1 + 1 })
unfolding reserve_budget release_budget
release-reserve s (int (pos k)) h = ground arith
release-reserve s (int (negsuc k)) h = absurd (ground arith)
release-reserve s not_int h = absurd (ground arith)
