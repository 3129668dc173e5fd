-- ===== src/Policy/Examples.antt =====
-- The theorems about src/core/policy.ts at concrete runs.
use shan_hai_edu_ppt.Policy.Budget.{reserve_budget_iff}
use shan_hai_edu_ppt.Policy.{is_inactive}
use shan_hai_edu_ppt.Base.Int.{max_safe_integer}
use shan_hai_edu_ppt.Base.{ℕ, ◌+◌, ◌≤◌, ◌<◌, ◌↔◌, ◌≡◌, refl, false, some, none, [], ◌∷◌, arith, ok}
use shan_hai_edu_ppt.Base.Int.{int, pos}
use shan_hai_edu_ppt.Contracts.{
  planning, executing, paused, needs_human, completed, visual_deck_v4, pause, user,
  accept_with_override, VersionedAction,
}
use shan_hai_edu_ppt.Policy.{
  RunPolicyState, moved, apply_action, apply_run_action, transition_run, can_transition,
  reserve_budget,
}
use shan_hai_edu_ppt.Policy.Invariant.{IsWellFormed}
use shan_hai_edu_ppt.Policy.Actions.{now}
use shan_hai_edu_ppt.Policy.Graph.{acts, moves, reserves, Reach, here, next, Reach-IsWellFormed}
use shan_hai_edu_ppt.Policy.Lives.{users_only, Transits, live_completes}

abbrev fresh : RunPolicyState
fresh = record {
  status = planning;
  resume_state = none;
  version = 0;
  budget_units = 10;
  committed_budget_units = 0;
  quality_override = false;
  presentation_mode = some visual_deck_v4;
}

abbrev working : RunPolicyState
working = record fresh { status = executing; version = 1 }

abbrev waiting : RunPolicyState
waiting = record fresh { status = needs_human; version = 4 }

abbrev stopped : RunPolicyState
stopped = record working { status = paused; resume_state = some executing; version = 2 }

fresh-IsWellFormed : IsWellFormed fresh
fresh-IsWellFormed = record { resume_kept = refl; within = omega arith }

stopped-IsWellFormed : IsWellFormed stopped
stopped-IsWellFormed = record { resume_kept = refl; within = omega arith }

abbrev overriding : VersionedAction
overriding = now waiting (accept_with_override "reviewed by hand" ("issue-1" ∷ []))

abbrev funded : RunPolicyState
funded = record fresh { committed_budget_units = 7; version = 1 }

history : Reach users_only fresh (moved (moved funded executing) paused)
unfolding apply_run_action apply_action transition_run can_transition reserve_budget
history =
    next (next (next here (reserves (int (pos 7)) refl)) (moves executing refl))
      (acts (now (moved funded executing) pause) user refl refl)

Reach-IsWellFormed_example : IsWellFormed (moved (moved funded executing) paused)
Reach-IsWellFormed_example = Reach-IsWellFormed history fresh-IsWellFormed

live_completes_example : (t : RunPolicyState) × Transits stopped t × (t.status ≡ completed)
live_completes_example = live_completes stopped stopped-IsWellFormed refl

reserve_budget_iff_example : (reserve_budget fresh (int (pos 7)) ≡ ok funded) ↔ (
    (k : ℕ) × (int (pos 7) ≡ int (pos k))
    × (0 < k)
    × (k ≤ max_safe_integer)
    × (is_inactive fresh.status ≡ false)
    × (fresh.committed_budget_units + k ≤ fresh.budget_units)
    × (funded ≡ record fresh {
      committed_budget_units = fresh.committed_budget_units + k;
      version = fresh.version + 1;
    }))
reserve_budget_iff_example = reserve_budget_iff fresh (int (pos 7)) funded
