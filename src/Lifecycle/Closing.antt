-- ===== src/Lifecycle/Closing.antt =====
-- The closing of the stages of a log: src/core/v4-lifecycle.ts, closeActiveV4LifecycleStages.
use shan_hai_edu_ppt.Base.{◌≡◌, refl, ◌∙◌, true, false, List, [], ◌∷◌, All}
use shan_hai_edu_ppt.Contracts.{is_v4}
use shan_hai_edu_ppt.Contracts.Failures.{LifecycleReason}
use shan_hai_edu_ppt.Contracts.Lifecycle.{LifecycleStage, is_stage, Phase, started, completed}
use shan_hai_edu_ppt.Ports.{AgentEvent, StoredRun}
use shan_hai_edu_ppt.Ports.Repository.Log.{IsLog}
use shan_hai_edu_ppt.Lifecycle.Stages.{IsPair, Round-IsLog, Round-run, Round-last_of, close-Round}
use shan_hai_edu_ppt.Lifecycle.{
  last_of, is_active, StagePair, lifecycle_stage_pairs, close_stage, close_stages,
  close_active_v4_lifecycle_stages,
}
use shan_hai_edu_ppt.Lifecycle.Rounds.{close_stage_closes}

-- The stages of the rounds that follow are other ones.
abbrev Distinct : List StagePair → Type 0
Distinct [] = Unit
Distinct (pair ∷ pairs) =
    All (λ p. (is_stage pair.stage p.stage ≡ false) × (is_stage p.stage pair.stage ≡ false)) pairs
    × Distinct pairs

-- The log shows the same last events of a stage as before the loop.
abbrev Untouched : List AgentEvent → StoredRun → StagePair → Type 0
Untouched events s p =
    (last_of p.stage started s.events ≡ last_of p.stage started events)
    × (last_of p.stage completed s.events ≡ last_of p.stage completed events)

module _ (events : List AgentEvent) (reason : LifecycleReason) where
  -- The rounds of other stages leave a stage's events alone.
  last_of-close_stages :
      (pairs : List StagePair) (s : StoredRun) (stage : LifecycleStage) (phase : Phase)
      → All IsPair pairs
      → All (λ p. is_stage p.stage stage ≡ false) pairs
      → last_of stage phase (close_stages events reason pairs s).events
        ≡ last_of stage phase s.events
  unfolding close_stages
  last_of-close_stages [] s stage phase good other = refl
  last_of-close_stages (pair ∷ pairs) s stage phase good other =
      let t = close_stage events reason pair s in
      last_of-close_stages pairs t stage phase good.1 other.1
      ∙ Round-last_of pair s t stage phase good.0 (close-Round events reason pair s) other.0

  close_stages_inactive :
      (pairs : List StagePair) (s : StoredRun) (stage : LifecycleStage)
      → All IsPair pairs
      → All (λ p. is_stage p.stage stage ≡ false) pairs
      → is_active stage s.events ≡ false
      → is_active stage (close_stages events reason pairs s).events ≡ false
  unfolding is_active
  close_stages_inactive pairs s stage good other inactive =
      rw
        (
          last_of-close_stages pairs s stage started good other,
          last_of-close_stages pairs s stage completed good other,
          is_active,
        )
        inactive

  Untouched-after :
      (pair : StagePair) (pairs : List StagePair) (s : StoredRun)
      → IsPair pair
      → All
          (λ p. (is_stage pair.stage p.stage ≡ false) × (is_stage p.stage pair.stage ≡ false))
          pairs
      → All (Untouched events s) pairs
      → All (Untouched events (close_stage events reason pair s)) pairs
  Untouched-after pair [] s good other same = tt
  Untouched-after pair (p ∷ ps) s good other same =
      let t = close_stage events reason pair s in
      let r = close-Round events reason pair s in
      (
        (
          Round-last_of pair s t p.stage started good r other.0.0 ∙ same.0.0,
          Round-last_of pair s t p.stage completed good r other.0.0 ∙ same.0.1,
        ),
        Untouched-after pair ps s good other.1 same.1,
      )

  others :
      (pair : StagePair) (pairs : List StagePair)
      → All
          (λ p. (is_stage pair.stage p.stage ≡ false) × (is_stage p.stage pair.stage ≡ false))
          pairs
      → All (λ p. is_stage p.stage pair.stage ≡ false) pairs
  others pair [] other = tt
  others pair (p ∷ ps) other = (other.0.1, others pair ps other.1)

  close_stages_closes :
      (pairs : List StagePair) (s : StoredRun)
      → All IsPair pairs
      → Distinct pairs
      → IsLog 0 events
      → IsLog 0 s.events
      → is_v4 s.run.presentation_mode ≡ true
      → All (Untouched events s) pairs
      → All (λ p. is_active p.stage (close_stages events reason pairs s).events ≡ false) pairs
  unfolding close_stages
  close_stages_closes [] s good distinct log₀ log v4 same = tt
  close_stages_closes (pair ∷ pairs) s good distinct log₀ log v4 same =
      let t = close_stage events reason pair s in
      let r = close-Round events reason pair s in
      let closed = close_stage_closes events reason pair s good.0 log log₀ v4 same.0.0 same.0.1 in
      (
        close_stages_inactive pairs t pair.stage good.1 (others pair pairs distinct.0) closed,
        close_stages_closes pairs t good.1 distinct.1 log₀ (Round-IsLog pair s t r log)
            (rw ((Round-run pair s t r).0) v4)
            (Untouched-after pair pairs s good.0 distinct.0 same.1),
      )

pub close_stages_run :
    (events : List AgentEvent) (reason : LifecycleReason) (pairs : List StagePair) (s : StoredRun)
    → ((close_stages events reason pairs s).run ≡ s.run)
      × ((close_stages events reason pairs s).steps ≡ s.steps)
unfolding close_stages
close_stages_run events reason [] s = (refl, refl)
close_stages_run events reason (pair ∷ pairs) s =
    let t = close_stage events reason pair s in
    let (run, steps) = Round-run pair s t (close-Round events reason pair s) in
    let (runs, step_lists) = close_stages_run events reason pairs t in
    (runs ∙ run, step_lists ∙ steps)

pub close_stages-IsLog :
    (events : List AgentEvent) (reason : LifecycleReason) (pairs : List StagePair) (s : StoredRun)
    → IsLog 0 s.events
    → IsLog 0 (close_stages events reason pairs s).events
unfolding close_stages
close_stages-IsLog events reason [] s log = log
close_stages-IsLog events reason (pair ∷ pairs) s log =
    let t = close_stage events reason pair s in
    close_stages-IsLog events reason pairs t
      (Round-IsLog pair s t (close-Round events reason pair s) log)

pairs_good : All IsPair lifecycle_stage_pairs
pairs_good = (
  record { same_stage = refl; is_completed = refl },
  (
    record { same_stage = refl; is_completed = refl },
    (
      record { same_stage = refl; is_completed = refl },
      (
        record { same_stage = refl; is_completed = refl },
        (
          record { same_stage = refl; is_completed = refl },
          (record { same_stage = refl; is_completed = refl }, tt),
        ),
      ),
    ),
  ),
)

pairs-Distinct : Distinct lifecycle_stage_pairs
pairs-Distinct = (
  ((refl, refl), ((refl, refl), ((refl, refl), ((refl, refl), ((refl, refl), tt))))),
  (
    ((refl, refl), ((refl, refl), ((refl, refl), ((refl, refl), tt)))),
    (
      ((refl, refl), ((refl, refl), ((refl, refl), tt))),
      (((refl, refl), ((refl, refl), tt)), (((refl, refl), tt), (tt, tt))),
    ),
  ),
)

-- On a V4 run, whatever stages its log shows as started and not completed, none of them is active
-- after they have been closed.
pub close_leaves_none_active :
    (reason : LifecycleReason) (s : StoredRun)
    → is_v4 s.run.presentation_mode ≡ true
    → IsLog 0 s.events
    → All
        (λ p. is_active p.stage (close_active_v4_lifecycle_stages reason s).events ≡ false)
        lifecycle_stage_pairs
unfolding close_active_v4_lifecycle_stages
close_leaves_none_active reason s v4 log =
    close_stages_closes s.events reason lifecycle_stage_pairs s pairs_good pairs-Distinct log log v4
      (all_untouched lifecycle_stage_pairs)
  where
    all_untouched : (pairs : List StagePair) → All (Untouched s.events s) pairs
    all_untouched [] = tt
    all_untouched (p ∷ ps) = ((refl, refl), all_untouched ps)
