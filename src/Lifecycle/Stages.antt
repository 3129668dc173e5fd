-- ===== src/Lifecycle/Stages.antt =====
-- Closing the stages of a run's log: src/core/v4-lifecycle.ts, closeActiveV4LifecycleStages.
use shan_hai_edu_ppt.Base.{
  ℕ, ◌+◌, ◌≤◌, ◌≡◌, refl, ◌∙◌, ap, inl, inr, Bool, true, false, some, List, [], ◌∷◌, ◌++◌, arith,
  if◌then◌else◌, Bool-cases, Option-cases,
}
use shan_hai_edu_ppt.Contracts.{is_v4}
use shan_hai_edu_ppt.Contracts.Failures.{LifecycleReason}
use shan_hai_edu_ppt.Contracts.Lifecycle.{
  LifecycleStage, is_stage, Phase, started, completed, LifecyclePayload,
}
use shan_hai_edu_ppt.Ports.{AgentEvent, NewAgentEvent, lifecycle, StoredRun}
use shan_hai_edu_ppt.Ports.Repository.{append_event, last_sequence}
use shan_hai_edu_ppt.Ports.Repository.Log.{IsLog, append_event-IsLog}
use shan_hai_edu_ppt.Lifecycle.{
  stage_by_type, phase_of, is_lifecycle, find_last, last_of, is_after, payload_of, repeats,
  append_v4_lifecycle_event, LifecyclePayloadInput, StagePair, latest_of, closing_input, or_else,
  close_stage, v4_lifecycle_payload,
}

last_sequence-ge : (n : ℕ) (es : List AgentEvent) → IsLog n es → n ≤ last_sequence n es
unfolding last_sequence
last_sequence-ge n [] log = omega arith
last_sequence-ge n (e ∷ es) log = rw (log.0) (omega (arith, last_sequence-ge (n + 1) es log.1))

module _ (p : AgentEvent → Bool) where
  pub find_last-append :
      (es : List AgentEvent) (e : AgentEvent)
      → find_last p (es ++ e ∷ []) ≡ (if p e then some e else find_last p es)
  unfolding find_last
  find_last-append [] e = refl
  find_last-append (d ∷ es) e = elim (Bool-cases (p e)) [
    | inl holds ↦ rw (find_last-append es e, holds) refl
    | inr fails ↦ rw (find_last-append es e, fails) refl
  ]

  -- What is found satisfies the test and stands in the log.
  pub find_last_holds :
      (n : ℕ) (es : List AgentEvent) (e : AgentEvent)
      → IsLog n es
      → find_last p es ≡ some e
      → (p e ≡ true) × (e.sequence ≤ last_sequence n es)
  unfolding find_last last_sequence
  find_last_holds n [] e log h = cc
  find_last_holds n (d ∷ es) e log h =
      let ih = find_last_holds (n + 1) es e log.1 in
      let last = ap (λ m. last_sequence m es) log.0 in
      elim (Option-cases (find_last p es)) [
        | inl nothing ↦ elim (Bool-cases (p d)) [
          | inl holds ↦
              let same : d ≡ e = ground (arith, rw (nothing, holds, find_last) at h) in
              rw (← same) (holds, omega (arith, last, last_sequence-ge (n + 1) es log.1))
          | inr fails ↦ absurd (ground (arith, rw (nothing, fails, find_last) at h))
        ]
        | inr (later, found) ↦
            let same : later ≡ e = ground (arith, rw (found, find_last) at h) in
            let (holds, bound) = ih (found ∙ ap some same) in (holds, omega (arith, last, bound))
      ]

-- The pair's completed event is of its stage.
pub record IsPair (pair : StagePair) : Type 0 where
  pub same_stage : stage_by_type pair.completed_type ≡ pair.stage
  pub is_completed : phase_of pair.completed_type ≡ completed

-- What one round appends, if anything, is a completion of its own stage.
pub data Round (pair : StagePair) (s t : StoredRun) : Type 0 where
  stays : t ≡ s → Round pair s t
  appends :
      (payload : LifecyclePayload)
      → t ≡ append_event s (lifecycle pair.completed_type payload)
      → Round pair s t

append-Round :
    (pair : StagePair) (s : StoredRun) (input : LifecyclePayloadInput)
    → Round pair s (append_v4_lifecycle_event pair.completed_type input s)
unfolding append_v4_lifecycle_event
append-Round pair s input = elim (Bool-cases (is_v4 s.run.presentation_mode)) [
  | inr other ↦ rw other (stays refl)
  | inl v4 ↦
      let payload = v4_lifecycle_payload s.run (stage_by_type pair.completed_type) input in
      elim (Bool-cases (repeats pair.completed_type payload s.events)) [
        | inl again ↦ rw (v4, again) (stays refl)
        | inr new ↦ rw (v4, new) (appends payload refl)
      ]
]

pub close-Round :
    (events : List AgentEvent) (reason : LifecycleReason) (pair : StagePair) (s : StoredRun)
    → Round pair s (close_stage events reason pair s)
unfolding close_stage
close-Round events reason pair s = elim (Option-cases (last_of pair.stage started events)) [
  | inl never ↦ rw (never, close_stage) (stays refl)
  | inr (start, found) ↦
      elim (Bool-cases (is_after (last_of pair.stage completed events) (some start))) [
        | inl closed ↦ rw (found, closed, close_stage) (stays refl)
        | inr running ↦
            elim (Option-cases
              (payload_of (or_else (latest_of pair.stage start.sequence events) start).body)) [
                | inl nothing ↦ rw (found, running, nothing, close_stage) (stays refl)
                | inr (payload, there) ↦
                    rw (found, running, there, close_stage)
                      (append-Round pair s (closing_input payload reason))
              ]
      ]
]

-- What a round leaves alone: the run, the numbering, and the events of other stages.
pub Round-IsLog :
    (pair : StagePair) (s t : StoredRun) → Round pair s t → IsLog 0 s.events → IsLog 0 t.events
Round-IsLog pair s t (stays e) log = rw e log
Round-IsLog pair s t (appends payload e) log =
    rw e (append_event-IsLog s (lifecycle pair.completed_type payload) log).0

pub Round-run :
    (pair : StagePair) (s t : StoredRun) → Round pair s t → (t.run ≡ s.run) × (t.steps ≡ s.steps)
unfolding append_event
Round-run pair s t (stays e) = rw e (refl, refl)
Round-run pair s t (appends payload e) = rw e (refl, refl)

pub append_event-last_of :
    (s : StoredRun) (body : NewAgentEvent) (stage : LifecycleStage) (phase : Phase)
    → is_lifecycle stage phase body ≡ false
    → last_of stage phase (append_event s body).events ≡ last_of stage phase s.events
unfolding append_event
append_event-last_of s body stage phase other =
    find_last-append (λ e. is_lifecycle stage phase e.body) s.events _ ∙ rw other refl

pub Round-last_of :
    (pair : StagePair) (s t : StoredRun) (stage : LifecycleStage) (phase : Phase)
    → IsPair pair
    → Round pair s t
    → is_stage pair.stage stage ≡ false
    → last_of stage phase t.events ≡ last_of stage phase s.events
Round-last_of pair s t stage phase good (stays e) other = rw e refl
Round-last_of pair s t stage phase good (appends payload e) other = rw e (
    append_event-last_of s (lifecycle pair.completed_type payload) stage phase
      (rw (good.same_stage, other) refl))
