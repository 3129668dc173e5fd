-- ===== src/Lifecycle/Rounds.antt =====
-- One round of the closing of stages: src/core/v4-lifecycle.ts, closeActiveV4LifecycleStages.
use shan_hai_edu_ppt.Base.{
  ◌+◌, ◌<◌, ◌≡◌, refl, ◌∙◌, inl, inr, true, false, ◌&&◌, ◌||◌, none, some, List, arith, leb,
  Bool-cases, Option-cases,
}
use shan_hai_edu_ppt.Contracts.{is_v4}
use shan_hai_edu_ppt.Contracts.Failures.{LifecycleReason}
use shan_hai_edu_ppt.Contracts.Lifecycle.{
  LifecycleStage, is_stage, Phase, started, progress, completed, LifecyclePayload,
  LifecycleEventType,
}
use shan_hai_edu_ppt.Ports.{AgentEvent, NewAgentEvent, lifecycle, StoredRun}
use shan_hai_edu_ppt.Ports.Repository.{append_event, last_sequence}
use shan_hai_edu_ppt.Ports.Repository.Log.{IsLog}
use shan_hai_edu_ppt.Lifecycle.Stages.{
  find_last-append, find_last_holds, IsPair, append_event-last_of,
}
use shan_hai_edu_ppt.Lifecycle.{
  stage_by_type, is_lifecycle, last_of, is_after, is_active, payload_of, repeats,
  append_v4_lifecycle_event, LifecyclePayloadInput, StagePair, latest_of, closing_input, or_else,
  close_stage, v4_lifecycle_payload,
}

is_stage_self : (stage : LifecycleStage) → is_stage stage stage ≡ true
is_stage_self stage = ground arith

completes_stage :
    (pair : StagePair) (payload : LifecyclePayload)
    → IsPair pair
    → (is_lifecycle pair.stage completed (lifecycle pair.completed_type payload) ≡ true)
      × (is_lifecycle pair.stage started (lifecycle pair.completed_type payload) ≡ false)
completes_stage pair payload good =
    rw (good.same_stage, good.is_completed, is_stage_self pair.stage) (refl, refl)

is_active_not :
    (stage : LifecycleStage) (events : List AgentEvent) (start done : AgentEvent)
    → last_of stage started events ≡ some start
    → last_of stage completed events ≡ some done
    → start.sequence < done.sequence
    → is_active stage events ≡ false
unfolding is_active
is_active_not stage events start done s c lt = rw (s, c, is_active) (ground arith)

append_event-last_of_self :
    (s : StoredRun) (body : NewAgentEvent) (stage : LifecycleStage) (phase : Phase)
    → is_lifecycle stage phase body ≡ true
    → last_of stage phase (append_event s body).events
      ≡ some (record {
        sequence = last_sequence 0 s.events + 1;
        created_at = s.run.updated_at;
        body = body;
      })
unfolding append_event
append_event-last_of_self s body stage phase same =
    find_last-append (λ e. is_lifecycle stage phase e.body) s.events _ ∙ rw same refl

-- The completion that is appended is the last event of the log.
append_completes :
    (pair : StagePair) (s : StoredRun) (payload : LifecyclePayload) (start : AgentEvent)
    → IsPair pair
    → IsLog 0 s.events
    → last_of pair.stage started s.events ≡ some start
    → is_active pair.stage (append_event s (lifecycle pair.completed_type payload)).events ≡ false
append_completes pair s payload start good log found =
    let body = lifecycle pair.completed_type payload in
    let (ends, starts_not) = completes_stage pair payload good in
    let (holds, bound) =
      find_last_holds (λ e. is_lifecycle pair.stage started e.body) 0 s.events start log found in
    is_active_not pair.stage (append_event s body).events start _
      (append_event-last_of s body pair.stage started starts_not ∙ found)
      (append_event-last_of_self s body pair.stage completed ends) (omega (arith, bound))

lifecycle_has_payload :
    (stage : LifecycleStage) (phase : Phase) (body : NewAgentEvent)
    → is_lifecycle stage phase body ≡ true
    → payload_of body ≡ none
    → ⊥
lifecycle_has_payload stage phase body holds nothing = ground arith

-- A start carries a payload, and so does what comes after it.
latest_payload :
    (stage : LifecycleStage) (events : List AgentEvent) (start : AgentEvent)
    → IsLog 0 events
    → last_of stage started events ≡ some start
    → payload_of (or_else (latest_of stage start.sequence events) start).body ≡ none
    → ⊥
latest_payload stage events start log found nothing =
    elim (Option-cases (latest_of stage start.sequence events)) [
      | inl alone ↦
          let (holds, bound) =
            find_last_holds (λ e. is_lifecycle stage started e.body) 0 events start log found in
          lifecycle_has_payload stage started start.body holds (rw alone at nothing)
      | inr (latest, there) ↦
          let (holds, bound) =
            find_last_holds
              (λ e.
                leb start.sequence e.sequence
                && (is_lifecycle stage started e.body || is_lifecycle stage progress e.body))
              0 events latest log there in
          elim (Bool-cases (is_lifecycle stage started latest.body)) [
            | inl starts ↦
                lifecycle_has_payload stage started latest.body starts (rw there at nothing)
            | inr other ↦
                lifecycle_has_payload stage progress latest.body (ground (arith, holds, other))
                  (rw there at nothing)
          ]
    ]

append_repeats_not :
    (pair : StagePair) (payload : LifecyclePayload) (events : List AgentEvent) (start : AgentEvent)
    → IsPair pair
    → last_of pair.stage started events ≡ some start
    → is_after (last_of pair.stage completed events) (some start) ≡ false
    → repeats pair.completed_type payload events ≡ false
unfolding repeats
append_repeats_not pair payload events start good found running =
    rw (good.is_completed, good.same_stage, found, running, repeats) refl

append_v4_lifecycle_event_new :
    (type : LifecycleEventType) (input : LifecyclePayloadInput) (s : StoredRun)
    → is_v4 s.run.presentation_mode ≡ true
    → repeats type (v4_lifecycle_payload s.run (stage_by_type type) input) s.events ≡ false
    → append_v4_lifecycle_event type input s
      ≡ append_event s (lifecycle type (v4_lifecycle_payload s.run (stage_by_type type) input))
unfolding append_v4_lifecycle_event
append_v4_lifecycle_event_new type input s v4 new = rw (v4, new, append_v4_lifecycle_event) refl

never_active :
    (stage : LifecycleStage) (events : List AgentEvent)
    → last_of stage started events ≡ none
    → is_active stage events ≡ false
unfolding is_active
never_active stage events never = rw (never, is_active) refl

closed_before :
    (stage : LifecycleStage) (events : List AgentEvent) (start : AgentEvent)
    → last_of stage started events ≡ some start
    → is_after (last_of stage completed events) (some start) ≡ true
    → is_active stage events ≡ false
unfolding is_active
closed_before stage events start found closed =
    elim (Option-cases (last_of stage completed events)) [
      | inl never ↦ absurd (ground (arith, rw never at closed))
      | inr (done, ended) ↦
          is_active_not stage events start done found ended (ground (arith, rw ended at closed))
    ]

pub close_stage_closes :
    (events : List AgentEvent) (reason : LifecycleReason) (pair : StagePair) (s : StoredRun)
    → IsPair pair
    → IsLog 0 s.events
    → IsLog 0 events
    → is_v4 s.run.presentation_mode ≡ true
    → last_of pair.stage started s.events ≡ last_of pair.stage started events
    → last_of pair.stage completed s.events ≡ last_of pair.stage completed events
    → is_active pair.stage (close_stage events reason pair s).events ≡ false
unfolding close_stage
close_stage_closes events reason pair s good log log₀ v4 same_start same_end =
    elim (Option-cases (last_of pair.stage started events)) [
      | inl never ↦ rw (never, close_stage) (never_active pair.stage s.events (same_start ∙ never))
      | inr (start, found) ↦
          elim (Bool-cases (is_after (last_of pair.stage completed events) (some start))) [
            | inl closed ↦
                rw (found, closed, close_stage)
                  (closed_before pair.stage s.events start (same_start ∙ found)
                    (rw same_end closed))
            | inr running ↦
                elim (Option-cases
                  (payload_of (or_else (latest_of pair.stage start.sequence events) start).body)) [
                    | inl nothing ↦
                        absurd (latest_payload pair.stage events start log₀ found nothing)
                    | inr (payload, there) ↦
                        let shown =
                          v4_lifecycle_payload s.run (stage_by_type pair.completed_type)
                            (closing_input payload reason) in
                        rw (found, running, there, close_stage)
                          (rw
                            (append_v4_lifecycle_event_new pair.completed_type
                              (closing_input payload reason) s v4
                              (append_repeats_not pair shown s.events start good
                                (same_start ∙ found) (rw same_end running)))
                            (append_completes pair s shown start good log (same_start ∙ found)))
                  ]
          ]
    ]
