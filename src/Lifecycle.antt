-- ===== src/Lifecycle.antt =====
-- src/core/v4-lifecycle.ts: the stages of a V4 run's log.
pub mod Codes
pub mod Failure
pub mod Stages
pub mod Rounds
pub mod Closing
pub mod Outcome
pub mod Accounting
mod Examples
use shan_hai_edu_ppt.Base.{
  ℕ, suc, zero, ◌+◌, Bool, true, false, not, ◌&&◌, ◌||◌, Option, none, some, List, [], ◌∷◌, ltb,
  leb, ◌==◌, any, if◌then◌else◌,
}
use shan_hai_edu_ppt.Contracts.{is_v4}
use shan_hai_edu_ppt.Contracts.Failures.{LifecycleReason}
use shan_hai_edu_ppt.Contracts.Lifecycle.{
  LifecycleStage, planning, generation, page_review, revision, deck_review, delivery, is_stage,
  LifecycleEventType, planning_started, planning_completed, generation_started, generation_progress,
  generation_completed, page_review_started, page_review_completed, revision_started,
  revision_progress, revision_completed, deck_review_started, deck_review_completed,
  delivery_started, delivery_completed, Phase, started, progress, completed, is_phase, RevisionKind,
  NextAction, LifecyclePayload, is_payload,
}
use shan_hai_edu_ppt.Ports.{RunRecord, NewAgentEvent, lifecycle, AgentEvent, StoredRun}
use shan_hai_edu_ppt.Ports.Repository.{append_event}

abbrev pub stage_by_type : LifecycleEventType → LifecycleStage
stage_by_type planning_started = planning
stage_by_type planning_completed = planning
stage_by_type generation_started = generation
stage_by_type generation_progress = generation
stage_by_type generation_completed = generation
stage_by_type page_review_started = page_review
stage_by_type page_review_completed = page_review
stage_by_type revision_started = revision
stage_by_type revision_progress = revision
stage_by_type revision_completed = revision
stage_by_type deck_review_started = deck_review
stage_by_type deck_review_completed = deck_review
stage_by_type delivery_started = delivery
stage_by_type delivery_completed = delivery

abbrev pub phase_of : LifecycleEventType → Phase
phase_of planning_started = started
phase_of planning_completed = completed
phase_of generation_started = started
phase_of generation_progress = progress
phase_of generation_completed = completed
phase_of page_review_started = started
phase_of page_review_completed = completed
phase_of revision_started = started
phase_of revision_progress = progress
phase_of revision_completed = completed
phase_of deck_review_started = started
phase_of deck_review_completed = completed
phase_of delivery_started = started
phase_of delivery_completed = completed

-- Whether an event's type is the text of a stage and a phase, with a point between them.
abbrev pub is_lifecycle : LifecycleStage → Phase → NewAgentEvent → Bool
is_lifecycle stage phase (lifecycle type payload) =
    is_stage (stage_by_type type) stage && is_phase (phase_of type) phase
is_lifecycle stage phase _ = false

pub record LifecyclePayloadInput : Type 0 where
  pub completed_count : ℕ
  pub total : ℕ
  pub page_numbers : List ℕ
  pub revision_kind : Option RevisionKind
  pub revision_round : Option ℕ
  pub reason : Option LifecycleReason
  pub retryable : Option Bool
  pub requires_user_action : Bool
  pub next_action : Option NextAction

-- `Array.from({ length: run.slideCount }, (_, index) => index + 1)`.
pub numbers_from : ℕ → ℕ → List ℕ
numbers_from n zero = []
numbers_from n (suc count) = n ∷ numbers_from (n + 1) count

abbrev pub all_page_numbers : RunRecord → List ℕ
all_page_numbers run = numbers_from 1 run.slide_count

-- `[...new Set(pages)].sort(...)`: a page that is there already is left out.
insert_page : ℕ → List ℕ → List ℕ
insert_page n [] = n ∷ []
insert_page n (m ∷ ms) =
    let rest = insert_page n ms in
    if n == m then m ∷ ms else if ltb n m then n ∷ m ∷ ms else m ∷ rest

pub sorted_pages : List ℕ → List ℕ
unfolding insert_page
sorted_pages [] = []
sorted_pages (n ∷ ns) = insert_page n (sorted_pages ns)

abbrev pub or_else {ℓ} : {A : Type ℓ} → Option A → A → A
or_else none x = x
or_else (some y) x = y

unfoldable pub v4_lifecycle_payload :
    RunRecord → LifecycleStage → LifecyclePayloadInput → LifecyclePayload
unfolding sorted_pages
v4_lifecycle_payload run stage input = record {
  stage = stage;
  completed_count = input.completed_count;
  total = input.total;
  page_numbers = sorted_pages input.page_numbers;
  revision_kind = input.revision_kind;
  revision_round = or_else input.revision_round run.revision_round;
  max_revision_rounds = run.max_revision_rounds;
  budget_units = run.budget_units;
  committed_budget_units = run.committed_budget_units;
  reason = input.reason;
  retryable = input.retryable;
  requires_user_action = input.requires_user_action;
  next_action = input.next_action;
}

-- `[...events].reverse().find(...)`.
unfoldable pub find_last : (AgentEvent → Bool) → List AgentEvent → Option AgentEvent
find_last p [] = none
find_last p (e ∷ es) = elim (find_last p es) [
  | some later ↦ some later
  | none ↦ if p e then some e else none
]

abbrev pub last_of : LifecycleStage → Phase → List AgentEvent → Option AgentEvent
last_of stage phase = find_last (λ e. is_lifecycle stage phase e.body)

-- Whether the first event, if there is one, comes after the second, if there is one.
abbrev pub is_after : Option AgentEvent → Option AgentEvent → Bool
is_after none b = false
is_after (some a) none = true
is_after (some a) (some b) = ltb b.sequence a.sequence

-- A stage that has started and not been completed since.
unfoldable pub is_active : LifecycleStage → List AgentEvent → Bool
unfolding find_last
is_active stage events = is_after (last_of stage started events) (last_of stage completed events)

abbrev pub payload_of : NewAgentEvent → Option LifecyclePayload
payload_of (lifecycle type payload) = some payload
payload_of _ = none

abbrev is_last_payload : LifecyclePayload → Option AgentEvent → Bool
is_last_payload payload none = false
is_last_payload payload (some e) = elim (payload_of e.body) [
  | none ↦ false
  | some last ↦ is_payload last payload
]

-- Whether an event would only repeat the log: a start of an active stage, or the last event of its
-- type over again in the same pass through the stage.
unfoldable pub repeats : LifecycleEventType → LifecyclePayload → List AgentEvent → Bool
repeats type payload events =
    let stage = stage_by_type type in
    if is_phase (phase_of type) started
    then is_active stage events
    else is_after (last_of stage (phase_of type) events) (last_of stage started events)
      && is_last_payload payload (last_of stage (phase_of type) events)

-- The event that the code returns besides is left out: no caller here reads it.
unfoldable pub append_v4_lifecycle_event :
    LifecycleEventType → LifecyclePayloadInput → StoredRun → StoredRun
append_v4_lifecycle_event type input s =
    if not (is_v4 s.run.presentation_mode)
    then s
    else let payload = v4_lifecycle_payload s.run (stage_by_type type) input in
      if repeats type payload s.events then s else append_event s (lifecycle type payload)

pub record StagePair : Type 0 where
  pub stage : LifecycleStage
  pub completed_type : LifecycleEventType

-- `lifecycleStagePairs`; only two of the stages have progress events.
abbrev pub lifecycle_stage_pairs : List StagePair
lifecycle_stage_pairs =
    record { stage = planning; completed_type = planning_completed }
    ∷ record { stage = generation; completed_type = generation_completed }
    ∷ record { stage = page_review; completed_type = page_review_completed }
    ∷ record { stage = revision; completed_type = revision_completed }
    ∷ record { stage = deck_review; completed_type = deck_review_completed }
    ∷ record { stage = delivery; completed_type = delivery_completed }
    ∷ []

-- The last event of the stage, from `n` on, that started it or reports its progress.
abbrev pub latest_of : LifecycleStage → ℕ → List AgentEvent → Option AgentEvent
latest_of stage n = find_last (λ e.
    leb n e.sequence && (is_lifecycle stage started e.body || is_lifecycle stage progress e.body))

abbrev pub closing_input : LifecyclePayload → LifecycleReason → LifecyclePayloadInput
closing_input p reason = record {
  completed_count = p.completed_count;
  total = p.total;
  page_numbers = p.page_numbers;
  revision_kind = p.revision_kind;
  revision_round = some p.revision_round;
  reason = some reason;
  retryable = some false;
  requires_user_action = false;
  next_action = none;
}

-- One round of the loop: `events` is the log as it was before the loop.
unfoldable pub close_stage : List AgentEvent → LifecycleReason → StagePair → StoredRun → StoredRun
close_stage events reason pair s = elim (last_of pair.stage started events) [
  | none ↦ s
  | some start ↦
      if is_after (last_of pair.stage completed events) (some start)
      then s
      else elim (payload_of (or_else (latest_of pair.stage start.sequence events) start).body) [
        | none ↦ s
        | some payload ↦
            append_v4_lifecycle_event pair.completed_type (closing_input payload reason) s
      ]
]

pub close_stages : List AgentEvent → LifecycleReason → List StagePair → StoredRun → StoredRun
close_stages events reason [] s = s
close_stages events reason (pair ∷ pairs) s =
    close_stages events reason pairs (close_stage events reason pair s)

unfoldable pub close_active_v4_lifecycle_stages : LifecycleReason → StoredRun → StoredRun
close_active_v4_lifecycle_stages reason s = close_stages s.events reason lifecycle_stage_pairs s
