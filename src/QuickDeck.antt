-- ===== src/QuickDeck.antt =====
-- src/core/quick-deck-evaluation-recovery.ts and
-- src/core/quick-deck-evaluation-submission-failure.ts: what becomes of an evaluation that a crash
-- has interrupted.
pub mod Interrupted
mod Examples
use shan_hai_edu_ppt.Base.{
  ℕ, Bool, true, false, not, ◌&&◌, ◌||◌, Option, none, some, List, [], ◌∷◌, String, is_some_text,
  is_none, any, all, length, ◌==◌, if◌then◌else◌,
}

pub data PageStatus : Type 0 where
  pending submitted processing completed failed : PageStatus

pub data SubmissionState : Type 0 where
  not_submitted was_submitted unknown : SubmissionState

pub record PageRecord : Type 0 where
  pub page_number : ℕ
  pub status : PageStatus
  pub submission_state : SubmissionState
  pub operation_id : Option String
  pub error_code : Option String

pub data EvaluationStatus : Type 0 where
  queued planning submitting_images generating packaging evaluation_completed : EvaluationStatus
  evaluation_failed expired : EvaluationStatus

pub data EvaluationPhase : Type 0 where
  accepted creative_planning image_generation pptx_packaging complete : EvaluationPhase
  failed_phase expired_phase : EvaluationPhase

pub data FailureCode : Type 0 where
  interrupted model_protocol_invalid model_not_ready model_unavailable : FailureCode
  planning_failed manuscript_context_too_large image_submission_failed : FailureCode
  image_submission_partial image_submission_unknown image_drain_timeout : FailureCode
  image_task_failed image_ratio_invalid image_artifact_invalid packaging_failed : FailureCode

-- The fields that the recovery reads or writes; `slide_count` is the request's.
pub record EvaluationRecord : Type 0 where
  pub slide_count : ℕ
  pub status : EvaluationStatus
  pub phase : EvaluationPhase
  pub pages : List PageRecord
  pub error_code : Option FailureCode
  pub pending_failure : Option FailureCode
  pub completed_at : Option ℕ
  pub drain_started_at : Option ℕ
  pub drain_deadline : Option ℕ
  pub next_attempt_at : Option ℕ
  pub updated_at : ℕ

pub data RecoveryAction : Type 0 where
  resumed continued draining packaging_again gave_up : RecoveryAction

abbrev pub is_terminal : PageRecord → Bool
is_terminal p = elim p.status [
  | pending ↦ false
  | submitted ↦ false
  | processing ↦ false
  | completed ↦ true
  | failed ↦ true
]

abbrev pub is_pending : PageStatus → Bool
is_pending pending = true
is_pending _ = false

abbrev pub is_not_submitted : SubmissionState → Bool
is_not_submitted not_submitted = true
is_not_submitted _ = false

abbrev pub is_submitted : SubmissionState → Bool
is_submitted was_submitted = true
is_submitted _ = false

abbrev pub is_unknown : SubmissionState → Bool
is_unknown unknown = true
is_unknown _ = false

unfoldable pub quick_deck_submission_failure_code : List PageRecord → FailureCode
quick_deck_submission_failure_code pages =
    if any (λ p. is_some_text p.error_code "EVALUATION_MODEL_NOT_READY") pages
    then model_not_ready
    else if any (λ p. is_some_text p.error_code "EVALUATION_MODEL_UNAVAILABLE") pages
    then model_unavailable
    else if any (λ p. is_submitted p.submission_state) pages
    then image_submission_partial
    else if any (λ p. is_unknown p.submission_state) pages
    then image_submission_unknown
    else image_submission_failed

-- A page that was never submitted.
abbrev pub is_untouched : PageRecord → Bool
is_untouched p = is_pending p.status && is_not_submitted p.submission_state

abbrev pub skip_untouched : PageRecord → PageRecord
skip_untouched p =
    if is_untouched p
    then record p { status = failed; error_code = some "EVALUATION_IMAGE_SUBMISSION_SKIPPED" }
    else p

pub skipped_pages : List PageRecord → List PageRecord
skipped_pages [] = []
skipped_pages (p ∷ ps) = skip_untouched p ∷ skipped_pages ps

abbrev is_submitting : EvaluationStatus → Bool
is_submitting submitting_images = true
is_submitting _ = false

abbrev is_generating : EvaluationStatus → Bool
is_generating generating = true
is_generating _ = false

-- Every page has been submitted, and all of it was stored.
abbrev pub is_fully_persisted : EvaluationRecord → List PageRecord → Bool
is_fully_persisted r pages =
    is_submitting r.status
    && is_none r.pending_failure
    && length pages == r.slide_count
    && all
        (λ p.
          is_submitted p.submission_state && not (is_none p.operation_id) && is_none p.error_code)
        pages

abbrev pub failed_record : EvaluationRecord → List PageRecord → FailureCode → ℕ → EvaluationRecord
failed_record r pages code now = record r {
  pages = pages;
  status = evaluation_failed;
  phase = failed_phase;
  error_code = some code;
  pending_failure = none;
  completed_at = some now;
  next_attempt_at = none;
  updated_at = now;
}

abbrev pub value_or {ℓ} : {A : Type ℓ} → Option A → A → A
value_or none x = x
value_or (some y) x = y

abbrev pub draining_record :
    EvaluationRecord → List PageRecord → FailureCode → ℕ → ℕ → EvaluationRecord
draining_record r pages code now deadline = record r {
  pages = pages;
  status = generating;
  phase = image_generation;
  error_code = none;
  pending_failure = some code;
  drain_started_at = some (value_or r.drain_started_at now);
  drain_deadline = some (value_or r.drain_deadline deadline);
  next_attempt_at = some now;
  updated_at = now;
}

abbrev pub resumed_record : EvaluationRecord → List PageRecord → ℕ → EvaluationRecord
resumed_record r pages now = record r {
  pages = pages;
  status = generating;
  phase = image_generation;
  error_code = none;
  pending_failure = none;
  drain_started_at = none;
  drain_deadline = none;
  next_attempt_at = some now;
  updated_at = now;
}

-- An evaluation that was generating its images, with the pages that were never submitted skipped.
unfoldable pub recover_pages :
    EvaluationRecord → List PageRecord → ℕ → ℕ → RecoveryAction × EvaluationRecord
recover_pages r pages now deadline =
    let code = value_or r.pending_failure (quick_deck_submission_failure_code pages) in
    if is_fully_persisted r pages
    then (resumed, resumed_record r pages now)
    else if all is_terminal pages
    then (gave_up, failed_record r pages code now)
    else if is_generating r.status
        && is_none r.pending_failure
        && all (λ p. not (is_pending p.status) || not (is_unknown p.submission_state)) pages
    then (continued, record r { pages = pages; next_attempt_at = some now; updated_at = now })
    else (draining, draining_record r pages code now deadline)

abbrev pub recover_by :
    EvaluationStatus → EvaluationRecord → ℕ → ℕ → Option (RecoveryAction × EvaluationRecord)
recover_by packaging r now deadline = some (
  packaging_again,
  record r {
    phase = pptx_packaging;
    error_code = none;
    next_attempt_at = some now;
    updated_at = now;
  },
)
recover_by planning r now deadline = some (gave_up, failed_record r r.pages interrupted now)
recover_by submitting_images r now deadline =
    some (recover_pages r (skipped_pages r.pages) now deadline)
recover_by generating r now deadline = some (recover_pages r (skipped_pages r.pages) now deadline)
recover_by _ r now deadline = none

unfoldable pub recover_interrupted_quick_deck_evaluation :
    EvaluationRecord → ℕ → ℕ → Option (RecoveryAction × EvaluationRecord)
recover_interrupted_quick_deck_evaluation r now deadline = recover_by r.status r now deadline
