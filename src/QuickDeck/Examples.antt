-- ===== src/QuickDeck/Examples.antt =====
-- An evaluation whose submission was interrupted: src/core/quick-deck-evaluation-recovery.ts.
use shan_hai_edu_ppt.Base.{◌≡◌, refl, inl, ◌⊎◌, none, some, [], ◌∷◌, is_text}
use shan_hai_edu_ppt.QuickDeck.{
  pending, submitted, not_submitted, was_submitted, EvaluationRecord, submitting_images,
  image_generation, image_submission_partial, RecoveryAction, draining, generating,
  evaluation_failed, skipped_pages, recover_pages, recover_interrupted_quick_deck_evaluation,
  draining_record, quick_deck_submission_failure_code,
}
use shan_hai_edu_ppt.QuickDeck.Interrupted.{AllNotResubmitted, never_resubmitted, drain_kept}

-- One page had been submitted, the other not.
abbrev crashed : EvaluationRecord
crashed = record {
  slide_count = 2;
  status = submitting_images;
  phase = image_generation;
  pages =
      record {
        page_number = 1;
        status = submitted;
        submission_state = was_submitted;
        operation_id = some "operation-1";
        error_code = none;
      }
      ∷ record {
        page_number = 2;
        status = pending;
        submission_state = not_submitted;
        operation_id = none;
        error_code = none;
      }
      ∷ [];
  error_code = none;
  pending_failure = none;
  completed_at = none;
  drain_started_at = none;
  drain_deadline = none;
  next_attempt_at = none;
  updated_at = 1000;
}

never_resubmitted_example :
    (a : RecoveryAction) × (t : EvaluationRecord) × (recover_interrupted_quick_deck_evaluation
        crashed 2000 9000
      ≡ some (a, t))
    × ((t.status ≡ generating) ⊎ (t.status ≡ evaluation_failed))
    × AllNotResubmitted crashed.pages t.pages
never_resubmitted_example = never_resubmitted crashed 2000 9000 (inl refl)

abbrev drained : EvaluationRecord
drained = draining_record crashed (skipped_pages crashed.pages) image_submission_partial 2000 9000

recovers : recover_interrupted_quick_deck_evaluation crashed 2000 9000 ≡ some (draining, drained)
unfolding recover_interrupted_quick_deck_evaluation recover_pages skipped_pages
    quick_deck_submission_failure_code is_text
recovers = refl

drain_kept_example :
    recover_interrupted_quick_deck_evaluation drained 5000 12000
    ≡ some (draining, record drained { next_attempt_at = some 5000; updated_at = 5000 })
drain_kept_example = drain_kept crashed drained 2000 5000 9000 12000 (inl refl) recovers
