-- ===== src/QuickDeck/Interrupted.antt =====
-- The pages of an interrupted evaluation: src/core/quick-deck-evaluation-recovery.ts.
use shan_hai_edu_ppt.Base.{
  ℕ, ◌≡◌, refl, sym, subst, ◌∙◌, ap, ◌⊎◌, inl, inr, false, Option, none, some, List, [], ◌∷◌, arith,
  all, Bool-cases,
}
use shan_hai_edu_ppt.QuickDeck.{
  PageRecord, EvaluationRecord, pending, failed, not_submitted, submitting_images, generating,
  evaluation_failed, RecoveryAction, draining, is_terminal, is_untouched, skip_untouched,
  skipped_pages, recover_pages, recover_by, recover_interrupted_quick_deck_evaluation,
  draining_record, value_or, quick_deck_submission_failure_code, FailureCode,
}

abbrev the_pair : RecoveryAction → EvaluationRecord → RecoveryAction × EvaluationRecord
the_pair a r = (a, r)

abbrev the_some : RecoveryAction × EvaluationRecord → Option (RecoveryAction × EvaluationRecord)
the_some p = some p

pair_same : {p q : RecoveryAction × EvaluationRecord} → the_some p ≡ the_some q → p ≡ q
pair_same {p} {q} h = ap (λ o. elim o [ none ↦ p | some x ↦ x ]) h

-- What recovery does to the page `p`: one that was never submitted, and one whose submission may
-- have happened or that was given up.
pub record IsNotResubmitted (p q : PageRecord) : Type 0 where
  pub never_tried :
      p.status ≡ pending
      → p.submission_state ≡ not_submitted
      → q ≡ record p { status = failed; error_code = some "EVALUATION_IMAGE_SUBMISSION_SKIPPED" }
  pub tried : ¬ (p.submission_state ≡ not_submitted) → q ≡ p
  pub under_way : ¬ (p.status ≡ pending) → q ≡ p

-- The pages before and after, one by one.
abbrev pub AllNotResubmitted : List PageRecord → List PageRecord → Type 0
AllNotResubmitted [] [] = Unit
AllNotResubmitted [] (q ∷ qs) = ⊥
AllNotResubmitted (p ∷ ps) [] = ⊥
AllNotResubmitted (p ∷ ps) (q ∷ qs) = IsNotResubmitted p q × AllNotResubmitted ps qs

skip_untouched-IsNotResubmitted : (p : PageRecord) → IsNotResubmitted p (skip_untouched p)
skip_untouched-IsNotResubmitted p = record {
  never_tried = λ e f. rw (e, f) refl;
  tried = λ h. ground (arith, h);
  under_way = λ h. ground (arith, h);
}

untouched_not : (p : PageRecord) → is_untouched (skip_untouched p) ≡ false
untouched_not p = elim (Bool-cases (is_untouched p)) [
  | inl skipped ↦ rw skipped refl
  | inr kept ↦ rw kept kept
]

skipped_pages-AllNotResubmitted : (ps : List PageRecord) → AllNotResubmitted ps (skipped_pages ps)
unfolding skipped_pages
skipped_pages-AllNotResubmitted [] = tt
skipped_pages-AllNotResubmitted (p ∷ ps) =
    (skip_untouched-IsNotResubmitted p, skipped_pages-AllNotResubmitted ps)

skipped_twice : (ps : List PageRecord) → skipped_pages (skipped_pages ps) ≡ skipped_pages ps
unfolding skipped_pages
skipped_twice [] = refl
skipped_twice (p ∷ ps) =
    ap (λ q. q ∷ skipped_pages (skipped_pages ps)) (rw (untouched_not p) refl)
    ∙ ap (λ qs. skip_untouched p ∷ qs) (skipped_twice ps)

recover_pages_pages :
    (r : EvaluationRecord) (pages : List PageRecord) (now deadline : ℕ)
    → (recover_pages r pages now deadline).1.pages ≡ pages
unfolding recover_pages
recover_pages_pages r pages now deadline = ground arith

-- The states in which a crash may have hit a submission.
abbrev pub IsSubmitting : EvaluationRecord → Type 0
IsSubmitting r = (r.status ≡ submitting_images) ⊎ (r.status ≡ generating)

recover_submitting :
    (r : EvaluationRecord) (now deadline : ℕ)
    → IsSubmitting r
    → recover_interrupted_quick_deck_evaluation r now deadline
      ≡ some (recover_pages r (skipped_pages r.pages) now deadline)
unfolding recover_interrupted_quick_deck_evaluation
recover_submitting r now deadline (inl s) = ap (λ x. recover_by x r now deadline) s
recover_submitting r now deadline (inr s) = ap (λ x. recover_by x r now deadline) s

recover_pages_status :
    (r : EvaluationRecord) (pages : List PageRecord) (now deadline : ℕ)
    → (r.status ≡ submitting_images) ⊎ (r.status ≡ generating)
    → let q = recover_pages r pages now deadline in
      (q.1.status ≡ generating) ⊎ (q.1.status ≡ evaluation_failed)
unfolding recover_pages
recover_pages_status r pages now deadline s = ground (arith, s)

-- A crash during submission is never retried: an evaluation that was submitting or generating is
-- recovered, and is then generating or failed, never one that submits. Page by page, one that is
-- PENDING and NOT_SUBMITTED has failed as skipped, and one that is no longer PENDING, or whose
-- submission is SUBMITTED or UNKNOWN, is kept as it is.
pub never_resubmitted :
    (r : EvaluationRecord) (now deadline : ℕ)
    → IsSubmitting r
    → (a : RecoveryAction) × (t : EvaluationRecord) × (recover_interrupted_quick_deck_evaluation r
          now deadline
        ≡ some (a, t))
      × ((t.status ≡ generating) ⊎ (t.status ≡ evaluation_failed))
      × AllNotResubmitted r.pages t.pages
never_resubmitted r now deadline s =
    let q = recover_pages r (skipped_pages r.pages) now deadline in
    (
      q.0,
      q.1,
      recover_submitting r now deadline s,
      recover_pages_status r (skipped_pages r.pages) now deadline s,
      subst (AllNotResubmitted r.pages)
          (sym (recover_pages_pages r (skipped_pages r.pages) now deadline))
          (skipped_pages-AllNotResubmitted r.pages),
    )

drains :
    (r t : EvaluationRecord) (pages : List PageRecord) (now deadline : ℕ)
    → recover_pages r pages now deadline ≡ the_pair draining t
    → (all is_terminal pages ≡ false)
      × (t
          ≡ draining_record r pages
              (value_or r.pending_failure (quick_deck_submission_failure_code pages))
              now
              deadline)
unfolding recover_pages
drains r t pages now deadline h = ground arith

again_drains :
    (r : EvaluationRecord) (pages : List PageRecord) (code : FailureCode)
    (now later deadline extended : ℕ)
    → all is_terminal pages ≡ false
    → recover_pages (draining_record r pages code now deadline) pages later extended
      ≡ the_pair draining (record (draining_record r pages code now deadline) {
        next_attempt_at = some later;
        updated_at = later;
      })
unfolding recover_pages
again_drains r pages code now later deadline extended open_pages = rw open_pages refl

-- A second crash while the accepted pages are drained keeps the pages, the first failure and the
-- deadline: only the times of the next attempt and of the update move.
pub drain_kept :
    (r t : EvaluationRecord) (now later deadline extended : ℕ)
    → IsSubmitting r
    → recover_interrupted_quick_deck_evaluation r now deadline ≡ some (draining, t)
    → recover_interrupted_quick_deck_evaluation t later extended
      ≡ some (draining, record t { next_attempt_at = some later; updated_at = later })
drain_kept r t now later deadline extended s h =
    let pages = skipped_pages r.pages in
    let code = value_or r.pending_failure (quick_deck_submission_failure_code pages) in
    let first = draining_record r pages code now deadline in
    let (open_pages, same) =
      drains r t pages now deadline (pair_same (sym (recover_submitting r now deadline s) ∙ h)) in
    subst
      (λ x.
        recover_interrupted_quick_deck_evaluation x later extended
        ≡ some (draining, record x { next_attempt_at = some later; updated_at = later }))
      (sym same)
      (recover_submitting first later extended (inr refl)
        ∙ ap some (
            ap (λ ps. recover_pages first ps later extended) (skipped_twice r.pages)
            ∙ again_drains r pages code now later deadline extended open_pages))
