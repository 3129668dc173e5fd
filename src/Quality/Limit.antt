-- ===== src/Quality/Limit.antt =====
-- The audit of an acceptance by the quality policy: src/core/v4-lifecycle.ts and src/contracts.ts.
use shan_hai_edu_ppt.Base.{
  ℕ, zero, suc, ◌≤◌, ◌<◌, ◌≡◌, ◌∙◌, ap, subst, refl, sym, inl, inr, Bool, true, false, not, ◌||◌,
  some, List, [], ◌∷◌, String, is_text, is_text_iff, is_text_self, has_text, distinct,
  distinct-IsUnique, IsUnique, keep-IsUnique, take-IsUnique, has_text-take_not, IsUnique-snoc, any,
  keep, take, length, length-take, length-append, ltb, arith, Bool-cases, Result, ok, err,
}
use shan_hai_edu_ppt.Contracts.{is_v4}
use shan_hai_edu_ppt.Ports.{RunRecord, StoredRun}
use shan_hai_edu_ppt.Quality.{is_hard_quality_issue, quality_override_issue_limit}
use shan_hai_edu_ppt.Quality.Automated.{
  QualityError, system_quality_policy_issue_invalid, is_bounded_auto, first_accepted_at, audit_for,
  mark_automated_quality_acceptance, detections, accepted_issues, QualityKey,
  quality_policy_overflow_issue_id, is_invalid_acceptance,
  classify_automated_quality_acceptance_issues, complete_accepted_issue_ids, ensure_for,
  unless_invalid, ensure_automated_quality_acceptance_issue,
}

-- A list that the schema of an audit takes.
pub record IsIssueList (ids : List String) : Type 0 where
  pub some_issue : 0 < length ids
  pub within_limit : length ids ≤ quality_override_issue_limit
  pub unique : IsUnique ids

has_text-keep_self :
    (k : String) (ids : List String) → has_text k (keep (λ id. not (is_text id k)) ids) ≡ false
has_text-keep_self k [] = refl
has_text-keep_self k (i ∷ ids) =
    ground (arith, is_text_iff k i, is_text_iff i k, has_text-keep_self k ids)

module _ (hash_input : QualityKey → String) where
  ensure_for-IsIssueList :
      (s : StoredRun) (classified : List String)
      → IsIssueList
          (ensure_for hash_input s (complete_accepted_issue_ids hash_input s classified)).0
  unfolding ensure_for complete_accepted_issue_ids
  ensure_for-IsIssueList s classified =
      elim (Bool-cases (ltb quality_override_issue_limit (length complete))) [
        | inl many ↦ rw many (record {
          some_issue = omega (arith, length-append cut (overflow ∷ []));
          within_limit = omega (arith, length-append cut (overflow ∷ []), length-take 49 complete);
          unique =
              IsUnique-snoc cut overflow (take-IsUnique 49 complete unique)
                (has_text-take_not 49 overflow complete without);
        })
        | inr few ↦ rw few (elim (Bool-cases (ltb 0 (length complete))) [
          | inl listed ↦ rw listed (record {
            some_issue = ground (arith, listed);
            within_limit = ground (arith, few);
            unique = unique;
          })
          | inr unlisted ↦
              rw unlisted (record {
                some_issue = omega arith;
                within_limit = omega arith;
                unique = (refl, tt);
              })
        ])
      ]
    where
      overflow : String
      overflow = quality_policy_overflow_issue_id hash_input s.run.id

      complete : List String
      complete = complete_accepted_issue_ids hash_input s classified

      cut : List String
      cut = take 49 complete

      unique : IsUnique complete
      unique = keep-IsUnique _ _ (distinct-IsUnique [] _)

      without : has_text overflow complete ≡ false
      without = has_text-keep_self overflow _

-- Elements that are not among those seen before, each once, are all kept.
distinct_unique :
    (seen ids : List String)
    → IsUnique ids
    → ((k : String) → has_text k ids ≡ true → has_text k seen ≡ false)
    → distinct seen ids ≡ ids
unfolding distinct
distinct_unique seen [] u new = refl
distinct_unique seen (i ∷ ids) (once, u) new = rw (new i (ground (arith, is_text_self i))) (
    ap (λ l. i ∷ l)
      (distinct_unique (i ∷ seen) ids u λ k h. ground (arith, new k, is_text_iff k i, once, h)))

take_all : (n : ℕ) (ids : List String) → length ids ≤ n → take n ids ≡ ids
take_all zero [] le = refl
take_all zero (i ∷ ids) le = absurd (omega arith)
take_all (suc n) [] le = refl
take_all (suc n) (i ∷ ids) le = ap (λ l. i ∷ l) (take_all n ids (omega arith))

kept_whole :
    (ids : List String)
    → IsIssueList ids
    → take quality_override_issue_limit (distinct [] ids) ≡ ids
kept_whole ids v =
    ap (take quality_override_issue_limit) (distinct_unique [] ids v.unique λ k h. refl)
    ∙ take_all quality_override_issue_limit ids v.within_limit

unless_invalid-ok :
    (invalid : List String) (r x : List String × StoredRun)
    → unless_invalid invalid r ≡ ok x
    → r ≡ x
unless_invalid-ok [] r x h = cc
unless_invalid-ok (i ∷ is) r x h = cc

ok_inj : {a b : RunRecord} (x : Result QualityError RunRecord) → x ≡ ok b → x ≡ ok a → a ≡ b
ok_inj x h k = cc

-- A list of issues that was ensured is one that the schema of the audit takes, so the audit of the
-- acceptance records it whole: at least one issue, at most 50, each once. The acceptance needs a V4
-- run that is automated within bounds, and a later one keeps the time of the first.
pub audit_whole :
    (hash_input : QualityKey → String) (s t : StoredRun) (run : RunRecord) (newly ids : List String)
    (at : ℕ)
    → ensure_automated_quality_acceptance_issue hash_input s newly ≡ ok (ids, t)
    → mark_automated_quality_acceptance t.run ids at ≡ ok run
    → IsIssueList ids
      × (run.quality_override_issue_ids ≡ ids)
      × (run.quality_policy_audit ≡ some (record (audit_for t.run ids at) { issue_ids = ids }))
      × (is_v4 t.run.presentation_mode ≡ true)
      × (is_bounded_auto t.run.automation_level ≡ true)
      × ((again : ℕ)
          → first_accepted_at run.quality_policy_audit again
            ≡ first_accepted_at t.run.quality_policy_audit at)
unfolding ensure_automated_quality_acceptance_issue mark_automated_quality_acceptance
audit_whole hash_input s t run newly ids at ensured marked =
    let r = unless_invalid-ok _ _ _ ensured in
    let v : IsIssueList ids =
      subst IsIssueList (ap (λ (x : List String × StoredRun). x.0) r)
        (ensure_for-IsIssueList hash_input s _) in
    let whole = kept_whole ids v in
    elim (Bool-cases
      (not (is_v4 t.run.presentation_mode) || not (is_bounded_auto t.run.automation_level))) [
        | inl refused ↦ absurd (cc)
        | inr allowed ↦
            let e = ok_inj _ (rw allowed at marked) refl in
            (
              v,
              sym (ap (λ (x : RunRecord). x.quality_override_issue_ids) e) ∙ whole,
              sym (ap (λ (x : RunRecord). x.quality_policy_audit) e)
                  ∙ ap (λ l. some (record (audit_for t.run ids at) { issue_ids = l })) whole,
              ground (arith, allowed),
              ground (arith, allowed),
              λ again.
                  ap (λ (x : RunRecord). first_accepted_at x.quality_policy_audit again) (sym e),
            )
      ]

keep-nonempty :
    (p : String → Bool) (id : String) (ids : List String)
    → has_text id ids ≡ true
    → p id ≡ true
    → (b : String) × (bs : List String) × (keep p ids ≡ b ∷ bs)
keep-nonempty p id [] h t = cc
keep-nonempty p id (i ∷ ids) h t = elim (Bool-cases (p i)) [
  | inl kept ↦ rw kept (i, _, refl)
  | inr dropped ↦
      rw dropped (keep-nonempty p id ids (ground (arith, is_text_iff id i, h, t, dropped)) t)
]

hard_invalid :
    (hash_input : QualityKey → String) (s : StoredRun) (newly : List String) (id : String)
    → any is_hard_quality_issue (detections id s.events) ≡ true
    → is_invalid_acceptance hash_input s newly id ≡ true
unfolding is_invalid_acceptance
hard_invalid hash_input s newly id hard = ground (arith, hard)

-- A hard issue that the log accepts is never covered by the policy: the acceptance throws, and
-- nothing is recorded.
pub hard_issue_refused :
    (hash_input : QualityKey → String) (s : StoredRun) (newly : List String) (id : String)
    → has_text id (accepted_issues s.events) ≡ true
    → any is_hard_quality_issue (detections id s.events) ≡ true
    → ensure_automated_quality_acceptance_issue hash_input s newly
      ≡ err system_quality_policy_issue_invalid
unfolding ensure_automated_quality_acceptance_issue classify_automated_quality_acceptance_issues
hard_issue_refused hash_input s newly id accepted hard =
    let (b, bs, e) =
      keep-nonempty (is_invalid_acceptance hash_input s newly) id (accepted_issues s.events)
        accepted (hard_invalid hash_input s newly id hard) in
    rw e refl
