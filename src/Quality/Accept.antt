-- ===== src/Quality/Accept.antt =====
-- Fixing and accepting the open issues: src/core/v4-lifecycle.ts.
use shan_hai_edu_ppt.Base.{
  ◌≡◌, refl, ◌⊎◌, inl, inr, Bool, true, false, not, ◌&&◌, ◌||◌, Option, none, List, [], ◌∷◌, String,
  is_text_iff, has_text, distinct, has_text-distinct, any, keep, arith, if◌then◌else◌, Bool-cases,
  is_some,
}
use shan_hai_edu_ppt.Contracts.Quality.{IssueSummary}
use shan_hai_edu_ppt.Ports.{StoredRun}
use shan_hai_edu_ppt.Quality.{
  get_issue, open_issues, issue_ids, append_fixed_issue_resolutions, is_selected, is_blocking,
  classify_open_quality_issues_for_acceptance, append_accepted_quality_issue_resolutions,
}
use shan_hai_edu_ppt.Quality.Open.{has_text-issue_ids, resolve_fixed-open, resolve_accepted-open}

has_text-keep :
    (p : String → Bool) (id : String) (ids : List String)
    → has_text id (keep p ids) ≡ (has_text id ids && p id)
has_text-keep p id [] = refl
has_text-keep p id (i ∷ ids) = ground (arith, is_text_iff id i, has_text-keep p id ids)

-- After issues were reported as fixed, an issue is open exactly if it was open before and was not
-- reported, or is listed as still open; every open issue keeps its summary.
pub append_fixed-open :
    (s : StoredRun) (issues still_open : List String) (id : String)
    → get_issue id (open_issues (append_fixed_issue_resolutions s issues still_open).events) ≡ (
        if has_text id issues && not (has_text id still_open)
        then none
        else get_issue id (open_issues s.events))
unfolding append_fixed_issue_resolutions
append_fixed-open s issues still_open id =
    let open_ids = issue_ids (open_issues s.events) in
    let fixes = λ (i : String). not (not (has_text i open_ids) || has_text i still_open) in
    ground (
      arith,
      resolve_fixed-open (keep fixes (distinct [] issues)) s id,
      has_text-keep fixes id (distinct [] issues),
      has_text-distinct id [] issues,
      has_text-issue_ids id (open_issues s.events),
    )

has_text-selected :
    (selected : Option (List String)) (id : String) (ps : List IssueSummary)
    → has_text id (issue_ids (keep (λ p. is_selected selected p.id) ps))
      ≡ (is_some (get_issue id ps) && is_selected selected id)
unfolding get_issue
has_text-selected selected id [] = refl
has_text-selected selected id (p ∷ ps) =
    ground (arith, is_text_iff p.id id, is_text_iff id p.id, has_text-selected selected id ps)

blocked :
    (p : IssueSummary → Bool) (ps : List IssueSummary)
    → ((any p ps ≡ true) × ((b : String) × (bs : List String) × (issue_ids (keep p ps) ≡ b ∷ bs)))
      ⊎ ((any p ps ≡ false) × (issue_ids (keep p ps) ≡ []))
blocked p [] = inr (refl, refl)
blocked p (q ∷ qs) = elim (Bool-cases (p q)) [
  | inl hard ↦ rw hard (inl (refl, (_, _, refl)))
  | inr soft ↦ rw soft (blocked p qs)
]

-- Acceptance is all or nothing. If an open issue is hard, or failed in a revision or in the review
-- of its page, nothing is accepted and the run stays as it is. Otherwise every selected issue is
-- closed, every issue if none is selected by name, and each other one stays as it was.
pub accept_all_or_nothing :
    (s : StoredRun) (selected : Option (List String))
    → let r = append_accepted_quality_issue_resolutions s selected in
      ((any (is_blocking s) (open_issues s.events) ≡ true)
        × (r.1 ≡ s)
        × (r.0.accepted_issue_ids ≡ []))
      ⊎ ((any (is_blocking s) (open_issues s.events) ≡ false)
          × ((id : String)
              → get_issue id (open_issues r.1.events)
                ≡ (if is_selected selected id then none else get_issue id (open_issues s.events))))
unfolding append_accepted_quality_issue_resolutions classify_open_quality_issues_for_acceptance
accept_all_or_nothing s selected =
    let open_now = open_issues s.events in
    let ids = issue_ids (keep (λ p. is_selected selected p.id) open_now) in
    elim (blocked (is_blocking s) open_now) [
      | inl (some_hard, (b, bs, e)) ↦ inl (some_hard, rw e refl, rw e refl)
      | inr (none_hard, e) ↦ inr (
        none_hard,
        λ id. rw e (
            ground (arith, resolve_accepted-open ids s id, has_text-selected selected id open_now)),
      )
    ]
