-- ===== src/Quality/Open.antt =====
-- Which issues the log of src/core/v4-lifecycle.ts leaves open.
use shan_hai_edu_ppt.Base.{
  ◌≡◌, ◌∙◌, ap, refl, Bool, false, Option, none, some, List, [], ◌∷◌, ◌++◌, String, is_text,
  is_text_iff, has_text, arith, if◌then◌else◌, is_some,
}
use shan_hai_edu_ppt.Contracts.Quality.{IssueSummary, fixed, accepted}
use shan_hai_edu_ppt.Ports.{NewAgentEvent, issue_resolved, AgentEvent, StoredRun}
use shan_hai_edu_ppt.Ports.Repository.{append_event}
use shan_hai_edu_ppt.Quality.{
  IssueNews, detects, resolves, no_news, news, get_issue, set_issue, delete_issue, track_issue,
  track_issues, open_issues, issue_ids, resolve_fixed, resolve_accepted,
}

pub get_issue-set_issue :
    (id : String) (q : IssueSummary) (ps : List IssueSummary)
    → get_issue id (set_issue q ps) ≡ (if is_text q.id id then some q else get_issue id ps)
unfolding get_issue set_issue
get_issue-set_issue id q [] = refl
get_issue-set_issue id q (p ∷ ps) = ground (
  arith,
  is_text_iff p.id q.id,
  is_text_iff q.id id,
  is_text_iff p.id id,
  get_issue-set_issue id q ps,
)

pub get_issue-delete_issue :
    (id gone : String) (ps : List IssueSummary)
    → get_issue id (delete_issue gone ps) ≡ (if is_text gone id then none else get_issue id ps)
unfolding get_issue delete_issue
get_issue-delete_issue id gone [] = ground arith
get_issue-delete_issue id gone (p ∷ ps) = ground (
  arith,
  is_text_iff p.id gone,
  is_text_iff gone id,
  is_text_iff p.id id,
  get_issue-delete_issue id gone ps,
)

pub has_text-issue_ids :
    (id : String) (ps : List IssueSummary) → has_text id (issue_ids ps) ≡ is_some (get_issue id ps)
unfolding get_issue
has_text-issue_ids id [] = refl
has_text-issue_ids id (p ∷ ps) =
    ground (arith, is_text_iff p.id id, is_text_iff id p.id, has_text-issue_ids id ps)

-- Whether an event is about the issue.
abbrev pub is_about : String → IssueNews → Bool
is_about id (detects p) = is_text p.id id
is_about id (resolves gone r) = is_text gone id
is_about id no_news = false

-- The last news of the issue.
abbrev pub last_news : String → List AgentEvent → IssueNews
last_news id [] = no_news
last_news id (e ∷ es) =
    let here = if is_about id (news e.body) then news e.body else no_news in
    let rest = last_news id es in
    elim rest [ no_news ↦ here | detects p ↦ detects p | resolves gone r ↦ resolves gone r ]

-- What the last news leaves, given what was open before.
abbrev pub left_by : IssueNews → Option IssueSummary → Option IssueSummary
left_by (detects p) before = some p
left_by (resolves id r) before = none
left_by no_news before = before

track_issue-left :
    (id : String) (b : IssueNews) (ps : List IssueSummary)
    → get_issue id (track_issue ps b)
      ≡ left_by (if is_about id b then b else no_news) (get_issue id ps)
track_issue-left id (detects p) ps = ground (arith, get_issue-set_issue id p ps)
track_issue-left id (resolves gone r) ps = ground (arith, get_issue-delete_issue id gone ps)
track_issue-left id no_news ps = refl

track_issues-left :
    (id : String) (es : List AgentEvent) (ps : List IssueSummary)
    → get_issue id (track_issues ps es) ≡ left_by (last_news id es) (get_issue id ps)
unfolding track_issues
track_issues-left id [] ps = refl
track_issues-left id (e ∷ es) ps =
    track_issues-left id es (track_issue ps (news e.body))
    ∙ ap (left_by (last_news id es)) (track_issue-left id (news e.body) ps)
    ∙ joined (last_news id es) _
  where
    joined :
        (rest here : IssueNews)
        → left_by rest (left_by here (get_issue id ps))
          ≡ left_by
              (elim rest [
                | no_news ↦ here
                | detects p ↦ detects p
                | resolves gone r ↦ resolves gone r
              ])
              (get_issue id ps)
    joined no_news here = refl
    joined (detects p) here = refl
    joined (resolves gone r) here = refl

-- An issue is open, with the summary `p`, exactly when the last event about it is a detection of it
-- with this summary: the order of the map and its updates are forgotten.
pub open_issues-last_news :
    (id : String) (es : List AgentEvent)
    → get_issue id (open_issues es) ≡ left_by (last_news id es) none
unfolding open_issues get_issue
open_issues-last_news id es = track_issues-left id es []

-- One more event.
pub track_issues-snoc :
    (es : List AgentEvent) (e : AgentEvent) (ps : List IssueSummary)
    → track_issues ps (es ++ e ∷ []) ≡ track_issue (track_issues ps es) (news e.body)
unfolding track_issues
track_issues-snoc [] e ps = refl
track_issues-snoc (d ∷ es) e ps = track_issues-snoc es e (track_issue ps (news d.body))

open_issues-append_event :
    (s : StoredRun) (b : NewAgentEvent)
    → open_issues (append_event s b).events ≡ track_issue (open_issues s.events) (news b)
unfolding open_issues append_event
open_issues-append_event s b = track_issues-snoc s.events _ []

-- Resolving some issues closes them, and no other.
pub resolve_fixed-open :
    (ids : List String) (s : StoredRun) (id : String)
    → get_issue id (open_issues (resolve_fixed ids s).events)
      ≡ (if has_text id ids then none else get_issue id (open_issues s.events))
unfolding resolve_fixed
resolve_fixed-open [] s id = refl
resolve_fixed-open (i ∷ ids) s id =
    let t = append_event s (issue_resolved i fixed) in
    ground (
      arith,
      resolve_fixed-open ids t id,
      ap (get_issue id) (open_issues-append_event s (issue_resolved i fixed)),
      get_issue-delete_issue id i (open_issues s.events),
      is_text_iff i id,
      is_text_iff id i,
    )

pub resolve_accepted-open :
    (ids : List String) (s : StoredRun) (id : String)
    → get_issue id (open_issues (resolve_accepted ids s).events)
      ≡ (if has_text id ids then none else get_issue id (open_issues s.events))
unfolding resolve_accepted
resolve_accepted-open [] s id = refl
resolve_accepted-open (i ∷ ids) s id =
    let t = append_event s (issue_resolved i accepted) in
    ground (
      arith,
      resolve_accepted-open ids t id,
      ap (get_issue id) (open_issues-append_event s (issue_resolved i accepted)),
      get_issue-delete_issue id i (open_issues s.events),
      is_text_iff i id,
      is_text_iff id i,
    )
