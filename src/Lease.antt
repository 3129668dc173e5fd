-- ===== src/Lease.antt =====
-- src/core/lease.ts and src/core/media-reconciliation.ts: the leases by which workers own a run.
pub mod Fencing
mod Examples
use shan_hai_edu_ppt.Base.{
  ℕ, ◌+◌, Bool, true, false, not, ◌&&◌, ◌||◌, Option, none, some, List, [], ◌∷◌, String, any, ltb,
  leb, ◌==◌, if◌then◌else◌, is_text, is_some_text, is_blank, Result, ok, err, text_length,
}
use shan_hai_edu_ppt.Base.Int.{Number, int, pos, negsuc, not_int, max_safe_integer, amount}
use shan_hai_edu_ppt.Contracts.{
  RunStatus, planning, executing, page_review, deck_review, revising, delivering, recovering,
  has_status,
}
use shan_hai_edu_ppt.Policy.{is_terminal_status}
use shan_hai_edu_ppt.Ports.{
  StepRecord, StepStatus, running, submitting, waiting, releasing, submission_unknown,
  billing_unknown, Tool, generate_slide_image, generate_image_batch, report_usage_v2,
  finalize_usage_v2, RunRecord, StoredRun,
}

abbrev pub runnable_states : List RunStatus
runnable_states =
    planning ∷ executing ∷ page_review ∷ deck_review ∷ revising ∷ delivering ∷ recovering ∷ []

-- Times are milliseconds; the code keeps them as ISO texts, which lose nothing.
pub record RunLease : Type 0 where
  pub token : String
  pub version : ℕ
  pub until : ℕ

pub data LeaseCode : Type 0 where
  invalid_lease_token invalid_lease_ttl stale_run_lease invalid_recovery_limit : LeaseCode

-- `run.leaseUntil !== null && leaseUntil > now`.
abbrev pub is_until : Option ℕ → ℕ → Bool
is_until none now = false
is_until (some t) now = ltb now t

abbrev pub is_held : Option String → Bool
is_held none = false
is_held (some _) = true

unfoldable pub is_lease_active : RunRecord → ℕ → Bool
is_lease_active run now = is_held run.lease_token && is_until run.lease_until now

-- `!Number.isSafeInteger(ttlMs) || ttlMs < 1_000`, negated.
abbrev pub is_ttl : Number → Bool
is_ttl (int (pos n)) = leb 1000 n && leb n max_safe_integer
is_ttl (int (negsuc n)) = false
is_ttl not_int = false

abbrev pub leased : StoredRun → String → ℕ → ℕ → StoredRun
leased s token until now = record s {
  run = record s.run {
    lease_token = some token;
    lease_until = some until;
    lease_version = s.run.lease_version + 1;
    updated_at = now;
  };
}

-- The lease that is handed out, and the run that carries it.
granted : StoredRun → String → ℕ → ℕ → Result LeaseCode (Option RunLease × StoredRun)
granted s token ttl now = ok (
  some (record { token = token; version = s.run.lease_version + 1; until = now + ttl }),
  leased s token (now + ttl) now,
)

unfoldable pub acquire_run_lease :
    String → Number → ℕ → StoredRun → Result LeaseCode (Option RunLease × StoredRun)
unfolding granted is_lease_active
acquire_run_lease token ttl now s =
    if is_blank token
    then err invalid_lease_token
    else if not (is_ttl ttl)
    then err invalid_lease_ttl
    else if is_terminal_status s.run.status || not (has_status s.run.status runnable_states)
    then ok (none, s)
    else if is_lease_active s.run now && not (is_some_text s.run.lease_token token)
    then ok (none, s)
    else granted s token (amount ttl) now

abbrev is_pending_media_status : StepStatus → Option String → Bool
is_pending_media_status submitting op = true
is_pending_media_status waiting op = true
is_pending_media_status releasing op = true
is_pending_media_status submission_unknown op = true
is_pending_media_status billing_unknown none = false
is_pending_media_status billing_unknown (some op) = ltb 0 (text_length op)
is_pending_media_status _ op = false

abbrev is_image_tool : Tool → Bool
is_image_tool generate_slide_image = true
is_image_tool _ = false

unfoldable pub is_pending_media_reconciliation_step : StepRecord → Bool
unfolding text_length
is_pending_media_reconciliation_step s =
    is_image_tool s.tool && is_pending_media_status s.status s.external_operation_id

abbrev is_billing_unknown : StepStatus → Bool
is_billing_unknown billing_unknown = true
is_billing_unknown _ = false

abbrev is_running : StepStatus → Bool
is_running running = true
is_running _ = false

-- `isPendingMediaReconciliationStep`, and the batch and usage steps that a lease also covers.
abbrev pub is_pending_tool : Tool → StepStatus → Option String → Bool
is_pending_tool generate_slide_image status op = is_pending_media_status status op
is_pending_tool generate_image_batch status op = is_billing_unknown status
is_pending_tool report_usage_v2 status op = is_running status
is_pending_tool finalize_usage_v2 status op = is_running status
is_pending_tool _ status op = false

unfoldable pub is_pending_run_reconciliation_step : StepRecord → Bool
unfolding text_length
is_pending_run_reconciliation_step s = is_pending_tool s.tool s.status s.external_operation_id

unfoldable pub acquire_media_reconciliation_lease :
    String → Number → ℕ → StoredRun → Result LeaseCode (Option RunLease × StoredRun)
unfolding granted is_lease_active
acquire_media_reconciliation_lease token ttl now s =
    if is_blank token
    then err invalid_lease_token
    else if not (is_ttl ttl)
    then err invalid_lease_ttl
    else if not (any is_pending_run_reconciliation_step s.steps) || is_lease_active s.run now
    then ok (none, s)
    else granted s token (amount ttl) now

-- `leaseToken === lease.token && leaseVersion === lease.version`.
abbrev pub is_current : RunRecord → RunLease → Bool
is_current run l = is_some_text run.lease_token l.token && run.lease_version == l.version

-- The renewal does not check its time to live: it is taken as it is given.
unfoldable pub renew_run_lease :
    RunLease → ℕ → ℕ → StoredRun → Result LeaseCode (RunLease × StoredRun)
unfolding is_lease_active
renew_run_lease l ttl now s =
    if not (is_current s.run l) || not (is_lease_active s.run now)
    then err stale_run_lease
    else ok (
      record l { until = now + ttl },
      record s { run = record s.run { lease_until = some (now + ttl); updated_at = now } },
    )

unfoldable pub release_run_lease :
    RunLease → ℕ → StoredRun → Result LeaseCode (Unit {0} × StoredRun)
release_run_lease l now s =
    if not (is_current s.run l)
    then err stale_run_lease
    else ok (
      tt,
      record s { run = record s.run { lease_token = none; lease_until = none; updated_at = now } },
    )
