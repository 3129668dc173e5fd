-- ===== src/Lease/Examples.antt =====
-- The theorems about src/core/lease.ts at a concrete run.
use shan_hai_edu_ppt.Base.{◌≡◌, refl, false, none, some, [], err, is_text, is_blank}
use shan_hai_edu_ppt.Base.Int.{int, pos}
use shan_hai_edu_ppt.Contracts.{executing, visual_deck_v4}
use shan_hai_edu_ppt.Contracts.Quality.{supervised}
use shan_hai_edu_ppt.Ports.{StoredRun}
use shan_hai_edu_ppt.Lease.{
  stale_run_lease, leased, acquire_run_lease, renew_run_lease, release_run_lease,
}
use shan_hai_edu_ppt.Lease.Fencing.{LeaseReach, here, next, renews, superseded_lease_refused}

abbrev stored : StoredRun
stored = record {
  run = record {
    id = "run-1";
    policy = record {
      status = executing;
      resume_state = none;
      version = 3;
      budget_units = 10;
      committed_budget_units = 5;
      quality_override = false;
      presentation_mode = some visual_deck_v4;
    };
    accounting_protocol = none;
    slide_count = 5;
    revision_round = 0;
    max_revision_rounds = 2;
    technical_recovery = none;
    pending_terminal_failure = none;
    terminal_accounting = none;
    quality_disposition = none;
    automation_level = supervised;
    quality_override_reason = none;
    quality_override_by = none;
    quality_override_role = none;
    quality_override_issue_ids = [];
    quality_override_at = none;
    quality_policy_audit = none;
    lease_token = none;
    lease_until = none;
    lease_version = 4;
    updated_at = 1000;
  };
  steps = [];
  events = [];
}

abbrev by_a : StoredRun
by_a = leased stored "a" 35000 5000

abbrev by_b : StoredRun
by_b = leased by_a "b" 65000 35000

renewed_by_b :
    LeaseReach by_b
      (record by_b { run = record by_b.run { lease_until = some 70000; updated_at = 40000 } })
unfolding renew_run_lease is_text
renewed_by_b = next here (
    renews (record { token = "b"; version = 6; until = 65000 }) 30000 40000
      {l' = record { token = "b"; version = 6; until = 70000 }} refl)

superseded_lease_refused_example :
    (renew_run_lease
        (record { token = "a"; version = 5; until = 35000 })
        30000
        41000
        (record by_b { run = record by_b.run { lease_until = some 70000; updated_at = 40000 } })
      ≡ err stale_run_lease)
    × (release_run_lease
          (record { token = "a"; version = 5; until = 35000 })
          41000
          (record by_b { run = record by_b.run { lease_until = some 70000; updated_at = 40000 } })
        ≡ err stale_run_lease)
unfolding acquire_run_lease is_blank is_text
superseded_lease_refused_example =
    superseded_lease_refused "a" "b" (int (pos 30000)) (int (pos 30000)) 5000 35000 30000 41000
      stored by_a {l' = record { token = "b"; version = 6; until = 65000 }} refl here refl
      renewed_by_b
