-- ===== src/Ports/Repository/Examples.antt =====
-- The theorems about the event log at a concrete run.
use shan_hai_edu_ppt.Base.{ℕ, ◌≡◌, refl, true, none, some, [], ◌∷◌, arith}
use shan_hai_edu_ppt.Contracts.{executing, page_review, visual_deck_v4}
use shan_hai_edu_ppt.Contracts.Quality.{supervised}
use shan_hai_edu_ppt.Ports.{
  NewAgentEvent, phase_changed, budget_updated, run_cancelled, AgentEvent, StoredRun,
}
use shan_hai_edu_ppt.Ports.Repository.Log.{IsLog}
use shan_hai_edu_ppt.Ports.Repository.Pages.{read_all, replay_complete}

abbrev pub event : ℕ → NewAgentEvent → AgentEvent
event n b = record { sequence = n; created_at = 1000; body = b }

abbrev pub sample : StoredRun
sample = record {
  run = record {
    id = "run-1";
    policy = record {
      status = executing;
      resume_state = none;
      version = 3;
      budget_units = 10;
      committed_budget_units = 5;
      quality_override = true;
      presentation_mode = some visual_deck_v4;
    };
    accounting_protocol = none;
    slide_count = 5;
    revision_round = 0;
    max_revision_rounds = 2;
    technical_recovery = none;
    pending_terminal_failure = none;
    terminal_accounting = none;
    quality_disposition = none;
    automation_level = supervised;
    quality_override_reason = none;
    quality_override_by = none;
    quality_override_role = none;
    quality_override_issue_ids = [];
    quality_override_at = none;
    quality_policy_audit = none;
    lease_token = none;
    lease_until = none;
    lease_version = 4;
    updated_at = 1000;
  };
  steps = [];
  events =
      event 1 (phase_changed executing page_review "")
      ∷ event 2 (budget_updated 10 5)
      ∷ event 3 run_cancelled
      ∷ [];
}

pub sample-IsLog : IsLog 0 sample.events
sample-IsLog = (refl, (refl, (refl, tt)))

-- Two events to a page, and events that are each larger than the byte limit.
replay_complete_example : read_all (λ _. 500) sample 2 300 4 0 ≡ some sample.events
replay_complete_example =
    replay_complete (λ _. 500) sample 2 300 4 sample-IsLog (omega arith) (omega arith)
