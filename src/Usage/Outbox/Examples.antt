-- ===== src/Usage/Outbox/Examples.antt =====
-- Two events of a run on concrete data: src/core/usage-v2-coordinator.ts.
use shan_hai_edu_ppt.Base.{
  ◌≡◌, refl, true, false, none, some, [], arith, Result, ok, err, is_text, String, append_text,
  trim, ℕ,
}
use shan_hai_edu_ppt.Contracts.{executing, needs_human}
use shan_hai_edu_ppt.Contracts.Quality.{supervised}
use shan_hai_edu_ppt.Contracts.UsageAccounting.{
  operation_observed, operation_completed, charged, UsageEvent, UsageRequestError, other_error,
  BillStatus, active, trimmed_event, is_valid_event,
}
use shan_hai_edu_ppt.Ports.{
  completed, event_acknowledged, usage_event_output, StepRecord, RunRecord, frameflow_usage_v2,
  StoredRun,
}
use shan_hai_edu_ppt.Ports.Repository.{get_step, put_step}
use shan_hai_edu_ppt.Usage.Enqueue.{Hashes}
use shan_hai_edu_ppt.Usage.Outbox.{
  event_step_output, outbox_step_key, put_outbox, last_event_sequence, event_step, enqueue_event,
  update_outbox,
}
use shan_hai_edu_ppt.Usage.Outbox.Delivery.{
  is_done, issue_id_of, is_open_issue, reject_outbox, complete_usage_review,
}
use shan_hai_edu_ppt.Usage.Outbox.Flush.{
  event_sequence, insert_by_sequence, sort_by_sequence, sorted_reports, deliver, flush_events,
  retry_outbox,
}
use shan_hai_edu_ppt.Usage.Outbox.Enqueued.{enqueue_again}
use shan_hai_edu_ppt.Usage.Outbox.Answered.{Holds}
use shan_hai_edu_ppt.Usage.Outbox.History.{
  History, Heard, HeardSince, here, next, enqueues, flushes, acknowledged_in_order, flushed_all,
}
use shan_hai_edu_ppt.Usage.Outbox.Restored.{restored_run}

abbrev pub hashes : Hashes
hashes = record { input_hash = λ run_id key. key; step_hash = λ run_id. run_id }

abbrev pub hash : UsageEvent → String
hash e = e.event_id

abbrev pub candidate : String → UsageEvent
candidate id = record {
  event_id = id;
  sequence = 1;
  event_type = operation_observed;
  ppt_run_id = "run-1";
  batch_id = "batch-1";
  page_number = 1;
  revision_round = 0;
  idempotency_key = "page-1";
  provider_operation_id = "provider-1";
  model = "image-1";
  status = operation_completed;
  provider_billing = charged 50000 "CNY" "prices-1";
  operation_created_at = 900;
  operation_completed_at = some 950;
  event_at = 950;
}

abbrev pub run : RunRecord
run = record {
  id = "run-1";
  policy = record {
    status = executing;
    resume_state = none;
    version = 3;
    budget_units = 10;
    committed_budget_units = 0;
    quality_override = false;
    presentation_mode = none;
  };
  accounting_protocol = some frameflow_usage_v2;
  slide_count = 2;
  revision_round = 0;
  max_revision_rounds = 2;
  technical_recovery = none;
  pending_terminal_failure = none;
  terminal_accounting = none;
  quality_disposition = none;
  automation_level = supervised;
  quality_override_reason = none;
  quality_override_by = none;
  quality_override_role = none;
  quality_override_issue_ids = [];
  quality_override_at = none;
  quality_policy_audit = none;
  lease_token = none;
  lease_until = none;
  lease_version = 4;
  updated_at = 1000;
}

abbrev empty : StoredRun
empty = record { run = run; steps = []; events = [] }

abbrev second : UsageEvent
second = record (candidate "event-2") { sequence = 2 }

abbrev one : StoredRun
one = put_outbox (event_step hash empty "event-1" (candidate "event-1") 1000) empty

abbrev two : StoredRun
two = put_outbox (event_step hash one "event-2" second 1100) one

abbrev key_1 : String
key_1 = outbox_step_key "run-1" "event-1"

abbrev key_2 : String
key_2 = outbox_step_key "run-1" "event-2"

abbrev pub accepts : UsageEvent → Result UsageRequestError BillStatus
accepts e = ok active

abbrev fails_second : UsageEvent → Result UsageRequestError BillStatus
fails_second e = elim (is_text e.event_id "event-2") [ true ↦ err other_error | false ↦ ok active ]

first_enqueued : enqueue_event hash (candidate "event-1") 1000 empty ≡ ok one
unfolding enqueue_event trim get_step last_event_sequence is_valid_event
first_enqueued = refl

second_enqueued : enqueue_event hash (candidate "event-2") 1100 one ≡ ok two
unfolding enqueue_event trim get_step put_step outbox_step_key last_event_sequence event_step_output
    is_valid_event is_text append_text
second_enqueued = refl

trims : trimmed_event (candidate "event-2") ≡ candidate "event-2"
unfolding trim
trims = refl

enqueue_again_example : enqueue_event hash (candidate "event-2") 9000 two ≡ ok two
enqueue_again_example =
    enqueue_again hash (candidate "event-2") 1100 9000 one two trims second_enqueued

abbrev history : History hashes hash empty two
history =
    next (next here (enqueues (candidate "event-1") 1000 first_enqueued))
      (enqueues (candidate "event-2") 1100 second_enqueued)

-- The host fails at the second event, and takes it when it is delivered again.
abbrev flushed : StoredRun
flushed = (flush_events hashes accepts 3500 (flush_events hashes fails_second 2000 two).1).1

abbrev long_history : History hashes hash empty flushed
long_history = next (next history (flushes fails_second 2000)) (flushes accepts 3500)

abbrev after : StepRecord → UsageEvent → ℕ → StepRecord
after step e now = record step {
  status = completed;
  output = usage_event_output e (some event_acknowledged) none (some active) none;
  updated_at = now;
}

abbrev first_after : StepRecord
first_after =
    after (event_step hash empty "event-1" (candidate "event-1") 1000) (candidate "event-1") 2000

abbrev second_after : ℕ → StepRecord
second_after now = after (event_step hash one "event-2" second 1100) second now

acknowledged_in_order_example :
    (is_done first_after.status ≡ true)
    × Holds (Heard long_history) first_after
    × Holds (Heard long_history) (second_after 3500)
unfolding get_step flush_events sorted_reports put_step is_text outbox_step_key append_text
    is_valid_event sort_by_sequence insert_by_sequence event_sequence event_step_output deliver
    update_outbox
acknowledged_in_order_example =
    acknowledged_in_order refl long_history key_1 key_2 first_after (second_after 3500) refl refl
      (omega arith) refl

flushed_all_example :
    (is_done (second_after 2000).status ≡ true)
    × Holds (HeardSince history accepts) (second_after 2000)
unfolding get_step flush_events sorted_reports put_step is_text outbox_step_key append_text
    is_valid_event sort_by_sequence insert_by_sequence event_sequence event_step_output deliver
    update_outbox
flushed_all_example = flushed_all refl history accepts 2000 refl key_2 (second_after 2000) refl

abbrev first_step : StepRecord
first_step = event_step hash empty "event-1" (candidate "event-1") 1000

restored_run_example :
    (a b c d : StoredRun) × (reject_outbox hashes key_1 "CONFLICT" 2000 one ≡ ok a)
    × (a.run.status ≡ needs_human)
    × (is_open_issue (issue_id_of first_step) false a.events ≡ true)
    × (retry_outbox hashes accepts 3000 key_1 a ≡ ok b)
    × (update_outbox key_1 completed event_acknowledged none none (some active) 3000 b ≡ ok c)
    × (complete_usage_review key_1 3000 c ≡ ok (true, d))
    × (d.run.status ≡ executing)
    × (is_open_issue (issue_id_of first_step) false d.events ≡ false)
unfolding get_step put_step is_text outbox_step_key append_text is_valid_event event_step_output
restored_run_example =
    restored_run hashes accepts key_1 "CONFLICT" active 2000 3000 3000 3000 one first_step _ refl
      refl refl refl refl refl refl
