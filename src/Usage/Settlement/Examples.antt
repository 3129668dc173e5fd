-- ===== src/Usage/Settlement/Examples.antt =====
-- The settlement of a run on concrete data: src/core/usage-v2-coordinator.ts.
use shan_hai_edu_ppt.Base.{
  ◌≡◌, ◌⊎◌, refl, true, false, none, some, List, [], ◌∷◌, ◌++◌, Result, ok, String, any,
  append_text, trim, is_text,
}
use shan_hai_edu_ppt.Contracts.{completed, failed, visual_deck_v4}
use shan_hai_edu_ppt.Contracts.Lifecycle.{LifecyclePayload, run_stage}
use shan_hai_edu_ppt.Contracts.UsageAccounting.{
  UsageRequestError, UsageRunBill, settled, is_valid_event,
}
use shan_hai_edu_ppt.Lease.{is_pending_media_reconciliation_step}
use shan_hai_edu_ppt.Ports.{pending, StepRecord, run_completed, AgentEvent, StoredRun}
use shan_hai_edu_ppt.Ports.Repository.{get_step, put_step}
use shan_hai_edu_ppt.Lifecycle.{find_last}
use shan_hai_edu_ppt.Usage.{
  usage_v2_finalize_step_key, is_usage_v2_run_finalization_acknowledged, finalize_step_output,
}
use shan_hai_edu_ppt.Usage.Enqueue.{new_finalize_step}
use shan_hai_edu_ppt.Usage.Outbox.{
  put_outbox, event_step, enqueue_event, last_event_sequence, event_step_output, outbox_step_key,
  update_outbox,
}
use shan_hai_edu_ppt.Usage.Outbox.Delivery.{is_done}
use shan_hai_edu_ppt.Usage.Outbox.Flush.{
  flush_events, deliver, sorted_reports, sort_by_sequence, insert_by_sequence,
}
use shan_hai_edu_ppt.Usage.Outbox.Order.{report_at, other_put, put_step-IsMap}
use shan_hai_edu_ppt.Usage.Outbox.Failing.{Keeps}
use shan_hai_edu_ppt.Usage.Outbox.History.{History, HeardSince, here, next, enqueues, elsewhere}
use shan_hai_edu_ppt.Usage.Outbox.Answered.{Holds}
use shan_hai_edu_ppt.Usage.Outbox.Examples.{hashes, hash, candidate, run, accepts}
use shan_hai_edu_ppt.Usage.Settlement.{
  update_finalization, restore_completed_run_after_finalization,
}
use shan_hai_edu_ppt.Usage.Settlement.Reconcile.{
  reconcile_terminal_run, rejected_update, settled_update,
}
use shan_hai_edu_ppt.Usage.Settlement.Asked.{asked_after_events}
use shan_hai_edu_ppt.Usage.Settlement.Settled.{settled_after_events}
use shan_hai_edu_ppt.Usage.Settlement.Revived.{revived_run}

abbrev payload : LifecyclePayload
payload = record {
  stage = run_stage;
  completed_count = 1;
  total = 1;
  page_numbers = 1 ∷ 2 ∷ [];
  revision_kind = none;
  revision_round = 0;
  max_revision_rounds = 2;
  budget_units = 10;
  committed_budget_units = 0;
  reason = none;
  retryable = none;
  requires_user_action = false;
  next_action = none;
}

abbrev ended : StoredRun
ended = record {
  run = record run {
    policy = record run.policy { status = completed; presentation_mode = some visual_deck_v4 };
  };
  steps = [];
  events = record { sequence = 1; created_at = 900; body = run_completed (some payload) } ∷ [];
}

abbrev reported : StoredRun
reported = put_outbox (event_step hash ended "event-1" (candidate "event-1") 1000) ended

abbrev finalization : StepRecord
finalization = new_finalize_step hashes ended.run 1100

abbrev open_run : StoredRun
open_run = put_outbox finalization reported

event_reported : enqueue_event hash (candidate "event-1") 1000 ended ≡ ok reported
unfolding enqueue_event trim get_step last_event_sequence is_valid_event
event_reported = refl

finalization_kept : Keeps reported.steps open_run.steps
unfolding get_step put_step usage_v2_finalize_step_key outbox_step_key is_text append_text
finalization_kept = record {
  same = other_put finalization reported.steps refl refl;
  map = put_step-IsMap finalization reported.steps;
}

abbrev history : History hashes hash ended open_run
history =
    next (next here (enqueues (candidate "event-1") 1000 event_reported))
      (elsewhere finalization_kept)

abbrev settles_all : String → String → Result UsageRequestError UsageRunBill
settles_all run_id key =
    ok (record { ppt_run_id = run_id; status = settled; next_reconcile_at = none })

asked_after_events_example :
    (((k : String) (y : StepRecord)
        → report_at k (flush_events hashes accepts 2000 open_run).1.steps ≡ some y
        → (is_done y.status ≡ true) × Holds (HeardSince history accepts) y)
      × (any is_pending_media_reconciliation_step
            (flush_events hashes accepts 2000 open_run).1.steps
          ≡ false))
    ⊎ ((f g : String → String → Result UsageRequestError UsageRunBill)
        → reconcile_terminal_run hashes accepts f 2000 open_run
          ≡ reconcile_terminal_run hashes accepts g 2000 open_run)
asked_after_events_example = asked_after_events refl history accepts 2000

settled_after_events_example :
    ((k : String) (y : StepRecord)
      → report_at k (reconcile_terminal_run hashes accepts settles_all 2000 open_run).1.steps
        ≡ some y
      → (is_done y.status ≡ true) × Holds (HeardSince history accepts) y)
    × (is_usage_v2_run_finalization_acknowledged (
          get_step
            (usage_v2_finalize_step_key
              (reconcile_terminal_run hashes accepts settles_all 2000 open_run).1.run.id)
            (reconcile_terminal_run hashes accepts settles_all 2000 open_run).1.steps)
        ≡ true)
unfolding get_step put_step usage_v2_finalize_step_key outbox_step_key is_text append_text
    reconcile_terminal_run finalize_step_output flush_events sorted_reports sort_by_sequence
    insert_by_sequence deliver event_step_output is_valid_event update_outbox
    is_pending_media_reconciliation_step update_finalization
    restore_completed_run_after_finalization
settled_after_events_example =
    settled_after_events refl history accepts settles_all 2000 finalization refl refl refl

revived_run_example :
    (a b : StoredRun) × (es : List AgentEvent) × (e : AgentEvent) × (update_finalization
        (rejected_update "CONFLICT" none)
        2000
        open_run
      ≡ ok a)
    × (a.run.status ≡ failed)
    × (update_finalization (settled_update settled) 3000 a ≡ ok b)
    × (b.run.status ≡ completed)
    × (b.events ≡ es ++ e ∷ [])
    × (e.body ≡ run_completed (some payload))
unfolding get_step put_step usage_v2_finalize_step_key outbox_step_key is_text append_text
    finalize_step_output find_last
revived_run_example =
    revived_run "CONFLICT" none (settled_update settled) 2000 3000 open_run finalization
      (record { delivery_state = pending; next_attempt_at = some 1100; bill = none }) payload
      (refl, tt) refl refl refl refl refl refl refl refl
