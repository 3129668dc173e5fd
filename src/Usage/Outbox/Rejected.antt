-- ===== src/Usage/Outbox/Rejected.antt =====
-- The host rejects an event, and the run waits: src/core/usage-v2-coordinator.ts.
use shan_hai_edu_ppt.Base.{
  ℕ, ◌≡◌, ◌∙◌, ap, sym, refl, inl, inr, true, false, none, some, String, any, Bool-cases, Result,
  ok, is_text_iff, is_text_self,
}
use shan_hai_edu_ppt.Contracts.{RunStatus, needs_human, is_v4}
use shan_hai_edu_ppt.Contracts.UsageAccounting.{UsageEvent, BillStatus, UsageRequestError}
use shan_hai_edu_ppt.Policy.{moved}
use shan_hai_edu_ppt.Ports.{
  failed, event_rejected, StepRecord, phase_changed, other_event, RunRecord, StoredRun,
}
use shan_hai_edu_ppt.Ports.Repository.{put_step, append_event}
use shan_hai_edu_ppt.Usage.{is_usage_v2}
use shan_hai_edu_ppt.Usage.Enqueue.{Hashes}
use shan_hai_edu_ppt.Usage.Outbox.{
  is_resumable, UsageOutboxOutput, event_step_output, written, put_outbox,
}
use shan_hai_edu_ppt.Usage.Outbox.Delivery.{
  is_failed_report, first_blocked, issue_id_of, is_open_issue, detect_delivery_issue,
  wait_for_human, block_run, reject_outbox,
}
use shan_hai_edu_ppt.Usage.Outbox.Order.{report_at, report_at-some, put_hit}
use shan_hai_edu_ppt.Usage.Outbox.Rejections.{detect_steps}
use shan_hai_edu_ppt.Usage.Outbox.Stage.{
  put_step_twice, any_failed-put, keep_none, is_open_issue-snoc, may_wait, written-reads,
  step-valid, Stage,
}

module _ (hashes : Hashes) (host : UsageEvent → Result UsageRequestError BillStatus) (key : String)
    (status : RunStatus) (resumes : is_resumable status ≡ true) where
  blocked :
      (id code : String) (now : ℕ) (s : StoredRun)
      → Stage key id status failed event_rejected status s
      → is_v4 s.run.presentation_mode ≡ false
      → (t : StoredRun) × (block_run hashes code now s ≡ ok t)
        × Stage key id status failed event_rejected needs_human t
  unfolding append_event
  blocked id code now s g other =
      let policy = may_wait s.run.policy (ap is_resumable g.waits ∙ resumes) in
      (
        append_event
            (append_event
              (record s {
                run = record s.run { policy = moved s.run.policy needs_human; updated_at = now };
              })
              (phase_changed s.run.status needs_human code))
            (other_event "approval.required"),
        rw (ap is_resumable g.waits ∙ resumes) (rw other (rw (policy, wait_for_human) refl)),
        record {
          step = g.step;
          output = g.output;
          there = g.there;
          reads = g.reads;
          is_at = g.is_at;
          delivered = g.delivered;
          blocked = g.blocked;
          waits = refl;
          usage = g.usage;
          issue = g.issue;
          detected =
              is_open_issue-snoc id false _ _ ∙ is_open_issue-snoc id false s.events _ ∙ g.detected;
          others = g.others;
        },
      )

  detected_run :
      (x : StepRecord) (code : String) (s : StoredRun)
      → ((detect_delivery_issue x code s).run ≡ s.run)
        × (is_open_issue (issue_id_of x) false (detect_delivery_issue x code s).events ≡ true)
  unfolding append_event
  detected_run x code s = elim (Bool-cases (is_open_issue (issue_id_of x) false s.events)) [
    | inl there ↦ rw there (refl, there)
    | inr closed ↦ rw closed (
      refl,
      is_open_issue-snoc (issue_id_of x) false s.events _
          ∙ (rw (closed, is_text_self (issue_id_of x)) refl),
    )
  ]

  pub rejected :
      (code : String) (now : ℕ) (s : StoredRun) (x : StepRecord) (o : UsageOutboxOutput)
      → report_at key s.steps ≡ some x
      → event_step_output x ≡ ok o
      → o.blocked_run_status ≡ none
      → s.run.status ≡ status
      → is_v4 s.run.presentation_mode ≡ false
      → is_usage_v2 s.run.accounting_protocol ≡ true
      → any is_failed_report s.steps ≡ false
      → (t : StoredRun) × (reject_outbox hashes key code now s ≡ ok t)
        × Stage key (issue_id_of x) status failed event_rejected needs_human t
  unfolding reject_outbox first_blocked
  rejected code now s x o there reads unblocked runs other usage unfailed =
      let (found, report, at_k) = report_at-some key s.steps {x = x} there in
      let after : UsageOutboxOutput = record o {
        delivery_state = event_rejected;
        next_attempt_at = none;
        bill_status = none;
        blocked_run_status = some s.run.status;
      } in
      let new : StepRecord = record x {
        status = failed;
        error_code = some code;
        output = written after;
        updated_at = now;
      } in
      let before = detect_delivery_issue x code (put_outbox new s) in
      let (run, open_now) = detected_run x code (put_outbox new s) in
      let steps : before.steps ≡ put_step new s.steps = detect_steps x code (put_outbox new s) in
      let stage : Stage key (issue_id_of x) status failed event_rejected status before = record {
        step = new;
        output = after;
        there =
            ap (report_at key) steps
            ∙ put_hit key new s.steps ((is_text_iff new.idempotency_key key).1 at_k)
            ∙ (rw report refl);
        reads = written-reads after new status (step-valid x o reads) resumes (ap some runs) refl;
        is_at = refl;
        delivered = refl;
        blocked = ap some runs;
        waits = ap (λ (r : RunRecord). r.status) run ∙ runs;
        usage = ap (λ (r : RunRecord). is_usage_v2 r.accounting_protocol) run ∙ usage;
        issue = refl;
        detected = open_now;
        others = λ t t_key well.
            ap (λ ss. any is_failed_report (put_step t ss)) steps
            ∙ ap (any is_failed_report) (put_step_twice t new s.steps (t_key ∙ sym at_k))
            ∙ any_failed-put t s.steps unfailed well;
      } in
      let (t, blocks, after_block) =
        blocked (issue_id_of x) code now before stage
          (ap (λ (r : RunRecord). is_v4 r.presentation_mode) run ∙ other) in
      (
        t,
        (rw
              (
                found,
                report,
                reads,
                unblocked,
                keep_none s.steps unfailed,
                ap is_resumable runs ∙ resumes,
              )
              refl)
            ∙ blocks,
        after_block,
      )
