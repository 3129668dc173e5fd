-- ===== src/Usage/Outbox/Stage.antt =====
-- The stages of an event that the host has rejected, and the steps of its outbox: src/core/usage-v2-coordinator.ts.
use shan_hai_edu_ppt.Base.{
  ◌≡◌, ◌∙◌, ap, sym, refl, inl, inr, Bool, true, false, Option, some, List, [], ◌∷◌, ◌++◌, String,
  append_text, any, keep, arith, Bool-cases, Result, ok, is_text, is_text_iff, is_text_self,
}
use shan_hai_edu_ppt.Contracts.{RunStatus, needs_human}
use shan_hai_edu_ppt.Contracts.UsageAccounting.{is_valid_event}
use shan_hai_edu_ppt.Policy.{RunPolicyState, transition_run, moved, can_transition}
use shan_hai_edu_ppt.Ports.{StepStatus, EventDelivery, StepRecord, AgentEvent, StoredRun}
use shan_hai_edu_ppt.Ports.Repository.{get_step, put_step}
use shan_hai_edu_ppt.Ports.Repository.Log.{some_inj}
use shan_hai_edu_ppt.Usage.{is_usage_v2}
use shan_hai_edu_ppt.Usage.Outbox.{
  OutboxCode, is_resumable, UsageOutboxOutput, resumable_only, read_event, or_invalid,
  event_step_output, written, is_usage_report, put_outbox,
}
use shan_hai_edu_ppt.Usage.Outbox.Delivery.{
  is_failed_report, issue_id_of, after_event, is_open_issue,
}
use shan_hai_edu_ppt.Usage.Outbox.Order.{report_at, report_at-some, put_hit}
use shan_hai_edu_ppt.Usage.Outbox.Moves.{read_event-valid}

pub put_step_twice :
    (t u : StepRecord) (ss : List StepRecord)
    → t.idempotency_key ≡ u.idempotency_key
    → put_step t (put_step u ss) ≡ put_step t ss
unfolding put_step
put_step_twice t u [] same =
    rw (ap (λ k. is_text k t.idempotency_key) (sym same) ∙ is_text_self t.idempotency_key) refl
put_step_twice t u (s ∷ ss) same = elim (Bool-cases (is_text s.idempotency_key t.idempotency_key)) [
  | inl hit ↦ rw hit (
      rw (ap (is_text s.idempotency_key) (sym same) ∙ hit) (
        rw (ap (λ k. is_text k t.idempotency_key) (sym same) ∙ is_text_self t.idempotency_key)
          refl))
  | inr miss ↦ rw miss (
      rw (ap (is_text s.idempotency_key) (sym same) ∙ miss)
        (rw miss (ap (λ r. s ∷ r) (put_step_twice t u ss same))))
]

pub put_step_found :
    (k : String) (x : StepRecord) (ss : List StepRecord)
    → x.idempotency_key ≡ k
    → get_step k ss ≡ some x
    → put_step x ss ≡ ss
unfolding put_step get_step
put_step_found k x [] at_k h = absurd (ground (arith, h))
put_step_found k x (s ∷ ss) at_k h = elim (Bool-cases (is_text s.idempotency_key k)) [
  | inl hit ↦
      rw (ap (is_text s.idempotency_key) at_k ∙ hit)
        (ap (λ y. y ∷ ss) (sym (some_inj (rw hit at h))))
  | inr miss ↦
      rw (ap (is_text s.idempotency_key) at_k ∙ miss)
        (ap (λ r. s ∷ r) (put_step_found k x ss at_k (rw miss at h)))
]

-- No step fails that did not, but the one that is put.
pub any_failed-put :
    (t : StepRecord) (ss : List StepRecord)
    → any is_failed_report ss ≡ false
    → is_failed_report t ≡ false
    → any is_failed_report (put_step t ss) ≡ false
unfolding put_step
any_failed-put t [] h new = rw new refl
any_failed-put t (s ∷ ss) h new = ground (arith, any_failed-put t ss)

pub keep_none :
    (ss : List StepRecord) → any is_failed_report ss ≡ false → keep is_failed_report ss ≡ []
keep_none [] h = refl
keep_none (s ∷ ss) h = ground (arith, keep_none ss)

pub is_open_issue-snoc :
    (id : String) (b : Bool) (es : List AgentEvent) (e : AgentEvent)
    → is_open_issue id b (es ++ e ∷ []) ≡ after_event id (is_open_issue id b es) e.body
unfolding is_open_issue
is_open_issue-snoc id b [] e = refl
is_open_issue-snoc id b (d ∷ es) e = is_open_issue-snoc id (after_event id b d.body) es e

can_wait :
    (status : RunStatus) (resume : Option RunStatus)
    → is_resumable status ≡ true
    → can_transition status needs_human resume ≡ true
unfolding can_transition
can_wait status resume h = ground arith

pub may_wait :
    (p : RunPolicyState)
    → is_resumable p.status ≡ true
    → transition_run p needs_human ≡ ok (moved p needs_human)
unfolding transition_run
may_wait p h = rw (can_wait p.status p.resume_state h) refl

-- The event under the key: its step, and what the run was before.
pub record Stage (key id : String) (status : RunStatus) (at : StepStatus) (delivery : EventDelivery)
    (run_status : RunStatus) (s : StoredRun) : Type 0 where
  pub step : StepRecord
  pub output : UsageOutboxOutput
  pub there : report_at key s.steps ≡ some step
  pub reads : event_step_output step ≡ ok output
  pub is_at : step.status ≡ at
  pub delivered : output.delivery_state ≡ delivery
  pub blocked : output.blocked_run_status ≡ some status
  pub waits : s.run.status ≡ run_status
  pub usage : is_usage_v2 s.run.accounting_protocol ≡ true
  pub issue : issue_id_of step ≡ id
  pub detected : is_open_issue id false s.events ≡ true
  pub others :
      (t : StepRecord)
      → t.idempotency_key ≡ key
      → is_failed_report t ≡ false
      → any is_failed_report (put_step t s.steps) ≡ false

abbrev the_output : UsageOutboxOutput → Result OutboxCode UsageOutboxOutput
the_output o = ok o

pub written-reads :
    (p : UsageOutboxOutput) (x : StepRecord) (status : RunStatus)
    → is_valid_event p.event ≡ true
    → is_resumable status ≡ true
    → p.blocked_run_status ≡ some status
    → x.output ≡ written p
    → event_step_output x ≡ ok p
unfolding event_step_output
written-reads p x status valid resumes blocked output =
    ap (λ o. or_invalid (read_event o)) output
    ∙ (rw valid (
        ap (λ (b : Option RunStatus). the_output (record p { blocked_run_status = b }))
          (ap resumable_only blocked ∙ (rw resumes refl) ∙ sym blocked)))

pub step-valid :
    (x : StepRecord) (o : UsageOutboxOutput)
    → event_step_output x ≡ ok o
    → is_valid_event o.event ≡ true
unfolding event_step_output
step-valid x o reads = read_event-valid x.output {p = o} reads

module _ (key : String) (status : RunStatus) (resumes : is_resumable status ≡ true) where
  -- A step of the event is put that differs in how the event was delivered.
  pub put-Stage :
      (id : String) (at at' : StepStatus) (d d' : EventDelivery) (r : RunStatus) (s : StoredRun)
      (g : Stage key id status at d r s) (p : UsageOutboxOutput) (new : StepRecord)
      → new.idempotency_key ≡ g.step.idempotency_key
      → new.id ≡ g.step.id
      → new.tool ≡ g.step.tool
      → new.status ≡ at'
      → new.output ≡ written p
      → p.event ≡ g.output.event
      → p.delivery_state ≡ d'
      → p.blocked_run_status ≡ g.output.blocked_run_status
      → Stage key id status at' d' r (put_outbox new s)
  put-Stage id at at' d d' r s g p new same_key same_id same_tool is_at out same_event delivered
        same_blocked =
      let (found, report, at_k) = report_at-some key s.steps {x = g.step} g.there in
      record {
        step = new;
        output = p;
        there =
            put_hit key new s.steps ((is_text_iff new.idempotency_key key).1 (same_key ∙ at_k))
            ∙ (rw (ap is_usage_report same_tool ∙ report) refl);
        reads =
            written-reads p new status
              (ap is_valid_event same_event ∙ step-valid g.step g.output g.reads) resumes
              (same_blocked ∙ g.blocked) out;
        is_at = is_at;
        delivered = delivered;
        blocked = same_blocked ∙ g.blocked;
        waits = g.waits;
        usage = g.usage;
        issue = ap (λ k. append_text k ":usage-v2-delivery") same_id ∙ g.issue;
        detected = g.detected;
        others = λ t t_key unfailed.
            ap (any is_failed_report) (put_step_twice t new s.steps (t_key ∙ sym (same_key ∙ at_k)))
            ∙ g.others t t_key unfailed;
      }
