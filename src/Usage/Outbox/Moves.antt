-- ===== src/Usage/Outbox/Moves.antt =====
-- What the transactions of the outbox in src/core/usage-v2-coordinator.ts do to its steps.
use shan_hai_edu_ppt.Base.{
  ℕ, ◌≡◌, ◌∙◌, ap, subst, sym, refl, inl, inr, Bool, true, Option, none, some, List, String,
  is_text, is_text_iff, arith, Bool-cases, Result, ok, err, bind_ok,
}
use shan_hai_edu_ppt.Contracts.UsageAccounting.{UsageEvent, BillStatus, is_valid_event}
use shan_hai_edu_ppt.Ports.{
  StepStatus, EventDelivery, Output, usage_event_output, StepRecord, StoredRun,
}
use shan_hai_edu_ppt.Ports.Repository.{put_step}
use shan_hai_edu_ppt.Usage.Outbox.{
  OutboxCode, UsageOutboxOutput, read_event, or_invalid, event_step_output, written,
  is_usage_report, update_outbox,
}
use shan_hai_edu_ppt.Usage.Outbox.Delivery.{is_done}
use shan_hai_edu_ppt.Usage.Outbox.Flush.{sequence_of, event_sequence}
use shan_hai_edu_ppt.Usage.Outbox.Order.{
  report_at, report_at-some, put_hit, put_miss, SameReports, IsMap, put_step-IsMap, InOrder,
  SameReports-InOrder, put-InOrder,
}

abbrev event_in : Result OutboxCode UsageOutboxOutput → Option UsageEvent
event_in (err e) = none
event_in (ok o) = some o.event

-- The event of a report.
abbrev pub report_event : StepRecord → Option UsageEvent
report_event s = event_in (event_step_output s)

-- The report `x` was replaced by one with its key, its number and its event.
pub record Puts (x : StepRecord) (is_over : Bool) (ss tt : List StepRecord) : Type 0 where
  pub new : StepRecord
  pub same : SameReports (put_step new ss) tt
  pub map : IsMap ss → IsMap tt
  pub key : new.idempotency_key ≡ x.idempotency_key
  pub number : event_sequence new ≡ event_sequence x
  pub event : report_event new ≡ report_event x
  pub over : is_done new.status ≡ is_over
  pub report : is_usage_report new.tool ≡ true

-- Two replacements are one.
pub Puts-trans :
    (x y : StepRecord) (b c : Bool) (ss tt uu : List StepRecord)
    → Puts x b ss tt
    → y.idempotency_key ≡ x.idempotency_key
    → event_sequence y ≡ event_sequence x
    → report_event y ≡ report_event x
    → Puts y c tt uu
    → Puts x c ss uu
Puts-trans x y b c ss tt uu p key number event q = record {
  new = q.new;
  same = λ k. q.same k ∙ put_over q.new p.new ss tt (p.key ∙ sym key ∙ sym q.key) p.same k;
  map = λ m. q.map (p.map m);
  key = q.key ∙ key;
  number = q.number ∙ number;
  event = q.event ∙ event;
  over = q.over;
  report = q.report;
}
  where
    put_over :
        (n o : StepRecord) (ss tt : List StepRecord)
        → o.idempotency_key ≡ n.idempotency_key
        → SameReports (put_step o ss) tt
        → SameReports (put_step n ss) (put_step n tt)
    put_over n o ss tt same_key same k = elim (Bool-cases (is_text n.idempotency_key k)) [
      | inl hit ↦ put_hit k n tt hit ∙ sym (put_hit k n ss hit)
      | inr miss ↦
          put_miss k n tt miss
          ∙ same k
          ∙ put_miss k o ss (ap (λ l. is_text l k) same_key ∙ miss)
          ∙ sym (put_miss k n ss miss)
    ]

-- A report keeps its state, or stays unacknowledged.
pub Puts-InOrder :
    (x : StepRecord) (b : Bool) (ss tt : List StepRecord)
    → Puts x b ss tt
    → report_at x.idempotency_key ss ≡ some x
    → is_done x.status ≡ b
    → InOrder ss
    → InOrder tt
Puts-InOrder x b ss tt p there done o =
    SameReports-InOrder (put_step p.new ss) tt p.same
      (put-InOrder ss x p.new o there p.key p.number (p.over ∙ sym done))

ok_output :
    {o p : UsageOutboxOutput} → ◌≡◌ {A = Result OutboxCode UsageOutboxOutput} (ok o) (ok p) → o ≡ p
ok_output h = cc

pub ok_run : {s t : StoredRun} → ◌≡◌ {A = Result OutboxCode StoredRun} (ok s) (ok t) → s ≡ t
ok_run h = cc

pub ok_step : {s t : StepRecord} → ◌≡◌ {A = Result OutboxCode StepRecord} (ok s) (ok t) → s ≡ t
ok_step h = cc

pub read_event-valid :
    (o : Output) {p : UsageOutboxOutput}
    → or_invalid (read_event o) ≡ ok p
    → is_valid_event p.event ≡ true
read_event-valid (usage_event_output e (some state) next bill blocked) {p} h =
    elim (Bool-cases (is_valid_event e)) [
      | inr invalid ↦ absurd (ground (arith, rw invalid at h))
      | inl valid ↦
          ap (λ (q : UsageOutboxOutput). is_valid_event q.event) (sym (ok_output (rw valid at h)))
          ∙ valid
    ]
read_event-valid _ {p} h = absurd (ground (arith, h))

-- What is written of a step is read back with the event that it had.
pub written-number :
    (x : StepRecord) (o p : UsageOutboxOutput) (new : StepRecord)
    → event_step_output x ≡ ok o
    → p.event ≡ o.event
    → new.output ≡ written p
    → event_sequence new ≡ event_sequence x
unfolding event_sequence event_step_output
written-number x o p new reads same output =
    ap (λ out. sequence_of (or_invalid (read_event out))) output
    ∙ (rw (ap is_valid_event same ∙ read_event-valid x.output {p = o} reads)
        (ap (λ (e : UsageEvent). e.sequence) same ∙ sym (ap sequence_of reads)))

written-event :
    (x : StepRecord) (o p : UsageOutboxOutput) (new : StepRecord)
    → event_step_output x ≡ ok o
    → p.event ≡ o.event
    → new.output ≡ written p
    → report_event new ≡ report_event x
unfolding event_step_output
written-event x o p new reads same output =
    ap (λ out. event_in (or_invalid (read_event out))) output
    ∙ (rw (ap is_valid_event same ∙ read_event-valid x.output {p = o} reads)
        (ap some same ∙ sym (ap event_in reads)))

pub report_event-some :
    (x : StepRecord) {o : UsageOutboxOutput}
    → event_step_output x ≡ ok o
    → report_event x ≡ some o.event
report_event-some x reads = ap event_in reads

pub put-Puts :
    (x : StepRecord) (o p : UsageOutboxOutput) (new : StepRecord) (b : Bool)
    (ss tt : List StepRecord)
    → event_step_output x ≡ ok o
    → p.event ≡ o.event
    → new.output ≡ written p
    → new.idempotency_key ≡ x.idempotency_key
    → is_done new.status ≡ b
    → is_usage_report new.tool ≡ true
    → tt ≡ put_step new ss
    → Puts x b ss tt
put-Puts x o p new b ss tt reads same output key over report steps = record {
  new = new;
  same = λ k. ap (report_at k) steps;
  map = λ m. subst IsMap (sym steps) (put_step-IsMap new ss m);
  key = key;
  number = written-number x o p new reads same output;
  event = written-event x o p new reads same output;
  over = over;
  report = report;
}

pub Puts-there :
    (x : StepRecord) (b : Bool) (ss tt : List StepRecord) (k : String)
    → (p : Puts x b ss tt) → x.idempotency_key ≡ k
    → report_at k tt ≡ some p.new
Puts-there x b ss tt k p at_k =
    p.same k
    ∙ put_hit k p.new ss ((is_text_iff p.new.idempotency_key k).1 (p.key ∙ at_k))
    ∙ (rw p.report refl)

pub update_outbox-Puts :
    (k : String) (x : StepRecord) (status : StepStatus) (state : EventDelivery)
    (code : Option String) (next : Option ℕ) (bill : Option BillStatus) (now : ℕ) (s t : StoredRun)
    → report_at k s.steps ≡ some x
    → update_outbox k status state code next bill now s ≡ ok t
    → Puts x (is_done status) s.steps t.steps
unfolding update_outbox
update_outbox-Puts k x status state code next bill now s t there h =
    let (found, report, at_k) = report_at-some k s.steps {x = x} there in
    let h1 = rw found at h in
    let (o, reads, h2) = bind_ok (event_step_output x) _ h1 in
    put-Puts x o (record o { delivery_state = state; next_attempt_at = next; bill_status = bill }) _
      (is_done status) s.steps t.steps reads refl refl refl refl report
      (ap (λ (r : StoredRun). r.steps) (sym (ok_run h2)))
