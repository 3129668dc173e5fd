-- ===== src/Usage/Outbox/Enqueued.antt =====
-- Enqueuing an event: `enqueueEvent` of src/core/usage-v2-coordinator.ts.
use shan_hai_edu_ppt.Base.{
  ℕ, ◌+◌, max, ◌≡◌, ◌∙◌, ◌≤◌, ◌<◌, ap, subst, sym, refl, ◌⊎◌, inl, inr, true, false, Option, none,
  some, List, [], ◌∷◌, String, is_text, is_text_self, arith, Bool-cases, Result, ok, bind_ok,
}
use shan_hai_edu_ppt.Contracts.UsageAccounting.{UsageEvent, trimmed_event, is_valid_event}
use shan_hai_edu_ppt.Ports.{StepRecord, StoredRun}
use shan_hai_edu_ppt.Ports.Repository.{get_step, put_step}
use shan_hai_edu_ppt.Ports.Repository.Log.{get_step-put_step, some_inj}
use shan_hai_edu_ppt.Usage.Outbox.{
  OutboxCode, event_step_output, is_usage_report, outbox_step_key, put_outbox, last_event_sequence,
  event_step, enqueue_by, enqueue_event,
}
use shan_hai_edu_ppt.Usage.Outbox.Delivery.{is_done}
use shan_hai_edu_ppt.Usage.Outbox.Flush.{event_sequence, sequence_of}
use shan_hai_edu_ppt.Usage.Outbox.Order.{report_at, report_at-some}
use shan_hai_edu_ppt.Usage.Outbox.Moves.{ok_run}

ok_number : {m n : ℕ} → ◌≡◌ {A = Result OutboxCode ℕ} (ok m) (ok n) → m ≡ n
ok_number h = cc

-- No report has a larger number than the last.
last-report :
    (ss : List StepRecord) (n : ℕ) (k : String) {y : StepRecord}
    → last_event_sequence ss ≡ ok n
    → get_step k ss ≡ some y
    → is_usage_report y.tool ≡ true
    → event_sequence y ≤ n
unfolding last_event_sequence get_step event_sequence
last-report [] n k {y} h there report = absurd (ground (arith, there))
last-report (s ∷ ss) n k {y} h there report = elim (Bool-cases (is_usage_report s.tool)) [
  | inr other ↦ elim (Bool-cases (is_text s.idempotency_key k)) [
    | inr later ↦ last-report ss n k {y = y} (rw other at h) (rw later at there) report
    | inl here ↦
        let same : s ≡ y = some_inj (rw here at there) in
        absurd (ground (arith, ap (λ (x : StepRecord). is_usage_report x.tool) same, other, report))
  ]
  | inl is_report ↦
      let (o, reads, h1) = bind_ok (event_step_output s) _ (rw is_report at h) in
      let (m, last, h2) = bind_ok (last_event_sequence ss) _ h1 in
      let is_n : max o.event.sequence m ≡ n = ok_number h2 in
      elim (Bool-cases (is_text s.idempotency_key k)) [
        | inr later ↦
            omega (arith, is_n, last-report ss m k {y = y} last (rw later at there) report)
        | inl here ↦
            let same : s ≡ y = some_inj (rw here at there) in
            omega (arith, is_n, ap event_sequence same, ap sequence_of reads)
      ]
]

-- The event is in the outbox already, or is put there with a number larger than any.
pub record IsNew (s t : StoredRun) : Type 0 where
  pub new : StepRecord
  pub put : t ≡ put_outbox new s
  pub report : is_usage_report new.tool ≡ true
  pub waits : is_done new.status ≡ false
  pub fresh : get_step new.idempotency_key s.steps ≡ none
  pub last :
      (k : String) (y : StepRecord)
      → report_at k s.steps ≡ some y
      → event_sequence y < event_sequence new

module _ (hash : UsageEvent → String) where
  new_step-number :
      (s : StoredRun) (id : String) (e : UsageEvent) (now : ℕ)
      → is_valid_event e ≡ true
      → event_sequence (event_step hash s id e now) ≡ e.sequence
  unfolding event_sequence event_step_output
  new_step-number s id e now valid = rw valid refl

  enqueue_by-IsNew :
      (c : UsageEvent) (now : ℕ) (s t : StoredRun) (o : Option StepRecord)
      → get_step (outbox_step_key s.run.id c.event_id) s.steps ≡ o
      → enqueue_by hash c now s o ≡ ok t
      → (t ≡ s) ⊎ IsNew s t
  enqueue_by-IsNew c now s t (some step) there h =
      let (o, reads, h1) = bind_ok (event_step_output step) _ h in
      elim (Bool-cases
        (is_text step.input_hash (hash (record c { sequence = o.event.sequence })))) [
          | inl same ↦ inl (sym (ok_run (rw same at h1)))
          | inr other ↦ absurd (ground (arith, rw other at h1))
        ]
  enqueue_by-IsNew c now s t none fresh h =
      let (n, last, h1) = bind_ok (last_event_sequence s.steps) _ h in
      let e = trimmed_event (record c { sequence = n + 1 }) in
      elim (Bool-cases (is_valid_event e)) [
        | inr invalid ↦ absurd (ground (arith, rw invalid at h1))
        | inl valid ↦ inr (record {
          new = event_step hash s c.event_id e now;
          put = sym (ok_run (rw valid at h1));
          report = refl;
          waits = refl;
          fresh = fresh;
          last = λ k y there.
              let (found, report, at_k) = report_at-some k s.steps {x = y} there in
              omega (
                arith,
                last-report s.steps n k {y = y} last found report,
                new_step-number s c.event_id e now valid,
              );
        })
      ]

  pub enqueue_event-IsNew :
      (c : UsageEvent) (now : ℕ) (s t : StoredRun)
      → enqueue_event hash c now s ≡ ok t
      → (t ≡ s) ⊎ IsNew s t
  unfolding enqueue_event
  enqueue_event-IsNew c now s t h =
      enqueue_by-IsNew c now s t (get_step (outbox_step_key s.run.id c.event_id) s.steps) refl h

  found_new :
      (s : StoredRun) (id : String) (e : UsageEvent) (now : ℕ)
      → get_step (outbox_step_key s.run.id id) (put_step (event_step hash s id e now) s.steps)
        ≡ some (event_step hash s id e now)
  found_new s id e now =
      let key = outbox_step_key s.run.id id in
      get_step-put_step key (event_step hash s id e now) s.steps ∙ (rw (is_text_self key) refl)

  new_step-again :
      (c : UsageEvent) (n now later : ℕ) (s t : StoredRun)
      → trimmed_event c ≡ c
      → is_valid_event (trimmed_event (record c { sequence = n })) ≡ true
      → enqueue_by hash c later t
          (some (event_step hash s c.event_id (trimmed_event (record c { sequence = n })) now))
        ≡ ok t
  unfolding event_step_output
  new_step-again c n now later s t trims valid =
      let e = trimmed_event (record c { sequence = n }) in
      let same : e ≡ record c { sequence = n } =
        ap (λ (x : UsageEvent). record x { sequence = n }) trims in
      rw valid (
        rw (ap (λ (x : UsageEvent). is_text (hash e) (hash x)) (sym same) ∙ is_text_self (hash e))
          refl)

  enqueue_by-again :
      (c : UsageEvent) (now later : ℕ) (s t : StoredRun) (o : Option StepRecord)
      → get_step (outbox_step_key s.run.id c.event_id) s.steps ≡ o
      → trimmed_event c ≡ c
      → enqueue_by hash c now s o ≡ ok t
      → enqueue_event hash c later t ≡ ok t
  unfolding enqueue_event
  enqueue_by-again c now later s t (some step) there trims h =
      let (o, reads, h1) = bind_ok (event_step_output step) _ h in
      let is_same = is_text step.input_hash (hash (record c { sequence = o.event.sequence })) in
      elim (Bool-cases is_same) [
        | inr other ↦ absurd (ground (arith, rw other at h1))
        | inl same ↦
            subst (λ (r : StoredRun). enqueue_event hash c later r ≡ ok r) (ok_run (rw same at h1))
              (ap (enqueue_by hash c later s) there ∙ (rw reads (rw same refl)))
      ]
  enqueue_by-again c now later s t none fresh trims h =
      let (n, last, h1) = bind_ok (last_event_sequence s.steps) _ h in
      let e = trimmed_event (record c { sequence = n + 1 }) in
      let after = put_outbox (event_step hash s c.event_id e now) s in
      elim (Bool-cases (is_valid_event e)) [
        | inr invalid ↦ absurd (ground (arith, rw invalid at h1))
        | inl valid ↦
            subst (λ (r : StoredRun). enqueue_event hash c later r ≡ ok r) (ok_run (rw valid at h1))
              (ap (enqueue_by hash c later after) (found_new s c.event_id e now)
                ∙ new_step-again c (n + 1) now later s after trims valid)
      ]

  -- When an event whose identifiers have no space at their ends could be enqueued, enqueuing the
  -- same event again, at any time, returns and changes nothing.
  pub enqueue_again :
      (c : UsageEvent) (now later : ℕ) (s t : StoredRun)
      → trimmed_event c ≡ c
      → enqueue_event hash c now s ≡ ok t
      → enqueue_event hash c later t ≡ ok t
  unfolding enqueue_event
  enqueue_again c now later s t trims h =
      enqueue_by-again c now later s t (get_step (outbox_step_key s.run.id c.event_id) s.steps) refl
        trims h
