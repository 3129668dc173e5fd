-- ===== src/Usage/Enqueue.antt =====
-- src/core/usage-v2-coordinator.ts: enqueueUsageV2RunFinalization.
use Prim.Native.String.{◌++◌}
use shan_hai_edu_ppt.Base.{
  ℕ, ◌≡◌, refl, sym, ◌∙◌, inl, inr, true, false, not, ◌&&◌, ◌||◌, Option, none, some, String, arith,
  is_text, is_text_self, is_none, if◌then◌else◌, Result, ok, err, Bool-cases, Option-cases, &&_iff,
}
use shan_hai_edu_ppt.Policy.{is_terminal_status}
use shan_hai_edu_ppt.Ports.{
  StepRecord, running, finalize_usage_v2, finalize_output, pending, StoredRun, RunRecord,
}
use shan_hai_edu_ppt.Ports.Repository.{get_step, put_step}
use shan_hai_edu_ppt.Ports.Repository.Log.{get_step-put_step}
use shan_hai_edu_ppt.Usage.{
  is_usage_v2, usage_v2_finalize_step_key, finalize_request_key, finalize_step_output, is_finalize,
  is_usage_v2_run_finalization_retry_scheduled,
}

pub data UsageCode : Type 0 where
  usage_v2_terminal_run_required usage_v2_finalize_idempotency_conflict : UsageCode
  usage_v2_finalize_outbox_invalid : UsageCode

-- The two hashes: SHA-256 of the canonical JSON of `{ tool, runId, idempotencyKey }`, by the run's
-- id and the request's key, and the first 28 digits of that of `{ runId, tool }`, by the run's id.
pub record Hashes : Type 0 where
  pub input_hash : String → String → String
  pub step_hash : String → String

abbrev the_ok : Option StepRecord → StoredRun → Result UsageCode (Option StepRecord × StoredRun)
the_ok a u = ok (a, u)

parts : {a b : Option StepRecord} {u v : StoredRun} → the_ok a u ≡ the_ok b v → (a ≡ b) × (u ≡ v)
parts {a} {b} {u} {v} h = ground arith

module _ (hashes : Hashes) where
  abbrev pub finalize_input_hash : RunRecord → String
  finalize_input_hash run = hashes.input_hash run.id (finalize_request_key run.id)

  abbrev pub new_finalize_step : RunRecord → ℕ → StepRecord
  new_finalize_step run now = record {
    id = "step-" ++ hashes.step_hash run.id;
    run_id = run.id;
    idempotency_key = usage_v2_finalize_step_key run.id;
    input_hash = finalize_input_hash run;
    tool = finalize_usage_v2;
    status = running;
    budget_units = 0;
    budget_reservation_id = none;
    external_operation_id = none;
    error_code = none;
    output = finalize_output (finalize_request_key run.id) pending (some now) none;
    created_at = now;
    updated_at = now;
  }

  -- A step that is there already is checked and given again.
  abbrev pub check_existing :
      StoredRun → StepRecord → Result UsageCode (Option StepRecord × StoredRun)
  check_existing s step =
      if not (is_finalize step.tool) || not (is_text step.input_hash (finalize_input_hash s.run))
      then err usage_v2_finalize_idempotency_conflict
      else if is_none (finalize_step_output step)
      then err usage_v2_finalize_outbox_invalid
      else ok (some step, s)

  unfoldable pub enqueue_usage_v2_run_finalization :
      ℕ → StoredRun → Result UsageCode (Option StepRecord × StoredRun)
  enqueue_usage_v2_run_finalization now s =
      if not (is_usage_v2 s.run.accounting_protocol)
      then ok (none, s)
      else if not (is_terminal_status s.run.status)
      then err usage_v2_terminal_run_required
      else elim (get_step (usage_v2_finalize_step_key s.run.id) s.steps) [
        | some step ↦ check_existing s step
        | none ↦
            let step = new_finalize_step s.run now in
            ok (some step, record s { steps = put_step step s.steps })
      ]

  new_step_reads :
      (run : RunRecord) (now : ℕ)
      → is_none (finalize_step_output (new_finalize_step run now)) ≡ false
  unfolding finalize_step_output
  new_step_reads run now = rw (is_text_self (finalize_request_key run.id))

  check_existing_new :
      (s : StoredRun) (now : ℕ)
      → check_existing s (new_finalize_step s.run now) ≡ ok (some (new_finalize_step s.run now), s)
  check_existing_new s now =
      rw (is_text_self (finalize_input_hash s.run), new_step_reads s.run now) refl

  get_new_step :
      (s : StoredRun) (now : ℕ)
      → get_step
          (usage_v2_finalize_step_key s.run.id)
          (put_step (new_finalize_step s.run now) s.steps)
        ≡ some (new_finalize_step s.run now)
  get_new_step s now =
      get_step-put_step (usage_v2_finalize_step_key s.run.id) (new_finalize_step s.run now) s.steps
      ∙ rw (is_text_self (usage_v2_finalize_step_key s.run.id)) refl

  enqueue_fresh :
      (now : ℕ) (s : StoredRun)
      → is_usage_v2 s.run.accounting_protocol ≡ true
      → is_terminal_status s.run.status ≡ true
      → get_step (usage_v2_finalize_step_key s.run.id) s.steps ≡ none
      → enqueue_usage_v2_run_finalization now s
        ≡ ok (
          some (new_finalize_step s.run now),
          record s { steps = put_step (new_finalize_step s.run now) s.steps },
        )
  unfolding enqueue_usage_v2_run_finalization
  enqueue_fresh now s usage ended fresh = rw (usage, ended, fresh) refl

  enqueue_found :
      (now : ℕ) (s : StoredRun) (step : StepRecord)
      → is_usage_v2 s.run.accounting_protocol ≡ true
      → is_terminal_status s.run.status ≡ true
      → get_step (usage_v2_finalize_step_key s.run.id) s.steps ≡ some step
      → enqueue_usage_v2_run_finalization now s ≡ check_existing s step
  unfolding enqueue_usage_v2_run_finalization
  enqueue_found now s step usage ended found = rw (usage, ended, found) refl

  -- A run that bills nothing stays as it is; one that still runs is refused.
  enqueue_other :
      (now : ℕ) (s : StoredRun) {r : Option StepRecord} {t : StoredRun}
      → (is_usage_v2 s.run.accounting_protocol && is_terminal_status s.run.status) ≡ false
      → enqueue_usage_v2_run_finalization now s ≡ ok (r, t)
      → (is_usage_v2 s.run.accounting_protocol ≡ false) × (r ≡ none) × (t ≡ s)
  unfolding enqueue_usage_v2_run_finalization
  enqueue_other now s {r} {t} other h = ground arith

  enqueue_legacy :
      (now : ℕ) (s : StoredRun)
      → is_usage_v2 s.run.accounting_protocol ≡ false
      → enqueue_usage_v2_run_finalization now s ≡ ok (none, s)
  unfolding enqueue_usage_v2_run_finalization
  enqueue_legacy now s legacy = rw legacy refl

  pub check_existing_ok :
      (s : StoredRun) (step : StepRecord) {r : Option StepRecord} {t : StoredRun}
      → check_existing s step ≡ ok (r, t)
      → (r ≡ some step) × (t ≡ s)
  check_existing_ok s step {r} {t} h = ground arith

  -- Enqueueing twice does what enqueueing once does: the second time, at whatever time, finds the
  -- step of the first and changes nothing.
  pub enqueue_twice :
      (now later : ℕ) (s : StoredRun) {r : Option StepRecord} {t : StoredRun}
      → enqueue_usage_v2_run_finalization now s ≡ ok (r, t)
      → enqueue_usage_v2_run_finalization later t ≡ ok (r, t)
  enqueue_twice now later s {r} {t} h =
      elim (Bool-cases (is_usage_v2 s.run.accounting_protocol && is_terminal_status s.run.status)) [
        | inr other ↦
            let (legacy, none_given, same) = enqueue_other now s {r = r} {t = t} other h in
            rw (none_given, same) (enqueue_legacy later s legacy)
        | inl both ↦
            let usage =
              (&&_iff (is_usage_v2 s.run.accounting_protocol) (is_terminal_status s.run.status)).0
                both in
            elim (Option-cases (get_step (usage_v2_finalize_step_key s.run.id) s.steps)) [
              | inl fresh ↦
                  let (given, kept) = parts (sym (enqueue_fresh now s usage.0 usage.1 fresh) ∙ h) in
                  rw (← given, ← kept)
                    (enqueue_found later
                        (record s { steps = put_step (new_finalize_step s.run now) s.steps })
                        (new_finalize_step s.run now) usage.0 usage.1 (get_new_step s now)
                      ∙ check_existing_new
                          (record s { steps = put_step (new_finalize_step s.run now) s.steps }) now)
              | inr (step, found) ↦
                  let checked = sym (enqueue_found now s step usage.0 usage.1 found) ∙ h in
                  let (given, kept) = check_existing_ok s step {r = r} {t = t} checked in
                  rw (given, kept)
                    (enqueue_found later s step usage.0 usage.1 found ∙ rw (given, kept) at checked)
            ]
      ]

  -- Enqueueing on a run that has ended, bills its usage and has no step yet leaves a step under the
  -- run's own key that the worker will take up.
  pub enqueued_scheduled :
      (now : ℕ) (s : StoredRun)
      → is_usage_v2 s.run.accounting_protocol ≡ true
      → is_terminal_status s.run.status ≡ true
      → get_step (usage_v2_finalize_step_key s.run.id) s.steps ≡ none
      → (step : StepRecord) × (t : StoredRun) × (enqueue_usage_v2_run_finalization now s
          ≡ ok (some step, t))
        × (get_step (usage_v2_finalize_step_key s.run.id) t.steps ≡ some step)
        × (is_usage_v2_run_finalization_retry_scheduled (some step) ≡ true)
  unfolding is_usage_v2_run_finalization_retry_scheduled finalize_step_output
  enqueued_scheduled now s usage ended fresh = (
    new_finalize_step s.run now,
    record s { steps = put_step (new_finalize_step s.run now) s.steps },
    enqueue_fresh now s usage ended fresh,
    get_new_step s now,
    rw (is_text_self (finalize_request_key s.run.id)) refl,
  )

  -- The enqueueing changes nothing but the steps.
  pub enqueue_keeps :
      (now : ℕ) (s : StoredRun) {r : Option StepRecord} {t : StoredRun}
      → enqueue_usage_v2_run_finalization now s ≡ ok (r, t)
      → (t.run ≡ s.run) × (t.events ≡ s.events)
  enqueue_keeps now s {r} {t} h =
      elim (Bool-cases (is_usage_v2 s.run.accounting_protocol && is_terminal_status s.run.status)) [
        | inr other ↦
            let (legacy, none_given, same) = enqueue_other now s {r = r} {t = t} other h in
            rw same (refl, refl)
        | inl both ↦
            let usage =
              (&&_iff (is_usage_v2 s.run.accounting_protocol) (is_terminal_status s.run.status)).0
                both in
            elim (Option-cases (get_step (usage_v2_finalize_step_key s.run.id) s.steps)) [
              | inl fresh ↦
                  let (given, kept) = parts (sym (enqueue_fresh now s usage.0 usage.1 fresh) ∙ h) in
                  rw (← kept) (refl, refl)
              | inr (step, found) ↦
                  let checked = sym (enqueue_found now s step usage.0 usage.1 found) ∙ h in
                  let (given, kept) = check_existing_ok s step {r = r} {t = t} checked in
                  rw kept (refl, refl)
            ]
      ]

  -- A run whose finalization has not been enqueued yet can be finalized once it has ended.
  pub enqueue_succeeds :
      (now : ℕ) (s : StoredRun)
      → is_terminal_status s.run.status ≡ true
      → get_step (usage_v2_finalize_step_key s.run.id) s.steps ≡ none
      → (r : Option StepRecord) × (t : StoredRun) × (enqueue_usage_v2_run_finalization now s
          ≡ ok (r, t))
  enqueue_succeeds now s ended fresh = elim (Bool-cases (is_usage_v2 s.run.accounting_protocol)) [
    | inl usage ↦ (_, _, enqueue_fresh now s usage ended fresh)
    | inr legacy ↦ (_, _, enqueue_legacy now s legacy)
  ]
