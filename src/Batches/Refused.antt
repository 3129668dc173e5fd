-- ===== src/Batches/Refused.antt =====
-- A reservation that the host refuses: src/core/generation-batch.ts.
use shan_hai_edu_ppt.Base.{
  ℕ, ◌+◌, ◌≡◌, ◌∙◌, ap, refl, Bool, true, false, none, some, String, ◌==◌, is_none, if◌then◌else◌,
  arith, ◌||◌, Result, ok,
}
use shan_hai_edu_ppt.Base.Int.{pos, int}
use shan_hai_edu_ppt.Contracts.Accounting.{
  Authorization, Settlement, BatchAccounting, BatchStatus, StoredGenerationBatch, is_valid_batch,
}
use shan_hai_edu_ppt.Policy.{RunPolicyState, reserve_budget, release_budget}
use shan_hai_edu_ppt.Policy.Budget.{release-reserve}
use shan_hai_edu_ppt.Ports.{
  Output, batch_output, failed, reserved, StepRecord, RunRecord, StoredRun,
}
use shan_hai_edu_ppt.Ports.Repository.{put_step, append_event, transact}
use shan_hai_edu_ppt.TerminalAccounting.{parse_batch}
use shan_hai_edu_ppt.Usage.{is_usage_v2}
use shan_hai_edu_ppt.Usage.Enqueue.{Hashes}
use shan_hai_edu_ppt.Batches.{BatchCode, updated_batch, append_generation_batch_event, put}
use shan_hai_edu_ppt.Batches.Reserve.{
  held, is_failed, with_policy, append_budget_event, reserve_controlled_raster,
}
use shan_hai_edu_ppt.Batches.Reserve.Hosted.{
  not_reserved, reservation_lost, answered, is_prepared, prepare_reservation, prepare_by,
  reject_reservation, reserve_generation_batch, reserve_paid, ask_host,
}
use shan_hai_edu_ppt.Batches.Create.{is_routed}
use shan_hai_edu_ppt.Batches.Steps.{
  Found, Found-with_batch, put-Found, append_generation_batch_event-steps,
  append_generation_batch_event-run,
}

parse_batch-valid :
    (o : Output) {b : StoredGenerationBatch} → parse_batch o ≡ some b → is_valid_batch b ≡ true
unfolding parse_batch
parse_batch-valid o h = ground (arith, h)

same_valid :
    (b : StoredGenerationBatch) (a : BatchAccounting) (now : ℕ) (status : BatchStatus)
    → is_valid_batch (record b { accounting = a; status = status; updated_at = now })
      ≡ is_valid_batch b
unfolding is_valid_batch
same_valid b a now status = refl

-- The amounts and the status of a batch are not what the schema checks.
updated_batch-ok :
    (b : StoredGenerationBatch) (a : BatchAccounting) (now : ℕ) (status : BatchStatus)
    → is_valid_batch b ≡ true
    → updated_batch b a now status
      ≡ ok (record b { accounting = a; status = status; updated_at = now })
unfolding updated_batch
updated_batch-ok b a now status v = rw (same_valid b a now status) (rw v refl)

-- The batch, its step and the run as they are when the host is asked.
abbrev asked_batch : ℕ → StepRecord → StoredGenerationBatch → StoredGenerationBatch
asked_batch now step b = record b {
  accounting = record b.accounting {
    committed_units = step.budget_units;
    authorization = Authorization.pending;
    settlement = Settlement.not_ready;
  };
  updated_at = now;
}

abbrev asked_step : ℕ → StepRecord → StoredGenerationBatch → StepRecord
asked_step now step b = record step {
  status = reserved;
  output = batch_output (asked_batch now step b);
  updated_at = now;
}

abbrev asked_run :
    Bool → ℕ → StoredRun → StepRecord → StoredGenerationBatch → RunPolicyState → StoredRun
asked_run publish now s step b p =
    append_generation_batch_event publish (asked_batch now step b)
      (append_budget_event (put (asked_step now step b) (with_policy p now s)))

-- A batch with paid images whose reservation has not begun.
pub record Unreserved (key : String) (s : StoredRun) (step : StepRecord) (b : StoredGenerationBatch)
    : Type 0 where
  pub found : Found s key step b
  pub is_hosted : is_usage_v2 s.run.accounting_protocol ≡ false
  pub is_paid : (b.accounting.estimated_units == 0) ≡ false
  pub unheld : held step.budget_reservation_id ≡ none
  pub alive : is_failed step.status ≡ false
  pub fresh : is_prepared step.status ≡ false
  pub routed : is_routed b ≡ true

module _ (key : String) (publish : Bool) (now : ℕ) (s : StoredRun) (step : StepRecord)
    (b : StoredGenerationBatch) (p : RunPolicyState) where
  prepares :
      Unreserved key s step b
      → reserve_budget s.run.policy (int (pos step.budget_units)) ≡ ok p
      → prepare_reservation key publish now s
        ≡ ok (
          some (record { batch = asked_batch now step b; reservation_id = none }),
          asked_run publish now s step b p,
        )
  unfolding prepare_reservation
  prepares w reserves =
      Found-with_batch s key step b _ w.found
      ∙ ap (λ o. prepare_by o publish now s step b) w.unheld
      ∙ rw w.alive (
          rw w.fresh (
            rw reserves (
              rw
                (updated_batch-ok b
                  (record b.accounting {
                    committed_units = step.budget_units;
                    authorization = Authorization.pending;
                    settlement = Settlement.not_ready;
                  })
                  now b.status (parse_batch-valid step.output w.found.reads))
                refl)))

  asked_run-steps :
      (asked_run publish now s step b p).steps ≡ put_step (asked_step now step b) s.steps
  unfolding append_event
  asked_run-steps = append_generation_batch_event-steps publish (asked_batch now step b) _

  asked_run-policy : (asked_run publish now s step b p).run.policy ≡ p
  unfolding append_event
  asked_run-policy =
      ap (λ (r : RunRecord). r.policy)
        (append_generation_batch_event-run publish (asked_batch now step b) _)

  asked_run-Found :
      Unreserved key s step b
      → Found
          (asked_run publish now s step b p)
          key
          (asked_step now step b)
          (asked_batch now step b)
  asked_run-Found w =
      put-Found s (asked_run publish now s step b p) key step (asked_step now step b) b
        (asked_batch now step b) w.found refl refl refl
        (same_valid b _ now b.status ∙ parse_batch-valid step.output w.found.reads) asked_run-steps

-- The batch, its step and the run after the host has reserved nothing.
abbrev refused_batch : ℕ → StoredGenerationBatch → StoredGenerationBatch
refused_batch now b = record b {
  accounting = record b.accounting {
    committed_units = 0;
    authorization = Authorization.rejected;
    settlement = Settlement.not_ready;
  };
  updated_at = now;
}

abbrev refused_step : String → ℕ → StepRecord → StoredGenerationBatch → StepRecord
refused_step code now step b = record step {
  status = failed;
  error_code = some code;
  output = batch_output (refused_batch now b);
  updated_at = now;
}

abbrev refused_run :
    Bool → String → ℕ → StoredRun → StepRecord → StoredGenerationBatch → RunPolicyState → StoredRun
refused_run publish code now t step b q =
    append_generation_batch_event publish (refused_batch now b)
      (append_budget_event (put (refused_step code now step b) (with_policy q now t)))

module _ (key : String) (publish : Bool) (now : ℕ) (code : String) (t : StoredRun)
    (step : StepRecord) (b : StoredGenerationBatch) (q : RunPolicyState) where
  rejects :
      Found t key step b
      → release_budget t.run.policy (int (pos step.budget_units)) ≡ ok q
      → reject_reservation key publish now code t
        ≡ ok (none, refused_run publish code now t step b q)
  unfolding reject_reservation
  rejects f releases =
      Found-with_batch t key step b _ f
      ∙ rw releases (
          rw
            (updated_batch-ok b
              (record b.accounting {
                committed_units = 0;
                authorization = Authorization.rejected;
                settlement = Settlement.not_ready;
              })
              now b.status (parse_batch-valid step.output f.reads))
            refl)

  refused_run-policy : (refused_run publish code now t step b q).run.policy ≡ q
  unfolding append_event
  refused_run-policy =
      ap (λ (r : RunRecord). r.policy)
        (append_generation_batch_event-run publish (refused_batch now b) _)

  refused_run-Found :
      Found t key step b
      → Found
          (refused_run publish code now t step b q)
          key
          (refused_step code now step b)
          (refused_batch now b)
  unfolding append_event
  refused_run-Found f =
      put-Found t (refused_run publish code now t step b q) key step (refused_step code now step b)
        b (refused_batch now b) f refl refl refl
        (same_valid b _ now b.status ∙ parse_batch-valid step.output f.reads)
        (append_generation_batch_event-steps publish (refused_batch now b) _)

-- What a refused reservation leaves.
pub record Returned (key code : String) (s u : StoredRun) : Type 0 where
  pub step : StepRecord
  pub batch : StoredGenerationBatch
  pub policy : u.run.policy ≡ record s.run.policy { version = s.run.policy.version + 1 + 1 }
  pub found : Found u key step batch
  pub status : step.status ≡ failed
  pub error_code : step.error_code ≡ some code
  pub nothing_committed : batch.accounting.committed_units ≡ 0

transact_ok {ℓ} :
    {A : Type ℓ} (s : StoredRun) (operation : StoredRun → Result BatchCode (A × StoredRun)) {a : A}
    {t : StoredRun}
    → operation s ≡ ok (a, t)
    → transact s operation ≡ (ok a, t)
unfolding transact
transact_ok s operation h = rw (h, transact) refl

routed_asks :
    (b : StoredGenerationBatch)
    → is_routed b ≡ true
    → (is_none b.accounting_model || is_none b.operation_mode) ≡ false
routed_asks b h = ground (arith, h)

-- A reservation that the host refuses takes nothing: if the batch has paid images, its reservation
-- has not begun, and the run's budget allows the units of its step, then the operation ends without
-- a reservation, the run's budget is what it was, its policy changed in the version alone, and the
-- batch's step has failed with the host's code, with nothing committed.
pub refusal_returns :
    (hashes : Hashes) (key : String) (publish : Bool) (now : ℕ) (code : String) (s : StoredRun)
    (step : StepRecord) (b : StoredGenerationBatch) (p : RunPolicyState)
    → Unreserved key s step b
    → reserve_budget s.run.policy (int (pos step.budget_units)) ≡ ok p
    → (u : StoredRun) × (reserve_generation_batch hashes (λ x. not_reserved code) key publish now s
        ≡ (ok none, u))
      × Returned key code s u
unfolding reserve_generation_batch reserve_controlled_raster
refusal_returns hashes key publish now code s step b p w reserves =
    let t = asked_run publish now s step b p in
    let asked = asked_step now step b in
    let kept = asked_batch now step b in
    let q : RunPolicyState = record s.run.policy { version = s.run.policy.version + 1 + 1 } in
    let found = asked_run-Found key publish now s step b p w in
    let releases : release_budget t.run.policy (int (pos step.budget_units)) ≡ ok q =
      ap (λ x. release_budget x (int (pos step.budget_units)))
        (asked_run-policy key publish now s step b p)
      ∙ release-reserve s.run.policy (int (pos step.budget_units)) {t = p} reserves in
    let u = refused_run publish code now t asked kept q in
    let free : reserve_controlled_raster key publish now s ≡ ok (none, s) =
      Found-with_batch s key step b _ w.found ∙ (rw w.is_paid refl) in
    let runs : reserve_generation_batch hashes (λ x. not_reserved code) key publish now s
        ≡ (ok none, u) =
      ap
        (λ by_usage.
          reserve_paid hashes (λ x. not_reserved code) key publish now by_usage
            (transact s (reserve_controlled_raster key publish now)))
        w.is_hosted
      ∙ ap (reserve_paid hashes (λ x. not_reserved code) key publish now false)
          (transact_ok s (reserve_controlled_raster key publish now) free)
      ∙ ap (ask_host hashes (λ x. not_reserved code) key publish now) (
          transact_ok s (prepare_reservation key publish now)
            (prepares key publish now s step b p w reserves))
      ∙ ap
          (λ (lost : Bool). transact t (
            answered hashes
              (if lost
                then reservation_lost "BATCH_BUDGET_RESERVATION_UNKNOWN"
                else not_reserved code)
              key publish now))
          (routed_asks b w.routed)
      ∙ transact_ok t (reject_reservation key publish now code)
          (rejects key publish now code t asked kept q found releases) in
    (
      u,
      runs,
      record {
        step = refused_step code now asked kept;
        batch = refused_batch now kept;
        policy = refused_run-policy key publish now code t asked kept q;
        found = refused_run-Found key publish now code t asked kept q found;
        status = refl;
        error_code = refl;
        nothing_committed = refl;
      },
    )
