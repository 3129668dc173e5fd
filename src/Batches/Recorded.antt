-- ===== src/Batches/Recorded.antt =====
-- What settling and releasing a batch of src/core/generation-batch.ts records.
use shan_hai_edu_ppt.Base.{
  ℕ, ◌+◌, ◌≡◌, ◌∙◌, ap, subst, sym, refl, inl, inr, Bool, true, Option, none, some, String, ltb,
  ◌==◌, arith, Bool-cases, Result, ok, bind_ok,
}
use shan_hai_edu_ppt.Base.Int.{pos, int}
use shan_hai_edu_ppt.Contracts.Accounting.{
  Settlement, BatchStatus, BatchAccounting, StoredGenerationBatch, is_settlement_finished,
  is_valid_batch,
}
use shan_hai_edu_ppt.Policy.{RunPolicyState, release_budget}
use shan_hai_edu_ppt.Ports.{completed, batch_output, StepRecord, RunRecord, StoredRun}
use shan_hai_edu_ppt.Ports.Repository.{put_step, append_event}
use shan_hai_edu_ppt.Batches.{BatchCode, updated_batch, put}
use shan_hai_edu_ppt.Batches.Reserve.{as_batch_code}
use shan_hai_edu_ppt.Batches.Replay.{as_batch_code-ok}
use shan_hai_edu_ppt.Batches.Finalize.{
  Allocation, close_raster, settled_accounting, release_units, announce_release, settle,
  finalize_usage_v2_generation_batch,
}
use shan_hai_edu_ppt.Batches.Steps.{
  Found, Found-with_batch, put-Found, parsed-ok, append_generation_batch_event-steps,
  append_generation_batch_event-run,
}

release_commits :
    (p : RunPolicyState) (units : ℕ) {q : RunPolicyState}
    → release_budget p (int (pos units)) ≡ ok q
    → q.committed_budget_units + units ≡ p.committed_budget_units
unfolding release_budget
release_commits p units h = ground arith

ok_inj : {s t : StoredRun} → ◌≡◌ {A = Result BatchCode StoredRun} (ok s) (ok t) → s ≡ t
ok_inj h = cc

-- The run and the steps that a release leaves, whatever it announces.
release_units-committed :
    (units now : ℕ) (s : StoredRun) {t : StoredRun}
    → release_units units now s ≡ ok t
    → (t.run.policy.committed_budget_units + units ≡ s.run.policy.committed_budget_units)
      × (t.steps ≡ s.steps)
release_units-committed units now s {t} h = elim (Bool-cases (ltb 0 units)) [
  | inl some_units ↦
      let (policy, releases, done) =
        bind_ok (as_batch_code (release_budget s.run.policy (int (pos units)))) _
          (rw some_units at h) in
      let after = ok_inj done in
      (
        omega (
          arith,
          release_commits s.run.policy units {q = policy} (as_batch_code-ok _ releases),
          ap (λ (x : StoredRun). x.run.policy.committed_budget_units) after,
        ),
        ap (λ (x : StoredRun). x.steps) (sym after),
      )
  | inr no_units ↦
      let after = ok_inj (rw no_units at h) in
      (
        ground (arith, no_units, ap (λ (x : StoredRun). x.run.policy.committed_budget_units) after),
        ap (λ (x : StoredRun). x.steps) (sym after),
      )
]

announce_release-kept :
    (units : ℕ) (s : StoredRun)
    → ((announce_release units s).run ≡ s.run) × ((announce_release units s).steps ≡ s.steps)
unfolding append_event
announce_release-kept units s = elim (Bool-cases (ltb 0 units)) [
  | inl announced ↦ rw announced (refl, refl)
  | inr silent ↦ rw silent (refl, refl)
]

-- A batch that the run has recorded as settled under the key.
pub record Settled (key : String) (t : StoredRun) : Type 0 where
  pub step : StepRecord
  pub batch : StoredGenerationBatch
  pub found : Found t key step batch
  pub finished : is_settlement_finished batch.accounting.settlement ≡ true

-- The batch under the key has these amounts recorded.
pub record Records (key : String) (settled released : ℕ) (t : StoredRun) : Type 0 where
  pub step : StepRecord
  pub batch : StoredGenerationBatch
  pub found : Found t key step batch
  pub settled_units : batch.accounting.settled_units ≡ settled
  pub released_units : batch.accounting.released_units ≡ released

pub Settled-again :
    (key : String) (t : StoredRun)
    → Settled key t
    → (again : Bool) (later : ℕ)
    → finalize_usage_v2_generation_batch key again later t ≡ ok (true, t)
unfolding finalize_usage_v2_generation_batch
Settled-again key t v again later =
    Found-with_batch t key v.step v.batch _ v.found ∙ (rw v.finished refl)

settled_finished :
    (b : BatchAccounting) (a : Allocation)
    → is_settlement_finished (settled_accounting b a).settlement ≡ true
settled_finished b a = elim (Bool-cases (a.settled_units == 0)) [
  | inl e ↦ rw e refl
  | inr e ↦ rw e refl
]

pub pair_inj :
    {x y : Bool} {s t : StoredRun}
    → ◌≡◌ {A = Result BatchCode (Bool × StoredRun)} (ok (x, s)) (ok (y, t))
    → (x ≡ y) × (s ≡ t)
pair_inj h = (cc, cc)

-- What a transaction has recorded as settled.
recorded-Settled :
    (key : String) (now : ℕ) (s t : StoredRun) (step : StepRecord) (b next : StoredGenerationBatch)
    (after : BatchAccounting)
    → Found s key step b
    → updated_batch b after now BatchStatus.completed ≡ ok next
    → is_settlement_finished after.settlement ≡ true
    → t.steps
      ≡ put_step
          (record step { status = completed; output = batch_output next; updated_at = now })
          s.steps
    → Settled key t × Records key after.settled_units after.released_units t
unfolding updated_batch
recorded-Settled key now s t step b next after f updates finished steps =
    let (same, valid) = parsed-ok _ next updates in
    let new : StepRecord = record step {
      status = completed;
      output = batch_output next;
      updated_at = now;
    } in
    let found : Found t key new next =
      put-Found s t key step new b next f refl refl refl
        (subst (λ x. is_valid_batch x ≡ true) same valid) steps in
    (
      record {
        step = new;
        batch = next;
        found = found;
        finished =
            ap (λ (x : StoredGenerationBatch). is_settlement_finished x.accounting.settlement)
              (sym same)
            ∙ finished;
      },
      record {
        step = new;
        batch = next;
        found = found;
        settled_units = ap (λ (x : StoredGenerationBatch). x.accounting.settled_units) (sym same);
        released_units = ap (λ (x : StoredGenerationBatch). x.accounting.released_units) (sym same);
      },
    )

pub settle-Settled :
    (key : String) (publish : Bool) (now : ℕ) (s t : StoredRun) (step : StepRecord)
    (b : StoredGenerationBatch) (a : Allocation)
    → Found s key step b
    → settle publish now s step b a ≡ ok (true, t)
    → Settled key t
      × Records key a.settled_units a.released_units t
      × (t.run.policy.committed_budget_units + a.released_units
          ≡ s.run.policy.committed_budget_units)
unfolding settle
settle-Settled key publish now s t step b a f h =
    let accounting = settled_accounting b.accounting a in
    let (next, updates, h1) = bind_ok (updated_batch b accounting now BatchStatus.completed) _ h in
    let (u, releases, h2) = bind_ok (release_units a.released_units now s) _ h1 in
    let (paid, steps_kept) = release_units-committed a.released_units now s {t = u} releases in
    let new : StepRecord = record step {
      status = completed;
      output = batch_output next;
      updated_at = now;
    } in
    let before = announce_release a.released_units (put new u) in
    let (run_kept, put_kept) = announce_release-kept a.released_units (put new u) in
    let after = (pair_inj h2).1 in
    let run_after : t.run ≡ u.run =
      ap (λ (x : StoredRun). x.run) (sym after)
      ∙ append_generation_batch_event-run publish next before
      ∙ run_kept in
    let (settled, recorded) =
      recorded-Settled key now s t step b next accounting f updates
        (settled_finished b.accounting a)
        (ap (λ (x : StoredRun). x.steps) (sym after)
          ∙ append_generation_batch_event-steps publish next before
          ∙ put_kept
          ∙ ap (put_step new) steps_kept) in
    (
      settled,
      recorded,
      ap (λ (x : RunRecord). x.policy.committed_budget_units + a.released_units) run_after ∙ paid,
    )

pub close_raster-Settled :
    (key : String) (publish : Bool) (now : ℕ) (s t : StoredRun) (step : StepRecord)
    (b : StoredGenerationBatch) (o : Option Allocation)
    → Found s key step b
    → close_raster publish now s step b o ≡ ok (true, t)
    → Settled key t × Records key 0 0 t × (t.run ≡ s.run)
close_raster-Settled key publish now s t step b none f h = absurd (ground arith)
close_raster-Settled key publish now s t step b (some a) f h =
    let accounting : BatchAccounting = record b.accounting {
      committed_units = 0;
      settled_units = 0;
      released_units = 0;
      reconciliation_units = 0;
      settlement = Settlement.released;
    } in
    let (next, updates, h1) = bind_ok (updated_batch b accounting now BatchStatus.completed) _ h in
    let after = (pair_inj h1).1 in
    let before =
      put (record step { status = completed; output = batch_output next; updated_at = now }) s in
    let (settled, recorded) = recorded-Settled key now s t step b next accounting f updates refl (
      ap (λ (x : StoredRun). x.steps) (sym after)
      ∙ append_generation_batch_event-steps publish next before) in
    (
      settled,
      recorded,
      ap (λ (x : StoredRun). x.run) (sym after)
          ∙ append_generation_batch_event-run publish next before,
    )
