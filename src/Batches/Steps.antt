-- ===== src/Batches/Steps.antt =====
-- The step and the batch that a transaction of src/core/generation-batch.ts works on.
use shan_hai_edu_ppt.Base.{
  ◌≡◌, ◌∙◌, ap, refl, inl, inr, Bool, true, false, Option, none, some, String, is_text_iff, arith,
  if◌then◌else◌, Bool-cases, Result, ok, ◌>>=◌,
}
use shan_hai_edu_ppt.Contracts.Accounting.{StoredGenerationBatch, is_valid_batch}
use shan_hai_edu_ppt.Ports.{batch_output, StepRecord, StoredRun}
use shan_hai_edu_ppt.Ports.Repository.{get_step, put_step, append_event}
use shan_hai_edu_ppt.Ports.Repository.Log.{get_step-put_step, get_step-key}
use shan_hai_edu_ppt.TerminalAccounting.{parse_batch}
use shan_hai_edu_ppt.Batches.{
  BatchCode, parsed, or_invalid, read_batch, is_batch_tool, required, require_batch_step,
  append_generation_batch_event,
}
use shan_hai_edu_ppt.Batches.Reserve.{with_batch}

ok_inj :
    {x y : StoredGenerationBatch}
    → ◌≡◌ {A = Result BatchCode StoredGenerationBatch} (ok x) (ok y)
    → x ≡ y
ok_inj h = cc

-- The step and the batch that a transaction has found.
pub record Found (s : StoredRun) (key : String) (step : StepRecord) (b : StoredGenerationBatch)
    : Type 0 where
  pub there : get_step key s.steps ≡ some step
  pub is_batch : is_batch_tool step.tool ≡ true
  pub reads : parse_batch step.output ≡ some b

module _ {ℓ} {A : Type ℓ} where
  read_found :
      (step : StepRecord) (o : Option StoredGenerationBatch) (x : A)
      (next : StepRecord → StoredGenerationBatch → Result BatchCode A)
      → (or_invalid o >>= λ b. next step b) ≡ ok x
      → (b : StoredGenerationBatch) × (o ≡ some b) × (next step b ≡ ok x)
  read_found step none x next h = cc
  read_found step (some b) x next h = (b, refl, h)

  step_found :
      (o : Option StepRecord) (x : A)
      (next : StepRecord → StoredGenerationBatch → Result BatchCode A)
      → (required o >>= λ step. read_batch step.output >>= λ b. next step b) ≡ ok x
      → (step : StepRecord) × (b : StoredGenerationBatch) × (o ≡ some step)
        × (is_batch_tool step.tool ≡ true)
        × (parse_batch step.output ≡ some b)
        × (next step b ≡ ok x)
  unfolding read_batch
  step_found none x next h = cc
  step_found (some step) x next h = elim (Bool-cases (is_batch_tool step.tool)) [
    | inr other ↦ absurd (ground (arith, rw other at h))
    | inl batch ↦
        let (b, reads, done) = read_found step (parse_batch step.output) x next (rw batch at h) in
        (step, b, refl, batch, reads, done)
  ]

  pub with_batch-Found :
      (s : StoredRun) (key : String) (x : A)
      (next : StepRecord → StoredGenerationBatch → Result BatchCode A)
      → with_batch s key next ≡ ok x
      → (step : StepRecord) × (b : StoredGenerationBatch) × Found s key step b
        × (next step b ≡ ok x)
  unfolding require_batch_step
  with_batch-Found s key x next h =
      let (step, b, there, batch, reads, done) = step_found (get_step key s.steps) x next h in
      (step, b, record { there = there; is_batch = batch; reads = reads }, done)

  pub Found-with_batch :
      (s : StoredRun) (key : String) (step : StepRecord) (b : StoredGenerationBatch)
      (next : StepRecord → StoredGenerationBatch → Result BatchCode A)
      → Found s key step b
      → with_batch s key next ≡ next step b
  unfolding require_batch_step read_batch
  Found-with_batch s key step b next f = rw f.there (rw f.is_batch (rw f.reads refl))

-- The step that a transaction has put is the one that the next one finds.
pub put-Found :
    (s t : StoredRun) (key : String) (step new : StepRecord) (b next : StoredGenerationBatch)
    → Found s key step b
    → new.idempotency_key ≡ step.idempotency_key
    → new.tool ≡ step.tool
    → new.output ≡ batch_output next
    → is_valid_batch next ≡ true
    → t.steps ≡ put_step new s.steps
    → Found t key new next
unfolding parse_batch
put-Found s t key step new b next f same_key same_tool output valid steps = record {
  there =
      ap (get_step key) steps
      ∙ get_step-put_step key new s.steps
      ∙ ap (λ (found : Bool). if found then some new else get_step key s.steps)
          ((is_text_iff new.idempotency_key key).1
            (same_key ∙ get_step-key key s.steps {step = step} f.there));
  is_batch = ap is_batch_tool same_tool ∙ f.is_batch;
  reads = ap parse_batch output ∙ (rw valid refl);
}

pub parsed-ok :
    (b x : StoredGenerationBatch) → parsed b ≡ ok x → (b ≡ x) × (is_valid_batch b ≡ true)
parsed-ok b x h = elim (Bool-cases (is_valid_batch b)) [
  | inl valid ↦ (ok_inj (rw valid at h), valid)
  | inr invalid ↦ absurd (ground (arith, rw invalid at h))
]

pub append_generation_batch_event-steps :
    (publish : Bool) (b : StoredGenerationBatch) (s : StoredRun)
    → (append_generation_batch_event publish b s).steps ≡ s.steps
unfolding append_generation_batch_event append_event
append_generation_batch_event-steps true b s = refl
append_generation_batch_event-steps false b s = refl

pub append_generation_batch_event-run :
    (publish : Bool) (b : StoredGenerationBatch) (s : StoredRun)
    → (append_generation_batch_event publish b s).run ≡ s.run
unfolding append_generation_batch_event append_event
append_generation_batch_event-run true b s = refl
append_generation_batch_event-run false b s = refl
