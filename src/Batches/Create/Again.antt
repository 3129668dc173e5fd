-- ===== src/Batches/Create/Again.antt =====
-- Making a batch twice: src/core/generation-batch.ts.
use shan_hai_edu_ppt.Base.{
  ℕ, ◌≡◌, ◌∙◌, ap, subst, sym, refl, inl, inr, Bool, true, false, Option, none, some, String,
  is_text_self, ltb, arith, if◌then◌else◌, Bool-cases, Result, ok, ◌>>=◌, bind_ok,
}
use shan_hai_edu_ppt.Base.Int.{max_safe_integer}
use shan_hai_edu_ppt.Contracts.Accounting.{
  OperationMode, text_to_image, image_edit, StoredGenerationBatch, is_valid_batch,
}
use shan_hai_edu_ppt.Ports.{batch_output, StepRecord, StoredRun}
use shan_hai_edu_ppt.Ports.Repository.{get_step, put_step, append_event}
use shan_hai_edu_ppt.Ports.Repository.Log.{get_step-put_step}
use shan_hai_edu_ppt.TerminalAccounting.{parse_batch}
use shan_hai_edu_ppt.Batches.{
  is_initial, BatchCode, parsed, or_invalid, read_batch, is_batch_tool, put,
}
use shan_hai_edu_ppt.Batches.Steps.{Found, put-Found, parsed-ok}
use shan_hai_edu_ppt.Batches.Create.{
  total_units, Request, HashInput, batch_input_hash, is_known_hash, schema_model, initial_batch,
  request_key, batch_step, announce_created, create, is_other_model, is_same_mode, is_other_mode,
  is_routed, upgrade, find_again, ensure_by, ensure_generation_batch,
}

ok_pair :
    {b c : StoredGenerationBatch} {s t : StoredRun}
    → ◌≡◌ {A = Result BatchCode (StoredGenerationBatch × StoredRun)} (ok (b, s)) (ok (c, t))
    → (b ≡ c) × (s ≡ t)
ok_pair h = (cc, cc)

ok_model : {x y : String} → ◌≡◌ {A = Result BatchCode String} (ok x) (ok y) → x ≡ y
ok_model h = cc

mode_self : (mode : OperationMode) → is_same_mode mode mode ≡ true
mode_self text_to_image = refl
mode_self image_edit = refl

announce_created-steps :
    (publish : Bool) (b : StoredGenerationBatch) (s : StoredRun)
    → (announce_created publish b s).steps ≡ s.steps
unfolding append_event
announce_created-steps true b s = refl
announce_created-steps false b s = refl

-- The batch that the request finds, as it is.
record Ready (hash : HashInput → String) (q : Request) (current : String) (t : StoredRun)
    (b : StoredGenerationBatch) : Type 0 where
  step : StepRecord
  found : Found t (request_key q) step b
  known : is_known_hash hash q current step.input_hash ≡ true
  same_model : is_other_model b.accounting_model q.accounting_model ≡ false
  same_mode : is_other_mode b.operation_mode q.operation_mode ≡ false
  routed : is_routed b ≡ true

module _ (hash : HashInput → String) (q : Request) where
  Ready-again :
      (current : String) (t : StoredRun) (b : StoredGenerationBatch)
      → Ready hash q current t b
      → (later : ℕ)
      → ensure_by hash q current later t (get_step (request_key q) t.steps) ≡ ok (b, t)
  unfolding read_batch
  Ready-again current t b r later = rw r.found.there (
      rw r.found.is_batch
        (rw r.known (rw r.found.reads (rw r.same_model (rw r.same_mode (rw r.routed refl))))))

  current_known : (current : String) → is_known_hash hash q current current ≡ true
  unfolding is_known_hash
  current_known current = rw (is_text_self current) refl

  model_self : is_other_model (some q.accounting_model) q.accounting_model ≡ false
  model_self = rw (is_text_self q.accounting_model) refl

  modes_agree : is_other_mode (some q.operation_mode) q.operation_mode ≡ false
  modes_agree = rw (mode_self q.operation_mode) refl

  -- A batch with the request's own model and mode, which the step under the request's key holds.
  own-Ready :
      (current : String) (t : StoredRun) (b : StoredGenerationBatch) (step : StepRecord)
      → Found t (request_key q) step b
      → step.input_hash ≡ current
      → b.accounting_model ≡ some q.accounting_model
      → b.operation_mode ≡ some q.operation_mode
      → Ready hash q current t b
  own-Ready current t b step f hashed model mode = record {
    step = step;
    found = f;
    known = ap (is_known_hash hash q current) hashed ∙ current_known current;
    same_model = ap (λ m. is_other_model m q.accounting_model) model ∙ model_self;
    same_mode = ap (λ m. is_other_mode m q.operation_mode) mode ∙ modes_agree;
    routed = rw model (rw mode refl);
  }

  module _ (current : String)
      (trimmed : schema_model q.accounting_model ≡ ok q.accounting_model) where
    initial_batch-routed :
        (now : ℕ) (b : StoredGenerationBatch)
        → initial_batch hash q now ≡ ok b
        → (b.accounting_model ≡ some q.accounting_model)
          × (b.operation_mode ≡ some q.operation_mode)
          × (is_valid_batch b ≡ true)
    unfolding initial_batch
    initial_batch-routed now b h =
        let (units, sums, h1) = bind_ok (total_units q.requirements q.unit_budget_units) _ h in
        let (model, trims, h2) = bind_ok (schema_model q.accounting_model) _ h1 in
        let same_model : model ≡ q.accounting_model = ok_model (sym trims ∙ trimmed) in
        elim (Bool-cases (ltb max_safe_integer units)) [
          | inl unsafe ↦ absurd (ground (arith, rw unsafe at h2))
          | inr safe ↦
              let (same, valid) = parsed-ok _ b (rw safe at h2) in
              (
                ap (λ (x : StoredGenerationBatch). x.accounting_model) (sym same)
                    ∙ ap some same_model,
                ap (λ (x : StoredGenerationBatch). x.operation_mode) (sym same),
                subst (λ x. is_valid_batch x ≡ true) same valid,
              )
        ]

    create-Ready :
        (now : ℕ) (s t : StoredRun) (b : StoredGenerationBatch)
        → create hash q current now s ≡ ok (b, t)
        → Ready hash q current t b
    unfolding parse_batch
    create-Ready now s t b h =
        let (next, makes, done) = bind_ok (initial_batch hash q now) _ h in
        let (same, after) = ok_pair done in
        let (model, mode, valid) = initial_batch-routed now next makes in
        let new = batch_step q current now next in
        let key = request_key q in
        let steps : t.steps ≡ put_step new s.steps =
          ap (λ (x : StoredRun). x.steps) (sym after)
          ∙ announce_created-steps (is_initial q.scope) next (put new s) in
        let found : Found t key new next = record {
          there =
              ap (get_step key) steps
              ∙ get_step-put_step key new s.steps
              ∙ ap (λ (there : Bool). if there then some new else get_step key s.steps)
                  (is_text_self key);
          is_batch = refl;
          reads = rw valid refl;
        } in
        subst (Ready hash q current t) same (own-Ready current t next new found refl model mode)

    upgrade-Ready :
        (s t : StoredRun) (step : StepRecord) (b c : StoredGenerationBatch)
        → Found s (request_key q) step b
        → upgrade q current s step b ≡ ok (c, t)
        → Ready hash q current t c
    upgrade-Ready s t step b c f h =
        let (model, trims, h1) = bind_ok (schema_model q.accounting_model) _ h in
        let routed : StoredGenerationBatch = record b {
          accounting_model = some model;
          operation_mode = some q.operation_mode;
        } in
        let (next, parses, done) = bind_ok (parsed routed) _ h1 in
        let (same, valid) = parsed-ok routed next parses in
        let (given, after) = ok_pair done in
        let new : StepRecord = record step { input_hash = current; output = batch_output next } in
        let found =
          put-Found s t (request_key q) step new b next f refl refl refl
            (subst (λ x. is_valid_batch x ≡ true) same valid)
            (ap (λ (x : StoredRun). x.steps) (sym after)) in
        subst (Ready hash q current t) given (
          own-Ready current t next new found refl
            (ap (λ (x : StoredGenerationBatch). x.accounting_model) (sym same)
              ∙ ap some (ok_model (sym trims ∙ trimmed)))
            (ap (λ (x : StoredGenerationBatch). x.operation_mode) (sym same)))

    find_again-Ready :
        (s t : StoredRun) (step : StepRecord) (b c : StoredGenerationBatch)
        → Found s (request_key q) step b
        → is_known_hash hash q current step.input_hash ≡ true
        → find_again q current s step b ≡ ok (c, t)
        → Ready hash q current t c
    find_again-Ready s t step b c f known h =
        elim (Bool-cases (is_other_model b.accounting_model q.accounting_model)) [
          | inl other ↦ absurd (ground (arith, rw other at h))
          | inr same_model ↦ elim (Bool-cases (is_other_mode b.operation_mode q.operation_mode)) [
            | inl other ↦ absurd (ground (arith, rw other at (rw same_model at h)))
            | inr same_mode ↦ elim (Bool-cases (is_routed b)) [
              | inr unrouted ↦
                  upgrade-Ready s t step b c f
                    (rw unrouted at (rw same_mode at (rw same_model at h)))
              | inl routed ↦
                  let (given, after) =
                    ok_pair (rw routed at (rw same_mode at (rw same_model at h))) in
                  let here : Ready hash q current s b = record {
                    step = step;
                    found = f;
                    known = known;
                    same_model = same_model;
                    same_mode = same_mode;
                    routed = routed;
                  } in
                  subst (λ x. Ready hash q current t x) given
                    (subst (λ x. Ready hash q current x b) after here)
            ]
          ]
        ]

    read-Ready :
        (s t : StoredRun) (step : StepRecord) (c : StoredGenerationBatch)
        → get_step (request_key q) s.steps ≡ some step
        → is_batch_tool step.tool ≡ true
        → is_known_hash hash q current step.input_hash ≡ true
        → (o : Option StoredGenerationBatch) → parse_batch step.output ≡ o
        → (or_invalid o >>= find_again q current s step) ≡ ok (c, t)
        → Ready hash q current t c
    read-Ready s t step c there batch known none reads h = absurd (ground arith)
    read-Ready s t step c there batch known (some b) reads h =
        find_again-Ready s t step b c (record { there = there; is_batch = batch; reads = reads })
          known h

    ensure_by-Ready :
        (now : ℕ) (s t : StoredRun) (c : StoredGenerationBatch) (o : Option StepRecord)
        → get_step (request_key q) s.steps ≡ o
        → ensure_by hash q current now s o ≡ ok (c, t)
        → Ready hash q current t c
    unfolding read_batch
    ensure_by-Ready now s t c none there h = create-Ready now s t c h
    ensure_by-Ready now s t c (some step) there h = elim (Bool-cases (is_batch_tool step.tool)) [
      | inr other ↦ absurd (ground (arith, rw other at h))
      | inl batch ↦ elim (Bool-cases (is_known_hash hash q current step.input_hash)) [
        | inr unknown ↦ absurd (ground (arith, rw unknown at (rw batch at h)))
        | inl known ↦
            read-Ready s t step c there batch known (parse_batch step.output) refl
              (rw known at (rw batch at h))
      ]
    ]

-- Making a batch again gives the batch that there is: if the request names an accounting model that
-- the schema takes as it is, then after a call that succeeds (it has made the batch, found it, or
-- added the model and the mode to an older one) every later call with the same request, at any time,
-- succeeds with the same batch and changes nothing.
pub ensure_once :
    (hash : HashInput → String) (q : Request) (now : ℕ) (s t : StoredRun)
    (b : StoredGenerationBatch)
    → schema_model q.accounting_model ≡ ok q.accounting_model
    → ensure_generation_batch hash q now s ≡ ok (b, t)
    → (later : ℕ) → ensure_generation_batch hash q later t ≡ ok (b, t)
unfolding ensure_generation_batch
ensure_once hash q now s t b trimmed h later =
    let (current, hashes, done) = bind_ok (batch_input_hash hash q) _ h in
    let ready =
      ensure_by-Ready hash q current trimmed now s t b (get_step (request_key q) s.steps) refl
        done in
    rw hashes (Ready-again hash q current t b ready later)
