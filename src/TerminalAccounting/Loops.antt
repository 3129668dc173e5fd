-- ===== src/TerminalAccounting/Loops.antt =====
-- What the loops of src/core/v4-terminal-accounting.ts have seen, when they end with nothing open.
use shan_hai_edu_ppt.Base.{
  ℕ, ◌≡◌, sym, subst, ◌∙◌, ap, ◌⊎◌, inl, inr, true, false, none, some, List, [], ◌∷◌, String, arith,
  is_text, is_text_iff, All, Bool-cases, Option-cases,
}
use shan_hai_edu_ppt.Contracts.Accounting.{
  StoredGenerationBatch, BatchPage, is_settlement_finished, is_batch_completed,
}
use shan_hai_edu_ppt.Ports.{StepRecord}
use shan_hai_edu_ppt.TerminalAccounting.{
  Tally, has_key, last_by_key, is_terminal_page, is_step_completed, tally_page, tally_pages,
  tally_batch, tally_batches, tally_legacy, tally_legacy_image, tally_orphans, estimated_page_units,
  tally_accounting, parse_batch, is_definitive_preflight_rejection, unresolved,
}

-- The image step stored under a key has come to an end.
abbrev pub IsClosed : List StepRecord → String → Type 0
IsClosed images key =
    (s : StepRecord) × (last_by_key key images ≡ some s) × (is_terminal_page s.status ≡ true)

-- A batch has come to an end: refused before it began, or completed, with every page closed.
pub record IsSettled (images : List StepRecord) (s : StepRecord) (b : StoredGenerationBatch)
    : Type 0 where
  pub step_completed : is_step_completed s.status ≡ true
  pub batch_completed : is_batch_completed b.status ≡ true
  pub settlement_finished : is_settlement_finished b.accounting.settlement ≡ true
  pub pages_closed : All (λ p. IsClosed images p.idempotency_key) b.pages

pub record IsBatchClosed (images : List StepRecord) (s : StepRecord) : Type 0 where
  pub batch : StoredGenerationBatch
  pub parses : parse_batch s.output ≡ some batch
  pub closed : (is_definitive_preflight_rejection s batch ≡ true) ⊎ IsSettled images s batch

module _ (images : List StepRecord) where
  tally_page_clean :
      (units : ℕ) (t : Tally) (p : BatchPage)
      → (tally_page images units t p).is_clean ≡ true
      → (t.is_clean ≡ true)
        × IsClosed images p.idempotency_key
        × ((tally_page images units t p).referenced ≡ p.idempotency_key ∷ t.referenced)
  unfolding tally_page
  tally_page_clean units t p h = elim (Option-cases (last_by_key p.idempotency_key images)) [
    | inl e ↦ absurd (ground arith)
    | inr (s, e) ↦ (ground arith, (s, e, ground arith), ground arith)
  ]

  tally_pages_clean :
      (units : ℕ) (t : Tally) (ps : List BatchPage)
      → (tally_pages images units t ps).is_clean ≡ true
      → (t.is_clean ≡ true)
        × All (λ p. IsClosed images p.idempotency_key) ps
        × (All (IsClosed images) t.referenced
            → All (IsClosed images) (tally_pages images units t ps).referenced)
  unfolding tally_pages
  tally_pages_clean units t [] h = (h, tt, λ c. c)
  tally_pages_clean units t (p ∷ ps) h =
      let (clean, closed, more) = tally_pages_clean units (tally_page images units t p) ps h in
      let (before, this, seen) = tally_page_clean units t p clean in
      (before, (this, closed), λ c. more (subst (All (IsClosed images)) (sym seen) (this, c)))

  tally_batch_kept :
      (t : Tally) (s : StepRecord) (b : StoredGenerationBatch)
      → parse_batch s.output ≡ some b
      → is_definitive_preflight_rejection s b ≡ false
      → tally_batch images t s
        ≡ tally_pages images (estimated_page_units b) (tally_accounting s b t) b.pages
  unfolding tally_batch
  tally_batch_kept t s b e kept = rw (e, tally_batch) (rw kept)

  tally_batch_refused :
      (t : Tally) (s : StepRecord) (b : StoredGenerationBatch)
      → parse_batch s.output ≡ some b
      → is_definitive_preflight_rejection s b ≡ true
      → tally_batch images t s ≡ t
  unfolding tally_batch
  tally_batch_refused t s b e out = rw (e, tally_batch) (rw out)

  tally_batch_unread :
      (t : Tally) (s : StepRecord)
      → parse_batch s.output ≡ none
      → (tally_batch images t s).is_clean ≡ false
  unfolding tally_batch
  tally_batch_unread t s e = rw (e, tally_batch)

  tally_batch_settles :
      (t : Tally) (s : StepRecord) (b : StoredGenerationBatch)
      → parse_batch s.output ≡ some b
      → (tally_pages images (estimated_page_units b) (tally_accounting s b t) b.pages).is_clean
        ≡ true
      → (t.is_clean ≡ true) × IsBatchClosed images s
  tally_batch_settles t s b e h =
      let (clean, closed, more) = tally_pages_clean _ (tally_accounting s b t) b.pages h in
      (
        ground arith,
        record {
          batch = b;
          parses = e;
          closed = inr (record {
            step_completed = ground arith;
            batch_completed = ground arith;
            settlement_finished = ground arith;
            pages_closed = closed;
          });
        },
      )

  tally_batch_clean :
      (t : Tally) (s : StepRecord)
      → (tally_batch images t s).is_clean ≡ true
      → (t.is_clean ≡ true)
        × IsBatchClosed images s
        × (All (IsClosed images) t.referenced
            → All (IsClosed images) (tally_batch images t s).referenced)
  tally_batch_clean t s h = elim (Option-cases (parse_batch s.output)) [
    | inl e ↦ cc (tally_batch_unread t s e)
    | inr (b, e) ↦ elim (Bool-cases (is_definitive_preflight_rejection s b)) [
      | inl out ↦
          let same = tally_batch_refused t s b e out in
          (
            sym (ap (λ u. u.is_clean) same) ∙ h,
            record { batch = b; parses = e; closed = inl out },
            λ c. rw same c,
          )
      | inr kept ↦
          let same = tally_batch_kept t s b e kept in
          let clean = sym (ap (λ u. u.is_clean) same) ∙ h in
          let (before, closed) = tally_batch_settles t s b e clean in
          (
            before,
            closed,
            λ c. rw same ((tally_pages_clean _ (tally_accounting s b t) b.pages clean).2 c),
          )
    ]
  ]

  pub tally_batches_clean :
      (t : Tally) (ss : List StepRecord)
      → (tally_batches images t ss).is_clean ≡ true
      → (t.is_clean ≡ true)
        × All (IsBatchClosed images) ss
        × (All (IsClosed images) t.referenced
            → All (IsClosed images) (tally_batches images t ss).referenced)
  unfolding tally_batches
  tally_batches_clean t [] h = (h, tt, λ c. c)
  tally_batches_clean t (s ∷ ss) h =
      let (clean, closed, more) = tally_batches_clean (tally_batch images t s) ss h in
      let (before, this, seen) = tally_batch_clean t s clean in
      (before, (this, closed), λ c. more (seen c))

  IsClosed-of-key :
      (key : String) (keys : List String)
      → All (IsClosed images) keys
      → has_key key keys ≡ true
      → IsClosed images key
  IsClosed-of-key key [] c h = cc
  IsClosed-of-key key (k ∷ ks) c h = elim (Bool-cases (is_text k key)) [
    | inl same ↦ subst (IsClosed images) ((is_text_iff k key).0 same) c.0
    | inr other ↦ IsClosed-of-key key ks c.1 (ground arith)
  ]

  pub tally_orphans_clean :
      (t : Tally) (ss : List StepRecord)
      → (tally_orphans t ss).is_clean ≡ true
      → (t.is_clean ≡ true)
        × (All (IsClosed images) t.referenced → All (λ s. IsClosed images s.idempotency_key) ss)
  unfolding tally_orphans
  tally_orphans_clean t [] h = (h, λ c. tt)
  tally_orphans_clean t (s ∷ ss) h = elim (Bool-cases (has_key s.idempotency_key t.referenced)) [
    | inl known ↦
        let (clean, rest) = tally_orphans_clean t ss (rw (known, tally_orphans) at h) in
        (clean, λ c. (IsClosed-of-key s.idempotency_key t.referenced c known, rest c))
    | inr orphan ↦
        cc (
          (tally_orphans_clean (unresolved t s.budget_units) ss
            (rw (orphan, tally_orphans) at h)).0)
  ]

pub tally_legacy_clean :
    (t : Tally) (ss : List StepRecord)
    → (tally_legacy t ss).is_clean ≡ true
    → (t.is_clean ≡ true) × All (λ s. is_terminal_page s.status ≡ true) ss
unfolding tally_legacy
tally_legacy_clean t [] h = (h, tt)
tally_legacy_clean t (s ∷ ss) h =
    let (clean, rest) = tally_legacy_clean (tally_legacy_image t s) ss h in
    (ground arith, (ground arith, rest))
