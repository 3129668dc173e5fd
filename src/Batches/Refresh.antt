-- ===== src/Batches/Refresh.antt =====
-- Refreshing a batch from its steps: src/core/generation-batch.ts and its schema.
use shan_hai_edu_ppt.Base.{
  ℕ, ◌+◌, ◌≤◌, ◌≡◌, refl, true, none, some, Option, List, [], ◌∷◌, length, arith, ok,
}
use shan_hai_edu_ppt.Contracts.Accounting.{BatchPage, StoredGenerationBatch, is_valid_batch}
use shan_hai_edu_ppt.Ports.{StepRecord}
use shan_hai_edu_ppt.TerminalAccounting.{last_by_key}
use shan_hai_edu_ppt.Batches.{
  Counts, count_page, count_pages, no_counts, batch_with, batch_from_steps,
}

count_page-le :
    (o : Option StepRecord) (c : Counts)
    → (count_page o c).completed + (count_page o c).failed ≤ c.completed + c.failed + 1
count_page-le none c = omega arith
count_page-le (some s) c = ground arith

count_page-submitted_le :
    (o : Option StepRecord) (c : Counts) → (count_page o c).submitted ≤ c.submitted + 1
count_page-submitted_le none c = omega arith
count_page-submitted_le (some s) c = ground arith

count_pages-submitted_le :
    (ps : List BatchPage) (steps : List StepRecord) (c : Counts)
    → (count_pages ps steps c).submitted ≤ c.submitted + length ps
unfolding count_pages
count_pages-submitted_le [] steps c = omega arith
count_pages-submitted_le (p ∷ ps) steps c =
    let o = last_by_key p.idempotency_key steps in
    omega (arith, count_pages-submitted_le ps steps (count_page o c), count_page-submitted_le o c)

count_pages-le :
    (ps : List BatchPage) (steps : List StepRecord) (c : Counts)
    → (count_pages ps steps c).completed + (count_pages ps steps c).failed
      ≤ c.completed + c.failed + length ps
unfolding count_pages
count_pages-le [] steps c = omega arith
count_pages-le (p ∷ ps) steps c =
    let o = last_by_key p.idempotency_key steps in
    omega (arith, count_pages-le ps steps (count_page o c), count_page-le o c)

-- The counts fit the schema.
batch_with-valid :
    (b : StoredGenerationBatch) (c : Counts) (now : ℕ)
    → is_valid_batch b ≡ true
    → c.completed + c.failed ≤ length b.pages
    → is_valid_batch (batch_with b c now) ≡ true
unfolding is_valid_batch batch_with
batch_with-valid b c now v le = ground (arith, v, le)

-- Refreshing a batch does not throw, as long as the amounts are safe integers, which the model does
-- not check: whatever steps the run has, the batch that a valid one becomes is valid again, with
-- the same pages; no more images are counted as submitted than it has pages, nor as completed and
-- failed together.
pub batch_from_steps-ok :
    (b : StoredGenerationBatch) (steps : List StepRecord) (now : ℕ)
    → is_valid_batch b ≡ true
    → (next : StoredGenerationBatch) × (batch_from_steps b steps now ≡ ok next)
      × (is_valid_batch next ≡ true)
      × (next.pages ≡ b.pages)
      × (next.progress.submitted ≤ length b.pages)
      × (next.progress.completed + next.progress.failed ≤ length b.pages)
unfolding batch_from_steps batch_with
batch_from_steps-ok b steps now v =
    let c = count_pages b.pages steps no_counts in
    let le = count_pages-le b.pages steps no_counts in
    let sent = count_pages-submitted_le b.pages steps no_counts in
    let valid = batch_with-valid b c now v (omega (arith, le)) in
    (batch_with b c now, rw valid refl, valid, refl, omega (arith, sent), omega (arith, le))
