-- ===== src/Batches/Amounts.antt =====
-- What the settlement of a batch does to the run's budget: src/core/generation-batch.ts.
use shan_hai_edu_ppt.Base.{
  ℕ, ◌+◌, ◌≡◌, refl, inl, inr, Option, none, some, List, [], ◌∷◌, ◌==◌, arith, Bool-cases,
  Option-cases, Result, ok,
}
use shan_hai_edu_ppt.Contracts.Accounting.{BatchPage, StoredGenerationBatch}
use shan_hai_edu_ppt.Ports.{StepRecord, RunRecord}
use shan_hai_edu_ppt.TerminalAccounting.{last_by_key}
use shan_hai_edu_ppt.Batches.{BatchCode}
use shan_hai_edu_ppt.Batches.Finalize.{
  Allocation, allocate_page, allocate_pages, checked, batch_finalization, is_charged, will_retry,
  is_uncharged,
}

-- The units of the steps of some pages.
abbrev pub units_of : Option StepRecord → ℕ
units_of none = 0
units_of (some s) = s.budget_units

pub page_units : List BatchPage → List StepRecord → ℕ
page_units [] steps = 0
page_units (p ∷ ps) steps = units_of (last_by_key p.idempotency_key steps) + page_units ps steps

abbrev pub total : Allocation → ℕ
total a = a.settled_units + a.released_units

ok_inj :
    {x y : Option Allocation} → ◌≡◌ {A = Result BatchCode (Option Allocation)} (ok x) (ok y) → x ≡ y
ok_inj h = cc

allocate_page-total :
    (run : RunRecord) (o : Option StepRecord) (a : Allocation) {x : Allocation}
    → allocate_page run o a ≡ some x
    → total x ≡ total a + units_of o
allocate_page-total run none a h = cc
allocate_page-total run (some s) a h = elim (Bool-cases (is_charged s.status)) [
  | inl charged ↦ ground (arith, rw charged at h)
  | inr uncharged ↦ elim (Bool-cases (will_retry run s)) [
    | inl again ↦ absurd (ground (arith, rw again at (rw uncharged at h)))
    | inr ended ↦ elim (Bool-cases (is_uncharged s.status)) [
      | inl free ↦ ground (arith, rw free at (rw ended at (rw uncharged at h)))
      | inr open' ↦ absurd (ground (arith, rw open' at (rw ended at (rw uncharged at h))))
    ]
  ]
]

allocate_pages-none :
    (run : RunRecord) (ps : List BatchPage) (steps : List StepRecord)
    → allocate_pages run ps steps none ≡ none
unfolding allocate_pages
allocate_pages-none run [] steps = refl
allocate_pages-none run (p ∷ ps) steps = refl

allocate_pages-total :
    (run : RunRecord) (ps : List BatchPage) (steps : List StepRecord) (a : Allocation)
    {x : Allocation}
    → allocate_pages run ps steps (some a) ≡ some x
    → total x ≡ total a + page_units ps steps
unfolding allocate_pages page_units
allocate_pages-total run [] steps a h = ground (arith, h)
allocate_pages-total run (p ∷ ps) steps a {x} h =
    let one = last_by_key p.idempotency_key steps in
    elim (Option-cases (allocate_page run one a)) [
      | inl stops ↦ absurd (ground (arith, allocate_pages-none run ps steps, rw stops at h))
      | inr (b, goes) ↦ omega (
        arith,
        allocate_page-total run one a {x = b} goes,
        allocate_pages-total run ps steps b {x = x} (rw goes at h),
      )
    ]

checked-total :
    (b : StoredGenerationBatch) (o : Option Allocation) {a : Allocation}
    → checked b o ≡ ok (some a)
    → (o ≡ some a) × (total a ≡ b.accounting.estimated_units)
checked-total b none h = cc
checked-total b (some x) {a} h =
    elim (Bool-cases (x.settled_units + x.released_units == b.accounting.estimated_units)) [
      | inl fits ↦
          let same : some x ≡ some a = ok_inj (rw fits at h) in (same, ground (arith, fits, same))
      | inr unfit ↦ absurd (ground (arith, rw unfit at h))
    ]

-- The amounts of a finalization: all that was estimated, and what the steps of the pages carry.
pub batch_finalization-total :
    (b : StoredGenerationBatch) (steps : List StepRecord) (run : RunRecord) {a : Allocation}
    → batch_finalization b steps run ≡ ok (some a)
    → (total a ≡ b.accounting.estimated_units) × (total a ≡ page_units b.pages steps)
unfolding batch_finalization
batch_finalization-total b steps run {a} h =
    let start : Allocation = record { settled_units = 0; released_units = 0 } in
    let (all, fits) = checked-total b (allocate_pages run b.pages steps (some start)) {a = a} h in
    (fits, omega (arith, allocate_pages-total run b.pages steps start {x = a} all))
