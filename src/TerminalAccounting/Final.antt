-- ===== src/TerminalAccounting/Final.antt =====
-- What a final accounting means: src/core/v4-terminal-accounting.ts.
use shan_hai_edu_ppt.Base.{◌+◌, ◌≤◌, ◌≡◌, ◌⊎◌, true, List, arith, length, All, ap}
use shan_hai_edu_ppt.Contracts.Accounting.{final, is_valid_accounting}
use shan_hai_edu_ppt.Ports.{StepRecord, RunRecord}
use shan_hai_edu_ppt.TerminalAccounting.{
  Tally, image_steps, batch_steps, is_terminal_page, tally_steps, check_commitment, close_tally,
  derive_v4_terminal_accounting,
}
use shan_hai_edu_ppt.TerminalAccounting.Loops.{IsClosed, IsBatchClosed}

-- The accounting always fits its schema, so that building it never throws: a final one allocates
-- the whole budget and leaves nothing to reconcile.
pub derive_valid :
    (run : RunRecord) (steps : List StepRecord)
    → is_valid_accounting (derive_v4_terminal_accounting run steps) ≡ true
unfolding is_valid_accounting derive_v4_terminal_accounting
derive_valid run steps = ground arith

close_final :
    (run : RunRecord) (t : Tally)
    → (close_tally run t).accounting_status ≡ final
    → (t.is_clean ≡ true) × (t.reconciliation ≡ 0)
unfolding close_tally
close_final run t h = ground arith

check_clean :
    (run : RunRecord) (t : Tally)
    → (check_commitment run t).is_clean ≡ true
    → (t.is_clean ≡ true)
      × (t.settled ≡ run.committed_budget_units)
      × (t.settled ≤ run.budget_units)
      × (check_commitment run t ≡ t)
unfolding check_commitment
check_clean run t h = ground arith

-- FINAL is a promise about the units: what is settled is what the run has committed, it stays
-- within the budget, the rest of the budget is released, and nothing waits to be reconciled.
pub final_allocates :
    (run : RunRecord) (steps : List StepRecord)
    → let a = derive_v4_terminal_accounting run steps in
      a.accounting_status ≡ final
      → (a.settled_units ≡ run.committed_budget_units)
        × (a.settled_units ≤ run.budget_units)
        × (a.settled_units + a.released_units ≡ run.budget_units)
        × (a.reconciliation_units ≡ 0)
unfolding derive_v4_terminal_accounting
final_allocates run steps h =
    let (clean, none_left) = close_final run (check_commitment run (tally_steps run steps)) h in
    let (before, settled, fits, same) = check_clean run (tally_steps run steps) clean in
    let settles = ap (λ t. t.settled) same in
    (
      omega (arith, settled, settles),
      omega (arith, fits, settles),
      omega (arith, fits, settles),
      none_left,
    )

-- What the loops leave closed in a run without batches, and in one with batches.
abbrev pub EverythingClosed : RunRecord → List StepRecord → Type 0
EverythingClosed run steps =
    ((length (batch_steps run steps) ≡ 0)
      × All (λ s. is_terminal_page s.status ≡ true) (image_steps run steps))
    ⊎ (All (IsBatchClosed (image_steps run steps)) (batch_steps run steps)
        × All (λ s. IsClosed (image_steps run steps) s.idempotency_key) (image_steps run steps))
