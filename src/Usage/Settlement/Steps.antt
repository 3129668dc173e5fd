-- ===== src/Usage/Settlement/Steps.antt =====
-- What an update of the finalization in src/core/usage-v2-coordinator.ts does to the steps of the run.
use shan_hai_edu_ppt.Base.{
  ℕ, ◌≡◌, ◌∙◌, ap, sym, inl, inr, Bool, true, false, not, ◌||◌, Option, none, some, List, String,
  any, arith, if◌then◌else◌, Bool-cases, Option-cases, Result-cases, Result, ok, bind_ok,
}
use shan_hai_edu_ppt.Contracts.{completed, failed, is_status, is_v4}
use shan_hai_edu_ppt.Contracts.Lifecycle.{LifecyclePayload}
use shan_hai_edu_ppt.Policy.{
  fail_completed_usage_v2_finalization, restore_completed_usage_v2_finalization,
}
use shan_hai_edu_ppt.Ports.{StepRecord, StoredRun}
use shan_hai_edu_ppt.Ports.Repository.{get_step, put_step, append_event}
use shan_hai_edu_ppt.Lifecycle.{find_last}
use shan_hai_edu_ppt.Usage.{
  usage_v2_finalize_step_key, UsageFinalizeOutput, finalize_step_output, is_finalize,
}
use shan_hai_edu_ppt.Usage.Settlement.{
  SettlementCode, finalize_missing, FinalizationUpdate, is_run_completed,
  fail_completed_run_for_finalization, last_failure, is_by_finalization, completed_payload,
  restore_by, restore_completed_run_after_finalization, found_finalization, or_finalize_invalid,
  restored_reason, updated_step, update_finalization,
}

-- The steps are those of `s`, and the run has the id that it had.
pub record SameSteps (s t : StoredRun) : Type 0 where
  pub steps : t.steps ≡ s.steps
  pub id : t.run.id ≡ s.run.id

pub settled_run :
    {s t : StoredRun} → ◌≡◌ {A = Result SettlementCode StoredRun} (ok s) (ok t) → s ≡ t
settled_run h = cc

self : (s t : StoredRun) → ◌≡◌ {A = Result SettlementCode StoredRun} (ok s) (ok t) → SameSteps s t
self s t h = record {
  steps = ap (λ (r : StoredRun). r.steps) (sym (settled_run h));
  id = ap (λ (r : StoredRun). r.run.id) (sym (settled_run h));
}

fail_completed-SameSteps :
    (now : ℕ) (s t : StoredRun) → fail_completed_run_for_finalization now s ≡ ok t → SameSteps s t
unfolding fail_completed_run_for_finalization append_event
fail_completed-SameSteps now s t h = elim (Bool-cases (is_status s.run.status failed)) [
  | inl has_failed ↦ self s t (rw has_failed at h)
  | inr runs ↦
      let h1 = rw runs at h in
      elim (Bool-cases
        (not (is_status s.run.status completed) || not (is_v4 s.run.presentation_mode))) [
          | inl other ↦ self s t (rw other at h1)
          | inr v4 ↦
              let h2 = rw v4 at h1 in
              elim (Bool-cases (not (any (λ e. is_run_completed e.body) s.events))) [
                | inl missing ↦ absurd (ground (arith, rw missing at h2))
                | inr there ↦
                    elim (Result-cases (fail_completed_usage_v2_finalization s.run.policy)) [
                      | inl (e, refused) ↦ absurd (ground (arith, rw refused at (rw there at h2)))
                      | inr (policy, moves) ↦
                          let same = settled_run (rw moves at (rw there at h2)) in
                          record {
                            steps = ap (λ (r : StoredRun). r.steps) (sym same);
                            id = ap (λ (r : StoredRun). r.run.id) (sym same);
                          }
                    ]
              ]
        ]
]

restore_by-SameSteps :
    (payload : Option LifecyclePayload) (reason : String) (now : ℕ) (s t : StoredRun)
    → restore_by payload reason now s ≡ ok t
    → SameSteps s t
unfolding append_event
restore_by-SameSteps none reason now s t h = absurd (ground (arith, h))
restore_by-SameSteps (some payload) reason now s t h =
    elim (Result-cases (restore_completed_usage_v2_finalization s.run.policy)) [
      | inl (e, refused) ↦ absurd (ground (arith, rw (refused, restore_by) at h))
      | inr (policy, moves) ↦
          let same = settled_run (rw (moves, restore_by) at h) in
          record {
            steps = ap (λ (r : StoredRun). r.steps) (sym same);
            id = ap (λ (r : StoredRun). r.run.id) (sym same);
          }
    ]

restore_completed-SameSteps :
    (reason : String) (now : ℕ) (s t : StoredRun)
    → restore_completed_run_after_finalization reason now s ≡ ok t
    → SameSteps s t
unfolding restore_completed_run_after_finalization
restore_completed-SameSteps reason now s t h =
    elim (Bool-cases (not (is_status s.run.status failed) || not (is_v4 s.run.presentation_mode))) [
      | inl other ↦ self s t (rw other at h)
      | inr v4 ↦
          let h1 = rw v4 at h in
          elim (Bool-cases (not (is_by_finalization (last_failure s.events)))) [
            | inl elsewhere ↦ self s t (rw elsewhere at h1)
            | inr by_settlement ↦
                restore_by-SameSteps
                  (completed_payload (find_last (λ e. is_run_completed e.body) s.events)) reason now
                  s t (rw by_settlement at h1)
          ]
    ]

ok_step : {x y : StepRecord} → ◌≡◌ {A = Result SettlementCode StepRecord} (ok x) (ok y) → x ≡ y
ok_step h = cc

ok_output :
    {o p : UsageFinalizeOutput}
    → ◌≡◌ {A = Result SettlementCode UsageFinalizeOutput} (ok o) (ok p)
    → o ≡ p
ok_output h = cc

pub found_finalization-ok :
    (c : SettlementCode) (k : String) (ss : List StepRecord) {x : StepRecord}
    → found_finalization c (get_step k ss) ≡ ok x
    → (get_step k ss ≡ some x) × (is_finalize x.tool ≡ true)
found_finalization-ok c k ss {x} h = elim (Option-cases (get_step k ss)) [
  | inl nothing ↦ absurd (ground (arith, rw nothing at h))
  | inr (y, found) ↦ elim (Bool-cases (is_finalize y.tool)) [
    | inr other ↦ absurd (ground (arith, rw other at (rw found at h)))
    | inl tool ↦
        let same : y ≡ x = ok_step (rw tool at (rw found at h)) in
        (found ∙ ap some same, sym (ap (λ (z : StepRecord). is_finalize z.tool) same) ∙ tool)
  ]
]

read-ok :
    (r : Option UsageFinalizeOutput) {o : UsageFinalizeOutput}
    → or_finalize_invalid r ≡ ok o
    → r ≡ some o
read-ok none {o} h = absurd (ground (arith, h))
read-ok (some p) {o} h = ap some (ok_output h)

if-SameSteps :
    (b : Bool) (r : Result SettlementCode StoredRun) (s t : StoredRun)
    → (r ≡ ok t → SameSteps s t)
    → (if b then r else ok s) ≡ ok t
    → SameSteps s t
if-SameSteps true r s t same h = same h
if-SameSteps false r s t same h = self s t h

-- The finalization's step is put, and no other changes.
pub record Updates (u : FinalizationUpdate) (now : ℕ) (s t : StoredRun) : Type 0 where
  pub step : StepRecord
  pub output : UsageFinalizeOutput
  pub there : get_step (usage_v2_finalize_step_key s.run.id) s.steps ≡ some step
  pub tool : is_finalize step.tool ≡ true
  pub reads : finalize_step_output step ≡ some output
  pub steps : t.steps ≡ put_step (updated_step u now step) s.steps
  pub id : t.run.id ≡ s.run.id

pub update_finalization-Updates :
    (u : FinalizationUpdate) (now : ℕ) (s t : StoredRun)
    → update_finalization u now s ≡ ok t
    → Updates u now s t
unfolding update_finalization
update_finalization-Updates u now s t h =
    let key = usage_v2_finalize_step_key s.run.id in
    let (x, found, h1) = bind_ok (found_finalization finalize_missing (get_step key s.steps)) _ h in
    let (there, tool) = found_finalization-ok finalize_missing key s.steps {x = x} found in
    let (o, reads, h2) = bind_ok (or_finalize_invalid (finalize_step_output x)) _ h1 in
    let put : StoredRun = record s { steps = put_step (updated_step u now x) s.steps } in
    let (r, fails, h3) =
      bind_ok (if u.fail_completed_run then fail_completed_run_for_finalization now put else ok put)
        _ h2 in
    let one =
      if-SameSteps u.fail_completed_run (fail_completed_run_for_finalization now put) put r
        (fail_completed-SameSteps now put r) fails in
    let two =
      if-SameSteps u.recover_completed_run
        (restore_completed_run_after_finalization (restored_reason u.status) now r) r t
        (restore_completed-SameSteps (restored_reason u.status) now r t) h3 in
    record {
      step = x;
      output = o;
      there = there;
      tool = tool;
      reads = read-ok (finalize_step_output x) reads;
      steps = two.steps ∙ one.steps;
      id = two.id ∙ one.id;
    }
