-- ===== src/Usage/Settlement/Revived.antt =====
-- A completed run that fails because the host rejects its settlement, and is completed again: the
-- updates of the finalization in src/core/usage-v2-coordinator.ts.
use shan_hai_edu_ppt.Base.{
  ℕ, ◌+◌, ◌≡◌, ◌∙◌, ◌≤◌, ◌<◌, ap, refl, inl, inr, Bool, true, false, ◌&&◌, Option, none, some, List,
  [], ◌∷◌, ◌++◌, String, any, ltb, arith, if◌then◌else◌, Bool-cases, Option-cases, ok, is_text_iff,
  is_text_self,
}
use shan_hai_edu_ppt.Contracts.{completed, failed, is_status, is_v4}
use shan_hai_edu_ppt.Contracts.Lifecycle.{LifecyclePayload}
use shan_hai_edu_ppt.Contracts.UsageAccounting.{BillStatus}
use shan_hai_edu_ppt.Policy.{
  RunPolicyState, fail_completed_usage_v2_finalization, restore_completed_usage_v2_finalization,
}
use shan_hai_edu_ppt.Ports.{
  StepRecord, NewAgentEvent, run_completed, run_failed, phase_changed, AgentEvent, StoredRun,
}
use shan_hai_edu_ppt.Ports.Repository.{get_step, put_step, last_sequence, append_event}
use shan_hai_edu_ppt.Ports.Repository.Log.{IsLog, get_step-put_step, get_step-key}
use shan_hai_edu_ppt.Lifecycle.{find_last}
use shan_hai_edu_ppt.Lifecycle.Stages.{find_last-append, find_last_holds}
use shan_hai_edu_ppt.Usage.{
  usage_v2_finalize_step_key, finalize_request_key, UsageFinalizeOutput, finalize_step_output,
  is_finalize,
}
use shan_hai_edu_ppt.Usage.Settlement.{
  FinalizationUpdate, is_run_completed, is_run_resumed, is_run_failed, finalization_failure,
  is_rejected_failure, is_by_finalization, with_run, announce_failed,
  fail_completed_run_for_finalization, sequence_or_zero, last_failure, announce_completed,
  completed_payload, restore_by, restore_completed_run_after_finalization, restored_reason,
  updated_step, update_finalization,
}
use shan_hai_edu_ppt.Usage.Settlement.Reconcile.{rejected_update}

last_sequence-snoc :
    (n : ℕ) (es : List AgentEvent) (e : AgentEvent) → last_sequence n (es ++ e ∷ []) ≡ e.sequence
unfolding last_sequence
last_sequence-snoc n [] e = refl
last_sequence-snoc n (d ∷ es) e = last_sequence-snoc d.sequence es e

-- Two events after a log that the test does not hold of.
find_last-skip :
    (p : AgentEvent → Bool) (es : List AgentEvent) (d e : AgentEvent)
    → p d ≡ false
    → p e ≡ false
    → find_last p ((es ++ d ∷ []) ++ e ∷ []) ≡ find_last p es
find_last-skip p es d e not_d not_e =
    find_last-append p (es ++ d ∷ []) e ∙ (rw not_e (find_last-append p es d ∙ (rw not_d refl)))

any_completed :
    (es : List AgentEvent) {payload : LifecyclePayload}
    → completed_payload (find_last (λ e. is_run_completed e.body) es) ≡ some payload
    → any (λ e. is_run_completed e.body) es ≡ true
unfolding find_last
any_completed [] {payload} h = absurd (ground (arith, h))
any_completed (e ∷ es) {payload} h =
    elim (Option-cases (find_last (λ d. is_run_completed d.body) es)) [
      | inr (later, found) ↦
          let rest =
            any_completed es {payload = payload}
              (ap completed_payload found ∙ (rw (found, find_last) at h)) in
          ground (arith, rest)
      | inl nothing ↦ elim (Bool-cases (is_run_completed e.body)) [
        | inl here ↦ rw here refl
        | inr other ↦ absurd (ground (arith, rw (nothing, other, find_last) at h))
      ]
    ]

last-le :
    (p : AgentEvent → Bool) (es : List AgentEvent)
    → IsLog 0 es
    → sequence_or_zero (find_last p es) ≤ last_sequence 0 es
last-le p es log = elim (Option-cases (find_last p es)) [
  | inl nothing ↦ omega (arith, ap sequence_or_zero nothing)
  | inr (e, found) ↦
      omega (arith, ap sequence_or_zero found, (find_last_holds p 0 es e log found).1)
]

ltb-true : (m n : ℕ) → m < n → ltb m n ≡ true
ltb-true m n h = ground (arith, h)

-- The failure that the settlement makes is the last one since the run was resumed.
failed-is_by :
    (s : StoredRun) (d f : NewAgentEvent)
    → IsLog 0 s.events
    → is_run_resumed d ≡ false
    → is_run_resumed f ≡ false
    → is_run_failed f ≡ true
    → is_rejected_failure f ≡ true
    → is_by_finalization (last_failure (append_event (append_event s d) f).events) ≡ true
unfolding append_event
failed-is_by s d f log not_d not_f fails rejected =
    let d1 : AgentEvent = record {
      sequence = last_sequence 0 s.events + 1;
      created_at = s.run.updated_at;
      body = d;
    } in
    let es = s.events ++ d1 ∷ [] in
    let f1 : AgentEvent = record {
      sequence = last_sequence 0 es + 1;
      created_at = s.run.updated_at;
      body = f;
    } in
    let resumed =
      sequence_or_zero (find_last (λ (e : AgentEvent). is_run_resumed e.body) (es ++ f1 ∷ [])) in
    let is_last : ltb resumed f1.sequence ≡ true = ltb-true resumed f1.sequence (
      omega (
        arith,
        ap sequence_or_zero
            (find_last-skip (λ (e : AgentEvent). is_run_resumed e.body) s.events d1 f1 not_d not_f),
        last-le (λ (e : AgentEvent). is_run_resumed e.body) s.events log,
        last_sequence-snoc 0 s.events d1,
      )) in
    let found : last_failure (es ++ f1 ∷ []) ≡ some f1 =
      find_last-append (λ (e : AgentEvent). ltb resumed e.sequence && is_run_failed e.body) es f1
      ∙ (rw (is_last, fails) refl) in
    ap is_by_finalization found ∙ rejected

module _ (key : String) where
  -- The step under the key, read, and once it is updated.
  updated :
      (u : FinalizationUpdate) (now : ℕ) (x : StepRecord) (ss : List StepRecord)
      → get_step key ss ≡ some x
      → get_step key (put_step (updated_step u now x) ss) ≡ some (updated_step u now x)
  updated u now x ss there =
      get_step-put_step key (updated_step u now x) ss
      ∙ (rw ((is_text_iff x.idempotency_key key).1 (get_step-key key ss {step = x} there)) refl)

updated-reads :
    (u : FinalizationUpdate) (now : ℕ) (x : StepRecord)
    → finalize_step_output (updated_step u now x)
      ≡ some (record {
        delivery_state = u.delivery_state;
        next_attempt_at = u.next_attempt_at;
        bill = u.bill;
      })
unfolding finalize_step_output
updated-reads u now x = rw (is_text_self (finalize_request_key x.run_id)) refl

abbrev failed_policy : RunPolicyState → RunPolicyState
failed_policy p = record p { status = failed; resume_state = none; version = p.version + 1 }

abbrev completed_policy : RunPolicyState → RunPolicyState
completed_policy p = record p { status = completed; resume_state = none; version = p.version + 1 }

fails-ok :
    (now : ℕ) (s : StoredRun)
    → s.run.status ≡ completed
    → is_v4 s.run.presentation_mode ≡ true
    → any (λ e. is_run_completed e.body) s.events ≡ true
    → fail_completed_run_for_finalization now s
      ≡ ok (announce_failed s.run.status (with_run (failed_policy s.run.policy) now s))
unfolding fail_completed_run_for_finalization fail_completed_usage_v2_finalization
fails-ok now s ended v4 done =
    rw (ap (λ r. is_status r failed) ended)
      (rw (ap (λ r. is_status r completed) ended, v4, done) refl)

restores-ok :
    (reason : String) (now : ℕ) (s : StoredRun) (payload : LifecyclePayload)
    → s.run.status ≡ failed
    → is_v4 s.run.presentation_mode ≡ true
    → is_by_finalization (last_failure s.events) ≡ true
    → completed_payload (find_last (λ e. is_run_completed e.body) s.events) ≡ some payload
    → restore_completed_run_after_finalization reason now s
      ≡ ok (
          announce_completed s.run.status reason payload
            (with_run (completed_policy s.run.policy) now s))
unfolding restore_completed_run_after_finalization restore_completed_usage_v2_finalization
restores-ok reason now s payload ended v4 by done =
    rw (ap (λ r. is_status r failed) ended, v4)
      (rw by (rw done (rw (ap (λ r. is_status r failed) ended, v4, restore_by) refl)))

updates-ok :
    (u : FinalizationUpdate) (now : ℕ) (s r t : StoredRun) (x : StepRecord)
    (o : UsageFinalizeOutput)
    → get_step (usage_v2_finalize_step_key s.run.id) s.steps ≡ some x
    → is_finalize x.tool ≡ true
    → finalize_step_output x ≡ some o
    → (if u.fail_completed_run
        then fail_completed_run_for_finalization now
            (record s { steps = put_step (updated_step u now x) s.steps })
        else ok (record s { steps = put_step (updated_step u now x) s.steps }))
      ≡ ok r
    → (if u.recover_completed_run
        then restore_completed_run_after_finalization (restored_reason u.status) now r
        else ok r)
      ≡ ok t
    → update_finalization u now s ≡ ok t
unfolding update_finalization
updates-ok u now s r t x o there tool reads fails recovers =
    rw (there, tool, reads) (rw fails recovers)

-- A completed V4 run whose settlement the host rejects fails; any later update that recovers it, by
-- a bill or by one more attempt, completes it again with the payload that it was completed with.
-- Neither throws, if the run has a finalization step that can be read, its log is numbered from 1
-- without a gap, and the last completion in it has a payload.
pub revived_run :
    (code : String) (kept : Option BillStatus) (u : FinalizationUpdate) (m n : ℕ) (s : StoredRun)
    (x : StepRecord) (o : UsageFinalizeOutput) (payload : LifecyclePayload)
    → IsLog 0 s.events
    → s.run.status ≡ completed
    → is_v4 s.run.presentation_mode ≡ true
    → get_step (usage_v2_finalize_step_key s.run.id) s.steps ≡ some x
    → is_finalize x.tool ≡ true
    → finalize_step_output x ≡ some o
    → completed_payload (find_last (λ e. is_run_completed e.body) s.events) ≡ some payload
    → u.fail_completed_run ≡ false
    → u.recover_completed_run ≡ true
    → (a b : StoredRun) × (es : List AgentEvent) × (e : AgentEvent) × (update_finalization
          (rejected_update code kept)
          m
          s
        ≡ ok a)
      × (a.run.status ≡ failed)
      × (update_finalization u n a ≡ ok b)
      × (b.run.status ≡ completed)
      × (b.events ≡ es ++ e ∷ [])
      × (e.body ≡ run_completed (some payload))
unfolding append_event
revived_run code kept u m n s x o payload log ended v4 there tool reads done keeps recovers =
    let y : StepRecord = updated_step (rejected_update code kept) m x in
    let s1 : StoredRun = record s { steps = put_step y s.steps } in
    let a = announce_failed s.run.status (with_run (failed_policy s.run.policy) m s1) in
    let z : StepRecord = updated_step u n y in
    let a1 : StoredRun = record a { steps = put_step z a.steps } in
    let key = usage_v2_finalize_step_key s.run.id in
    let is_last =
      failed-is_by (with_run (failed_policy s.run.policy) m s1)
        (phase_changed s.run.status failed "USAGE_V2_FINALIZATION_REJECTED")
        (run_failed (finalization_failure a.run)) log refl refl refl refl in
    let still : completed_payload (find_last (λ (e : AgentEvent). is_run_completed e.body) a.events)
        ≡ some payload =
      ap completed_payload
        (find_last-skip (λ (e : AgentEvent). is_run_completed e.body) s.events _ _ refl refl)
      ∙ done in
    (
      a,
      announce_completed failed (restored_reason u.status) payload
          (with_run (completed_policy (failed_policy s.run.policy)) n a1),
      _,
      _,
      updates-ok (rejected_update code kept) m s a a x o there tool reads
          (fails-ok m s1 ended v4 (any_completed s.events {payload = payload} done)) refl,
      refl,
      updates-ok u n a a1 _ y _ (updated key (rejected_update code kept) m x s.steps there) tool
          (updated-reads (rejected_update code kept) m x) (rw keeps refl)
          (rw recovers (restores-ok (restored_reason u.status) n a1 payload refl v4 is_last still)),
      refl,
      refl,
      refl,
    )
