-- ===== src/Usage/Outbox/Order.antt =====
-- The steps of the outbox of src/core/usage-v2-coordinator.ts, looked up by their keys.
use shan_hai_edu_ppt.Base.{
  ◌≡◌, ◌∙◌, ◌≤◌, ◌<◌, ap, sym, refl, ◌⊎◌, inl, inr, Bool, true, false, Option, none, some, List, [],
  ◌∷◌, String, is_text, is_text_iff, arith, if◌then◌else◌, Bool-cases,
}
use shan_hai_edu_ppt.Ports.{StepRecord}
use shan_hai_edu_ppt.Ports.Repository.{get_step, put_step}
use shan_hai_edu_ppt.Ports.Repository.Log.{get_step-put_step, get_step-key}
use shan_hai_edu_ppt.Usage.Outbox.{is_usage_report}
use shan_hai_edu_ppt.Usage.Outbox.Delivery.{is_done}
use shan_hai_edu_ppt.Usage.Outbox.Flush.{event_sequence}

abbrev pub only_report : Option StepRecord → Option StepRecord
only_report none = none
only_report (some s) = if is_usage_report s.tool then some s else none

-- The report under a key.
abbrev pub report_at : String → List StepRecord → Option StepRecord
report_at k ss = only_report (get_step k ss)

only_report_if :
    (b : Bool) (t : StepRecord) (o : Option StepRecord)
    → only_report (if b then some t else o) ≡ (if b then only_report (some t) else only_report o)
only_report_if true t o = refl
only_report_if false t o = refl

report_at-put :
    (k : String) (t : StepRecord) (ss : List StepRecord)
    → report_at k (put_step t ss)
      ≡ (if is_text t.idempotency_key k then only_report (some t) else report_at k ss)
report_at-put k t ss =
    ap only_report (get_step-put_step k t ss)
    ∙ only_report_if (is_text t.idempotency_key k) t (get_step k ss)

pub put_hit :
    (k : String) (t : StepRecord) (ss : List StepRecord)
    → is_text t.idempotency_key k ≡ true
    → report_at k (put_step t ss) ≡ only_report (some t)
put_hit k t ss hit = report_at-put k t ss ∙ (rw hit refl)

pub put_miss :
    (k : String) (t : StepRecord) (ss : List StepRecord)
    → is_text t.idempotency_key k ≡ false
    → report_at k (put_step t ss) ≡ report_at k ss
put_miss k t ss miss = report_at-put k t ss ∙ (rw miss refl)

pub report_at-some :
    (k : String) (ss : List StepRecord) {x : StepRecord}
    → report_at k ss ≡ some x
    → (get_step k ss ≡ some x) × (is_usage_report x.tool ≡ true) × (x.idempotency_key ≡ k)
report_at-some k ss {x} h = by (get_step k ss) refl h
  where
    by :
        (o : Option StepRecord)
        → get_step k ss ≡ o
        → only_report o ≡ some x
        → (get_step k ss ≡ some x) × (is_usage_report x.tool ≡ true) × (x.idempotency_key ≡ k)
    by none e h = cc
    by (some s) e h = elim (Bool-cases (is_usage_report s.tool)) [
      | inr other ↦ absurd (ground (arith, rw other at h))
      | inl report ↦
          let same : some s ≡ some x = rw report at h in
          let found : get_step k ss ≡ some x = e ∙ same in
          (found, ground (arith, same, report), get_step-key k ss {step = x} found)
    ]

pub found_itself :
    (k : String) (ss : List StepRecord) {x : StepRecord}
    → report_at k ss ≡ some x
    → report_at x.idempotency_key ss ≡ some x
found_itself k ss {x} h = ap (λ l. report_at l ss) (report_at-some k ss {x = x} h).2 ∙ h

-- The two lists have the same reports.
abbrev pub SameReports : List StepRecord → List StepRecord → Type 0
SameReports ss tt = (k : String) → report_at k tt ≡ report_at k ss

pub only_report-some : (t : StepRecord) {x : StepRecord} → only_report (some t) ≡ some x → x ≡ t
only_report-some t {x} h = ground arith

pub is_text_swap : (s t : String) → is_text s t ≡ false → is_text t s ≡ false
is_text_swap s t h = ground (arith, is_text_iff s t, is_text_iff t s)

-- What a lookup finds after a report was put.
pub found_after :
    (k : String) (t : StepRecord) (ss : List StepRecord) {x : StepRecord}
    → report_at k (put_step t ss) ≡ some x
    → ((x ≡ t) × (is_text t.idempotency_key k ≡ true))
      ⊎ ((report_at k ss ≡ some x) × (is_text t.idempotency_key k ≡ false))
found_after k t ss {x} h =
    let found = sym (report_at-put k t ss) ∙ h in
    elim (Bool-cases (is_text t.idempotency_key k)) [
      | inl hit ↦ inl (only_report-some t (rw hit at found), hit)
      | inr miss ↦ inr (rw miss at found, miss)
    ]

pub other_put :
    (t : StepRecord) (ss : List StepRecord)
    → is_usage_report t.tool ≡ false
    → report_at t.idempotency_key ss ≡ none
    → SameReports ss (put_step t ss)
other_put t ss other fresh k =
    report_at-put k t ss ∙ (elim (Bool-cases (is_text t.idempotency_key k)) [
      | inr miss ↦ rw miss refl
      | inl hit ↦ rw hit (
          rw other (sym fresh ∙ ap (λ l. report_at l ss) ((is_text_iff t.idempotency_key k).0 hit)))
    ])

pub put_again :
    (s t : StepRecord) (ss : List StepRecord)
    → s.idempotency_key ≡ t.idempotency_key
    → SameReports (put_step t ss) (put_step t (put_step s ss))
put_again s t ss same k = elim (Bool-cases (is_text t.idempotency_key k)) [
  | inl hit ↦ put_hit k t (put_step s ss) hit ∙ sym (put_hit k t ss hit)
  | inr miss ↦
      put_miss k t (put_step s ss) miss
      ∙ put_miss k s ss (ap (λ l. is_text l k) same ∙ miss)
      ∙ sym (put_miss k t ss miss)
]

-- Each key stands once.
abbrev pub IsMap : List StepRecord → Type 0
IsMap [] = Unit
IsMap (s ∷ ss) = (get_step s.idempotency_key ss ≡ none) × IsMap ss

pub put_step-IsMap : (t : StepRecord) (ss : List StepRecord) → IsMap ss → IsMap (put_step t ss)
unfolding put_step get_step
put_step-IsMap t [] m = (refl, tt)
put_step-IsMap t (s ∷ ss) m = elim (Bool-cases (is_text s.idempotency_key t.idempotency_key)) [
  | inl same ↦ rw same (
    ap (λ k. get_step k ss) (sym ((is_text_iff s.idempotency_key t.idempotency_key).0 same)) ∙ m.0,
    m.1,
  )
  | inr apart ↦ rw apart (
    get_step-put_step s.idempotency_key t ss
        ∙ (rw (is_text_swap s.idempotency_key t.idempotency_key apart) m.0),
    put_step-IsMap t ss m.1,
  )
]

-- The events that are recorded as acknowledged come before those that are not.
abbrev pub InOrder : List StepRecord → Type 0
InOrder ss =
    (k l : String) (x y : StepRecord)
    → report_at k ss ≡ some x
    → report_at l ss ≡ some y
    → event_sequence x < event_sequence y
    → is_done y.status ≡ true
    → is_done x.status ≡ true

pub SameReports-InOrder : (ss tt : List StepRecord) → SameReports ss tt → InOrder ss → InOrder tt
SameReports-InOrder ss tt same o k l x y hx hy lt done =
    o k l x y (sym (same k) ∙ hx) (sym (same l) ∙ hy) lt done

-- A report is put in the place of one with the same number.
pub put-InOrder :
    (ss : List StepRecord) (x t : StepRecord)
    → InOrder ss
    → report_at x.idempotency_key ss ≡ some x
    → t.idempotency_key ≡ x.idempotency_key
    → event_sequence t ≡ event_sequence x
    → is_done t.status ≡ is_done x.status
    → InOrder (put_step t ss)
put-InOrder ss x t o there key number done k l y z hy hz lt is_z =
    let (j, u, at_j, u_number, u_done) = before k y hy in
    let (i, v, at_i, v_number, v_done) = before l z hz in
    u_done ∙ o j i u v at_j at_i (omega (arith, lt, u_number, v_number)) (sym v_done ∙ is_z)
  where
    before :
        (k : String) (y : StepRecord)
        → report_at k (put_step t ss) ≡ some y
        → (j : String) × (u : StepRecord) × (report_at j ss ≡ some u)
          × (event_sequence y ≡ event_sequence u)
          × (is_done y.status ≡ is_done u.status)
    before k y h = elim (found_after k t ss {x = y} h) [
      | inl (new, hit) ↦ (
        x.idempotency_key,
        x,
        there,
        ap event_sequence new ∙ number,
        ap (λ (s : StepRecord). is_done s.status) new ∙ done,
      )
      | inr (old, miss) ↦ (k, y, old, refl, refl)
    ]

-- A report is put that has not been acknowledged, and no acknowledged one has a larger number.
pub fresh-InOrder :
    (ss : List StepRecord) (t : StepRecord)
    → InOrder ss
    → is_done t.status ≡ false
    → ((l : String) (y : StepRecord)
        → report_at l ss ≡ some y
        → event_sequence y ≤ event_sequence t)
    → InOrder (put_step t ss)
fresh-InOrder ss t o waits last k l x y hx hy lt done = elim (found_after l t ss {x = y} hy) [
  | inl (new, hit) ↦
      absurd (ground (arith, waits, sym (ap (λ (s : StepRecord). is_done s.status) new) ∙ done))
  | inr (old, miss) ↦ elim (found_after k t ss {x = x} hx) [
    | inl (new_x, hit) ↦ absurd (omega (arith, lt, ap event_sequence new_x, last l y old))
    | inr (old_x, miss_x) ↦ o k l x y old_x old lt done
  ]
]
