-- ===== src/Usage/Outbox/Sorting.antt =====
-- The reports of src/core/usage-v2-coordinator.ts in the order of their numbers.
use shan_hai_edu_ppt.Base.{
  ◌≡◌, ◌∙◌, ◌≤◌, ap, refl, inl, inr, false, none, some, List, [], ◌∷◌, String, is_text, is_text_iff,
  is_text_self, keep, ltb, arith, Bool-cases,
}
use shan_hai_edu_ppt.Ports.{StepRecord}
use shan_hai_edu_ppt.Ports.Repository.{get_step}
use shan_hai_edu_ppt.Usage.Outbox.{is_usage_report}
use shan_hai_edu_ppt.Usage.Outbox.Flush.{event_sequence, insert_by_sequence, sort_by_sequence}
use shan_hai_edu_ppt.Usage.Outbox.Order.{
  only_report-some, report_at, report_at-some, is_text_swap, IsMap, InOrder,
}
use shan_hai_edu_ppt.Usage.Outbox.Queue.{IsBefore, Ahead, IsQueue, Unchanged, Waits, IsFlushing}

abbrev Apart : StepRecord → List StepRecord → Type 0
Apart x [] = Unit
Apart x (y ∷ ys) = (is_text x.idempotency_key y.idempotency_key ≡ false) × Apart x ys

insert-Apart :
    (z x : StepRecord) (ys : List StepRecord)
    → is_text z.idempotency_key x.idempotency_key ≡ false
    → Apart z ys
    → Apart z (insert_by_sequence x ys)
unfolding insert_by_sequence
insert-Apart z x [] one a = (one, tt)
insert-Apart z x (y ∷ ys) one a = elim (Bool-cases (ltb (event_sequence y) (event_sequence x))) [
  | inl later ↦ rw later (a.0, insert-Apart z x ys one a.1)
  | inr first ↦ rw first (one, a)
]

sort-Apart : (z : StepRecord) (xs : List StepRecord) → Apart z xs → Apart z (sort_by_sequence xs)
unfolding sort_by_sequence
sort-Apart z [] a = tt
sort-Apart z (x ∷ xs) a = insert-Apart z x (sort_by_sequence xs) a.0 (sort-Apart z xs a.1)

insert-Ahead :
    (z x : StepRecord) (ys : List StepRecord)
    → IsBefore z x
    → Ahead z ys
    → Ahead z (insert_by_sequence x ys)
unfolding insert_by_sequence
insert-Ahead z x [] one a = (one, tt)
insert-Ahead z x (y ∷ ys) one a = elim (Bool-cases (ltb (event_sequence y) (event_sequence x))) [
  | inl later ↦ rw later (a.0, insert-Ahead z x ys one a.1)
  | inr first ↦ rw first (one, a)
]

-- What stands before the first of a queue stands before all of it.
first-Ahead :
    (x y : StepRecord) (ys : List StepRecord)
    → event_sequence x ≤ event_sequence y
    → Apart x ys
    → Ahead y ys
    → Ahead x ys
first-Ahead x y [] le apart a = tt
first-Ahead x y (z ∷ zs) le apart a =
    ((omega (arith, le, a.0.0), apart.0), first-Ahead x y zs le apart.1 a.1)

insert-IsQueue :
    (x : StepRecord) (ys : List StepRecord)
    → Apart x ys
    → IsQueue ys
    → IsQueue (insert_by_sequence x ys)
unfolding insert_by_sequence
insert-IsQueue x [] apart q = (tt, tt)
insert-IsQueue x (y ∷ ys) apart q = elim (Bool-cases (ltb (event_sequence y) (event_sequence x))) [
  | inl later ↦ rw later (
    insert-Ahead y x ys
        (ground (arith, later), is_text_swap x.idempotency_key y.idempotency_key apart.0) q.0,
    insert-IsQueue x ys apart.1 q.1,
  )
  | inr first ↦
      let le : event_sequence x ≤ event_sequence y = ground (arith, first) in
      rw first (((le, apart.0), first-Ahead x y ys le apart.1 q.0), q)
]

insert-Unchanged :
    (x : StepRecord) (ss ys : List StepRecord)
    → report_at x.idempotency_key ss ≡ some x
    → Unchanged ss ys
    → Unchanged ss (insert_by_sequence x ys)
unfolding insert_by_sequence
insert-Unchanged x ss [] one u = (one, tt)
insert-Unchanged x ss (y ∷ ys) one u =
    elim (Bool-cases (ltb (event_sequence y) (event_sequence x))) [
      | inl later ↦ rw later (u.0, insert-Unchanged x ss ys one u.1)
      | inr first ↦ rw first (one, u)
    ]

insert-Waits :
    (x y : StepRecord) (ys : List StepRecord) → Waits y (x ∷ ys) → Waits y (insert_by_sequence x ys)
unfolding insert_by_sequence
insert-Waits x y [] w = w
insert-Waits x y (z ∷ zs) w = elim (Bool-cases (ltb (event_sequence z) (event_sequence x))) [
  | inr first ↦ rw first w
  | inl later ↦ rw later (elim w [
    | inl one ↦ inr (insert-Waits x y zs (inl one))
    | inr (inl two) ↦ inl two
    | inr (inr rest) ↦ inr (insert-Waits x y zs (inr rest))
  ])
]

sort-Unchanged : (ss xs : List StepRecord) → Unchanged ss xs → Unchanged ss (sort_by_sequence xs)
unfolding sort_by_sequence
sort-Unchanged ss [] u = tt
sort-Unchanged ss (x ∷ xs) u =
    insert-Unchanged x ss (sort_by_sequence xs) u.0 (sort-Unchanged ss xs u.1)

sort-Waits : (y : StepRecord) (xs : List StepRecord) → Waits y xs → Waits y (sort_by_sequence xs)
unfolding sort_by_sequence
sort-Waits y [] w = w
sort-Waits y (x ∷ xs) (inl one) = insert-Waits x y (sort_by_sequence xs) (inl one)
sort-Waits y (x ∷ xs) (inr w) = insert-Waits x y (sort_by_sequence xs) (inr (sort-Waits y xs w))

abbrev pub the_reports : List StepRecord → List StepRecord
the_reports ss = keep (λ s. is_usage_report s.tool) ss

fresh-Apart :
    (s : StepRecord) (ss : List StepRecord)
    → get_step s.idempotency_key ss ≡ none
    → Apart s (the_reports ss)
unfolding get_step
fresh-Apart s [] h = tt
fresh-Apart s (y ∷ ys) h = elim (Bool-cases (is_text y.idempotency_key s.idempotency_key)) [
  | inl same ↦ absurd (ground (arith, rw same at h))
  | inr apart ↦
      let rest = fresh-Apart s ys (rw apart at h) in
      elim (Bool-cases (is_usage_report y.tool)) [
        | inl report ↦ rw report (is_text_swap y.idempotency_key s.idempotency_key apart, rest)
        | inr other ↦ rw other rest
      ]
]

grow-Unchanged :
    (s : StepRecord) (ss xs : List StepRecord)
    → get_step s.idempotency_key ss ≡ none
    → Unchanged ss xs
    → Unchanged (s ∷ ss) xs
unfolding get_step
grow-Unchanged s ss [] fresh u = tt
grow-Unchanged s ss (x ∷ xs) fresh u = (
  elim (Bool-cases (is_text s.idempotency_key x.idempotency_key)) [
    | inr apart ↦ rw apart u.0
    | inl same ↦
        let (found, report, at_k) = report_at-some x.idempotency_key ss {x = x} u.0 in
        absurd (
          ground (
            arith,
            fresh,
            ap (λ k. get_step k ss) ((is_text_iff s.idempotency_key x.idempotency_key).0 same)
                ∙ found,
          ))
  ],
  grow-Unchanged s ss xs fresh u.1,
)

reports-Unchanged : (ss : List StepRecord) → IsMap ss → Unchanged ss (the_reports ss)
unfolding get_step
reports-Unchanged [] m = tt
reports-Unchanged (s ∷ ss) m =
    let rest = grow-Unchanged s ss (the_reports ss) m.0 (reports-Unchanged ss m.1) in
    elim (Bool-cases (is_usage_report s.tool)) [
      | inr other ↦ rw other rest
      | inl report ↦ rw report (rw (is_text_self s.idempotency_key) (rw report refl), rest)
    ]

reports-Waits :
    (ss : List StepRecord) (k : String) (y : StepRecord)
    → report_at k ss ≡ some y
    → Waits y (the_reports ss)
unfolding get_step
reports-Waits [] k y h = absurd (ground arith)
reports-Waits (s ∷ ss) k y h = elim (Bool-cases (is_text s.idempotency_key k)) [
  | inl hit ↦ elim (Bool-cases (is_usage_report s.tool)) [
    | inl report ↦ rw report (inl (only_report-some s (rw hit at h)))
    | inr other ↦ absurd (ground (arith, rw other at (rw hit at h)))
  ]
  | inr miss ↦
      let rest = reports-Waits ss k y (rw miss at h) in
      elim (Bool-cases (is_usage_report s.tool)) [
        | inl report ↦ rw report (inr rest)
        | inr other ↦ rw other rest
      ]
]

reports-IsQueue : (ss : List StepRecord) → IsMap ss → IsQueue (sort_by_sequence (the_reports ss))
unfolding sort_by_sequence
reports-IsQueue [] m = tt
reports-IsQueue (s ∷ ss) m =
    let rest = reports-IsQueue ss m.1 in
    elim (Bool-cases (is_usage_report s.tool)) [
      | inr other ↦ rw other rest
      | inl report ↦ rw report (
          insert-IsQueue s (sort_by_sequence (the_reports ss))
            (sort-Apart s (the_reports ss) (fresh-Apart s ss m.0)) rest)
    ]

-- A flush begins with the reports in the order of their numbers.
pub reports-IsFlushing :
    (ss : List StepRecord)
    → IsMap ss
    → InOrder ss
    → IsFlushing (sort_by_sequence (the_reports ss)) ss
reports-IsFlushing ss m o = record {
  queue = reports-IsQueue ss m;
  unchanged = sort-Unchanged ss (the_reports ss) (reports-Unchanged ss m);
  others = λ k y h. inl (sort-Waits y (the_reports ss) (reports-Waits ss k y h));
  in_order = o;
}
