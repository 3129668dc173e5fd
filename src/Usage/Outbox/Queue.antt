-- ===== src/Usage/Outbox/Queue.antt =====
-- The steps that a flush of the outbox in src/core/usage-v2-coordinator.ts has before it.
use shan_hai_edu_ppt.Base.{
  ◌≡◌, ◌∙◌, ◌≤◌, ap, sym, ◌⊎◌, inl, inr, true, false, some, List, [], ◌∷◌, String, is_text,
  is_text_iff, arith,
}
use shan_hai_edu_ppt.Ports.{StepRecord}
use shan_hai_edu_ppt.Ports.Repository.{put_step}
use shan_hai_edu_ppt.Usage.Outbox.Delivery.{is_done}
use shan_hai_edu_ppt.Usage.Outbox.Flush.{event_sequence}
use shan_hai_edu_ppt.Usage.Outbox.Order.{
  report_at, report_at-some, found_after, put_miss, InOrder, SameReports, SameReports-InOrder,
}

abbrev pub IsBefore : StepRecord → StepRecord → Type 0
IsBefore x y =
    (event_sequence x ≤ event_sequence y) × (is_text x.idempotency_key y.idempotency_key ≡ false)

-- Each has a key of its own, and the numbers do not fall.
abbrev pub Ahead : StepRecord → List StepRecord → Type 0
Ahead x [] = Unit
Ahead x (y ∷ ys) = IsBefore x y × Ahead x ys

abbrev pub IsQueue : List StepRecord → Type 0
IsQueue [] = Unit
IsQueue (x ∷ xs) = Ahead x xs × IsQueue xs

abbrev pub Unchanged : List StepRecord → List StepRecord → Type 0
Unchanged ss [] = Unit
Unchanged ss (x ∷ xs) = (report_at x.idempotency_key ss ≡ some x) × Unchanged ss xs

abbrev pub Waits : StepRecord → List StepRecord → Type 0
Waits y [] = ⊥
Waits y (x ∷ xs) = (y ≡ x) ⊎ Waits y xs

-- Every report is acknowledged, or waits as it is in the queue.
pub record IsFlushing (xs ss : List StepRecord) : Type 0 where
  pub queue : IsQueue xs
  pub unchanged : Unchanged ss xs
  pub others :
      (k : String) (y : StepRecord)
      → report_at k ss ≡ some y
      → Waits y xs ⊎ (is_done y.status ≡ true)
  pub in_order : InOrder ss

Ahead-Waits :
    (x y : StepRecord) (xs : List StepRecord)
    → Ahead x xs
    → Waits y xs
    → event_sequence x ≤ event_sequence y
Ahead-Waits x y [] a w = elim w [ ]
Ahead-Waits x y (z ∷ zs) a (inl same) = ground (arith, a.0.0, ap event_sequence same)
Ahead-Waits x y (z ∷ zs) a (inr later) = Ahead-Waits x y zs a.1 later

Unchanged-put :
    (x t : StepRecord) (ss xs : List StepRecord)
    → t.idempotency_key ≡ x.idempotency_key
    → Ahead x xs
    → Unchanged ss xs
    → Unchanged (put_step t ss) xs
Unchanged-put x t ss [] same a u = tt
Unchanged-put x t ss (y ∷ ys) same a u = (
  put_miss y.idempotency_key t ss (ap (λ k. is_text k y.idempotency_key) same ∙ a.0.1) ∙ u.0,
  Unchanged-put x t ss ys same a.1 u.1,
)

-- The first step was acknowledged before: the flush goes past it.
pub skip-IsFlushing :
    (x : StepRecord) (xs ss : List StepRecord)
    → IsFlushing (x ∷ xs) ss
    → is_done x.status ≡ true
    → IsFlushing xs ss
skip-IsFlushing x xs ss f done = record {
  queue = f.queue.1;
  unchanged = f.unchanged.1;
  others = λ k y h. elim (f.others k y h) [
    | inl (inl same) ↦ inr (ap (λ (s : StepRecord). is_done s.status) same ∙ done)
    | inl (inr later) ↦ inl later
    | inr ended ↦ inr ended
  ];
  in_order = f.in_order;
}

-- The first step is acknowledged.
pub put-IsFlushing :
    (x t : StepRecord) (xs ss : List StepRecord)
    → IsFlushing (x ∷ xs) ss
    → t.idempotency_key ≡ x.idempotency_key
    → event_sequence t ≡ event_sequence x
    → is_done t.status ≡ true
    → IsFlushing xs (put_step t ss)
put-IsFlushing x t xs ss f key number done = record {
  queue = f.queue.1;
  unchanged = Unchanged-put x t ss xs key f.queue.0 f.unchanged.1;
  others = λ k y h. elim (found_after k t ss {x = y} h) [
    | inl (new, hit) ↦ inr (ap (λ (s : StepRecord). is_done s.status) new ∙ done)
    | inr (old, miss) ↦ elim (f.others k y old) [
      | inl (inl same) ↦
          let at_k = (report_at-some k ss {x = y} old).2 in
          let hit =
            (is_text_iff t.idempotency_key k).1
              (key ∙ ap (λ (s : StepRecord). s.idempotency_key) (sym same) ∙ at_k) in
          absurd (ground (arith, miss, hit))
      | inl (inr later) ↦ inl later
      | inr ended ↦ inr ended
    ]
  ];
  in_order = λ k l y z hy hz lt ended. elim (found_after k t ss {x = y} hy) [
    | inl (new, hit) ↦ ap (λ (s : StepRecord). is_done s.status) new ∙ done
    | inr (old, miss) ↦ elim (found_after l t ss {x = z} hz) [
      | inr (old_z, miss_z) ↦ f.in_order k l y z old old_z lt ended
      | inl (new_z, hit_z) ↦ elim (f.others k y old) [
        | inl (inl same) ↦
            absurd (omega (arith, lt, ap event_sequence same, ap event_sequence new_z, number))
        | inl (inr later) ↦
            absurd (
              omega
                (arith, lt, ap event_sequence new_z, number, Ahead-Waits x y xs f.queue.0 later))
        | inr is_y ↦ is_y
      ]
    ]
  ];
}

moved-Unchanged :
    (ss uu ys : List StepRecord) → SameReports ss uu → Unchanged ss ys → Unchanged uu ys
moved-Unchanged ss uu [] same u = tt
moved-Unchanged ss uu (y ∷ ys) same u =
    (same y.idempotency_key ∙ u.0, moved-Unchanged ss uu ys same u.1)

-- Two lists with the same reports have the same before a flush.
pub SameReports-IsFlushing :
    (xs ss uu : List StepRecord) → SameReports ss uu → IsFlushing xs ss → IsFlushing xs uu
SameReports-IsFlushing xs ss uu same f = record {
  queue = f.queue;
  unchanged = moved-Unchanged ss uu xs same f.unchanged;
  others = λ k y h. f.others k y (sym (same k) ∙ h);
  in_order = SameReports-InOrder ss uu same f.in_order;
}
