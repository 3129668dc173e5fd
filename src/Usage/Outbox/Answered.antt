-- ===== src/Usage/Outbox/Answered.antt =====
-- The events of src/core/usage-v2-coordinator.ts that the host has answered, in the steps of the
-- outbox.
use shan_hai_edu_ppt.Base.{
  ◌≡◌, ◌∙◌, ap, sym, inl, inr, Bool, true, false, some, List, String, arith,
}
use shan_hai_edu_ppt.Contracts.UsageAccounting.{UsageEvent}
use shan_hai_edu_ppt.Ports.{StepRecord}
use shan_hai_edu_ppt.Ports.Repository.{put_step}
use shan_hai_edu_ppt.Usage.Outbox.Delivery.{is_done}
use shan_hai_edu_ppt.Usage.Outbox.Order.{report_at, found_after, SameReports, IsMap}
use shan_hai_edu_ppt.Usage.Outbox.Moves.{Puts, report_event}

module _ (P : UsageEvent → Type 0) where
  -- The event of a report is one of those of `P`.
  abbrev pub Holds : StepRecord → Type 0
  Holds y = (e : UsageEvent) × (report_event y ≡ some e) × P e

  -- Each report that is acknowledged has such an event.
  abbrev pub IsAnswered : List StepRecord → Type 0
  IsAnswered ss =
      (k : String) (y : StepRecord) → report_at k ss ≡ some y → is_done y.status ≡ true → Holds y

  pub Puts-IsAnswered :
      (x : StepRecord) (b : Bool) (ss tt : List StepRecord)
      → Puts x b ss tt
      → (b ≡ true → Holds x)
      → IsAnswered ss
      → IsAnswered tt
  Puts-IsAnswered x b ss tt p said a k y h done =
      elim (found_after k p.new ss {x = y} (sym (p.same k) ∙ h)) [
        | inl (new, hit) ↦
            let (e, event, holds) =
              said (sym p.over ∙ ap (λ (s : StepRecord). is_done s.status) (sym new) ∙ done) in
            (e, ap report_event new ∙ p.event ∙ event, holds)
        | inr (old, miss) ↦ a k y old done
      ]

  pub SameReports-IsAnswered :
      (ss tt : List StepRecord) → SameReports ss tt → IsAnswered ss → IsAnswered tt
  SameReports-IsAnswered ss tt same a k y h = a k y (sym (same k) ∙ h)

  pub fresh-IsAnswered :
      (ss : List StepRecord) (t : StepRecord)
      → is_done t.status ≡ false
      → IsAnswered ss
      → IsAnswered (put_step t ss)
  fresh-IsAnswered ss t waits a k y h done = elim (found_after k t ss {x = y} h) [
    | inl (new, hit) ↦
        absurd (ground (arith, waits, sym (ap (λ (s : StepRecord). is_done s.status) new) ∙ done))
    | inr (old, miss) ↦ a k y old done
  ]

  -- Each key stands once, and the acknowledged reports have been answered.
  pub record IsKept (ss : List StepRecord) : Type 0 where
    pub map : IsMap ss
    pub answered : IsAnswered ss

  pub Puts-IsKept :
      (x : StepRecord) (b : Bool) (ss tt : List StepRecord)
      → Puts x b ss tt
      → (b ≡ true → Holds x)
      → IsKept ss
      → IsKept tt
  Puts-IsKept x b ss tt p said m = record {
    map = p.map m.map;
    answered = Puts-IsAnswered x b ss tt p said m.answered;
  }
