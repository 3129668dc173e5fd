-- ===== src/Quality/Override.antt =====
-- Who sets the quality override of a V4 run: src/core/policy.ts and
-- `markAutomatedQualityAcceptance` of src/core/v4-lifecycle.ts.
use shan_hai_edu_ppt.Base.{
  ℕ, ◌≡◌, ◌∙◌, subst, refl, ◌⊎◌, inl, inr, true, false, some, List, String, arith, Bool-cases,
  Result, ok,
}
use shan_hai_edu_ppt.Contracts.{is_v4}
use shan_hai_edu_ppt.Contracts.Quality.{
  AutomationLevel, bounded_auto, supervised, QualityPolicyAudit,
}
use shan_hai_edu_ppt.Policy.Graph.{Step, Step-Moves}
use shan_hai_edu_ppt.Policy.Lives.{users_only, Step-override_kept}
use shan_hai_edu_ppt.Ports.{RunRecord}
use shan_hai_edu_ppt.Quality.Automated.{
  QualityError, is_bounded_auto, v4_non_blocking_quality_policy_id, audit_for,
  mark_automated_quality_acceptance,
}

-- A change of a run: a step of its policy in which no administrator acts, or the automated
-- acceptance. The other fields may change with the policy, but the level of automation does not, and
-- the audit is kept.
pub data OverrideStep (r : RunRecord) : RunRecord → Type 0 where
  policy_step :
      {t : RunRecord}
      → Step users_only r.policy t.policy
      → t.automation_level ≡ r.automation_level
      → t.quality_policy_audit ≡ r.quality_policy_audit
      → OverrideStep r t
  accepts_by_policy :
      {t : RunRecord} (ids : List String) (at : ℕ)
      → mark_automated_quality_acceptance r ids at ≡ ok t
      → OverrideStep r t

pub data OverrideHistory (r : RunRecord) : RunRecord → Type 0 where
  here : OverrideHistory r r
  next : {t u : RunRecord} → OverrideHistory r t → OverrideStep t u → OverrideHistory r u

-- The override was given by the system's policy, whose audit the run holds.
pub record IsByPolicy (r : RunRecord) : Type 0 where
  pub level : r.automation_level ≡ bounded_auto
  pub audit : QualityPolicyAudit
  pub kept : r.quality_policy_audit ≡ some audit
  pub named : audit.policy_id ≡ v4_non_blocking_quality_policy_id

abbrev Accounted : RunRecord → Type 0
Accounted r = (r.policy.quality_override ≡ false) ⊎ IsByPolicy r

level_named : (l : AutomationLevel) → is_bounded_auto l ≡ true → l ≡ bounded_auto
level_named bounded_auto h = refl
level_named supervised h = absurd (ground (arith, h))

marked_run : {r t : RunRecord} → ◌≡◌ {A = Result QualityError RunRecord} (ok r) (ok t) → r ≡ t
marked_run h = cc

marked-IsByPolicy :
    (r t : RunRecord) (ids : List String) (at : ℕ)
    → mark_automated_quality_acceptance r ids at ≡ ok t
    → (is_v4 t.policy.presentation_mode ≡ true) × IsByPolicy t
unfolding mark_automated_quality_acceptance
marked-IsByPolicy r t ids at h = elim (Bool-cases (is_v4 r.policy.presentation_mode)) [
  | inr other ↦ absurd (ground (arith, rw other at h))
  | inl v4 ↦ elim (Bool-cases (is_bounded_auto r.automation_level)) [
    | inr supervises ↦ absurd (ground (arith, rw supervises at (rw v4 at h)))
    | inl bounded ↦
        let after = marked_run (rw bounded at (rw v4 at h)) in
        subst (λ (x : RunRecord). (is_v4 x.policy.presentation_mode ≡ true) × IsByPolicy x) after
          (
            v4,
            record {
              level = level_named r.automation_level bounded;
              audit = audit_for r ids at;
              kept = refl;
              named = refl;
            },
          )
  ]
]

step-Accounted :
    (r t : RunRecord)
    → OverrideStep r t
    → (is_v4 r.policy.presentation_mode ≡ true)
    → Accounted r
    → (is_v4 t.policy.presentation_mode ≡ true) × Accounted t
step-Accounted r t (policy_step st level audit) v (inl shut) =
    (rw ((Step-Moves st).mode_kept) v, inl (Step-override_kept st (v, shut)))
step-Accounted r t (policy_step st level audit) v (inr p) = (
  rw ((Step-Moves st).mode_kept) v,
  inr (record { level = level ∙ p.level; audit = p.audit; kept = audit ∙ p.kept; named = p.named }),
)
step-Accounted r t (accepts_by_policy ids at h) v a =
    let (mode, by_policy) = marked-IsByPolicy r t ids at h in (mode, inr by_policy)

-- Without an administrator a V4 run gets the quality override only by the system's policy: whatever
-- the actions of users, in any order, mixed with transitions, recoveries, budget operations and
-- automated acceptances, a run that had no override still has none, or it is a BOUNDED_AUTO run
-- that holds the audit of the non-blocking quality policy.
pub users_cannot_override :
    {r t : RunRecord}
    → OverrideHistory r t
    → is_v4 r.policy.presentation_mode ≡ true
    → r.policy.quality_override ≡ false
    → (is_v4 t.policy.presentation_mode ≡ true)
      × ((t.policy.quality_override ≡ false) ⊎ IsByPolicy t)
users_cannot_override here v o = (v, inl o)
users_cannot_override (next {t = t} {u = u} before st) v o =
    let (mode, accounted) = users_cannot_override before v o in step-Accounted t u st mode accounted
