-- ===== src/Base/Results.antt =====
-- Code that may throw: the code of the error, or the value.
use mathlib.Core.Path.{◌≡◌, refl}
use mathlib.Core.Logic.{◌⊎◌, inl, inr}

pub data Result {κ} (Code : Type 0) (X : Type κ) : Type κ where
  err : Code → Result Code X
  ok : X → Result Code X

-- What a throw skips.
infixl 5 ◌>>=◌ ◌>>◌
abbrev pub ◌>>=◌ {κ ι} :
    {Code : Type 0} {X : Type κ} {Y : Type ι} → Result Code X → (X → Result Code Y) → Result Code Y
err code >>= next = err code
ok x >>= next = next x

-- A test that throws, and what follows it.
abbrev pub ◌>>◌ {ι} :
    {Code : Type 0} {Y : Type ι} → Result Code (Unit {0}) → Result Code Y → Result Code Y
err code >> rest = err code
ok done >> rest = rest

-- A computed result, for a case split.
pub Result-cases {κ} :
    {Code : Type 0} {X : Type κ} (r : Result Code X)
    → ((code : Code) × (r ≡ err code)) ⊎ ((x : X) × (r ≡ ok x))
Result-cases (err code) = inl (code, refl)
Result-cases (ok x) = inr (x, refl)

-- Both parts of a chain that does not throw.
pub bind_ok {κ ι} :
    {Code : Type 0} {X : Type κ} {Y : Type ι} (r : Result Code X) (next : X → Result Code Y) {y : Y}
    → (r >>= next) ≡ ok y
    → (x : X) × (r ≡ ok x) × (next x ≡ ok y)
bind_ok (err code) next h = cc
bind_ok (ok x) next h = (x, refl, h)
