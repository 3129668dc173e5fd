-- ===== src/Base/Text/Decimal.antt =====
-- Reading the digits of a number back.
use Prim.Native.Nat.{ℕ, zero, suc, ◌+◌, ◌-◌, ◌*◌, ◌/◌, ◌%◌, ◌≤◌, ◌<◌}
use native.Mathlib.Omega.{arith}
use Prim.Native.Char.{code}
use Prim.Native.String.{String}
use Prim.Native.String.append
use mathlib.Core.Bool.{Bool, false, ◌&&◌}
use mathlib.Core.Path.{◌≡◌, refl, ap, ◌∙◌}
use mathlib.Core.Logic.{inl, inr}
use mathlib.Core.Option.{Option, none, some}
use shan_hai_edu_ppt.Base.Tests.{leb, if◌then◌else◌, Bool-cases}
use shan_hai_edu_ppt.Base.Text.{
  after_prefix, append_text, is_empty_text, digit, decimal_within, decimal,
}

abbrev pub is_digit : ℕ → Bool
is_digit c = leb b'0' c && leb c b'9'

-- `Number(s)` of a text of digits after the number `n`; a double is exact up to the safe integers.
unfoldable pub digits_after : ℕ → String → Option ℕ
digits_after n String.[] = some n
digits_after n (String.◌∷◌ c s) =
    let rest = digits_after (n * 10 + (code c - 48)) s in if is_digit (code c) then rest else none

-- `(\d+)$`, read as a number.
unfoldable pub whole_number : String → Option ℕ
whole_number s = if is_empty_text s then none else digits_after 0 s

abbrev and_then : Option ℕ → String → Option ℕ
and_then none t = none
and_then (some n) t = digits_after n t

digits_after-append :
    (n : ℕ) (s t : String) → digits_after n (append_text s t) ≡ and_then (digits_after n s) t
unfolding digits_after append_text
digits_after-append n String.[] t = ap (digits_after n) (λ i. append.nil t i)
digits_after-append n (String.◌∷◌ c s) t =
    ap (digits_after n) (λ i. append.cons c s t i) ∙ (elim (Bool-cases (is_digit (code c))) [
      | inl is_one ↦ rw is_one (digits_after-append (n * 10 + (code c - 48)) s t)
      | inr is_none ↦ rw is_none refl
    ])

digits_after-digit : (n d : ℕ) → d < 10 → digits_after n (digit d) ≡ some (n * 10 + d)
unfolding digits_after
digits_after-digit n zero h = refl
digits_after-digit n (suc zero) h = refl
digits_after-digit n (suc (suc zero)) h = refl
digits_after-digit n (suc (suc (suc zero))) h = refl
digits_after-digit n (suc (suc (suc (suc zero)))) h = refl
digits_after-digit n (suc (suc (suc (suc (suc zero))))) h = refl
digits_after-digit n (suc (suc (suc (suc (suc (suc zero)))))) h = refl
digits_after-digit n (suc (suc (suc (suc (suc (suc (suc zero))))))) h = refl
digits_after-digit n (suc (suc (suc (suc (suc (suc (suc (suc zero)))))))) h = refl
digits_after-digit n (suc (suc (suc (suc (suc (suc (suc (suc (suc d))))))))) h =
    ap some (omega arith)

-- The numbers with at most `f` digits are those below it.
ten_to : ℕ → ℕ
ten_to zero = 1
ten_to (suc f) = 10 * ten_to f

below : (m n : ℕ) → n < m → leb m n ≡ false
below m n h = ground arith

digits_after-decimal :
    (f n : ℕ) → n < ten_to (suc f) → digits_after 0 (decimal_within (suc f) n) ≡ some n
unfolding decimal_within ten_to
digits_after-decimal zero n h =
    rw (below 10 n (omega arith)) (digits_after-digit 0 n (omega arith) ∙ ap some (omega arith))
digits_after-decimal (suc f) n h = elim (Bool-cases (leb 10 n)) [
  | inr one ↦ rw one (digits_after-digit 0 n (ground arith) ∙ ap some (omega arith))
  | inl more ↦ rw more (
      digits_after-append 0 (decimal_within (suc f) (n / 10)) (digit (n % 10))
      ∙ ap (λ o. and_then o (digit (n % 10))) (digits_after-decimal f (n / 10) (omega arith))
      ∙ digits_after-digit (n / 10) (n % 10) (omega arith)
      ∙ ap some (omega arith))
]

whole_number-some :
    (s : String) (n : ℕ) → digits_after 0 s ≡ some (suc n) → whole_number s ≡ some (suc n)
unfolding whole_number digits_after
whole_number-some String.[] n h = absurd (ground arith)
whole_number-some (String.◌∷◌ c s) n h = h

safe_fits : (n : ℕ) → n ≤ 9007199254740991 → n < ten_to 20
unfolding ten_to
safe_fits n h = omega arith

whole_number-zero : whole_number (decimal 0) ≡ some 0
unfolding whole_number decimal digits_after
whole_number-zero = refl

pub whole_number-decimal : (n : ℕ) → n ≤ 9007199254740991 → whole_number (decimal n) ≡ some n
unfolding decimal
whole_number-decimal zero h = whole_number-zero
whole_number-decimal (suc n) h =
    whole_number-some (decimal (suc n)) n (digits_after-decimal 19 (suc n) (safe_fits (suc n) h))

pub after_prefix-append : (p s : String) → after_prefix p (append_text p s) ≡ some s
unfolding after_prefix append_text
after_prefix-append String.[] s = ap some (λ i. append.nil s i)
after_prefix-append (String.◌∷◌ c p) s =
    ap (after_prefix (String.◌∷◌ c p)) (λ i. append.cons c p s i)
    ∙ (ground (arith, after_prefix-append p s))
