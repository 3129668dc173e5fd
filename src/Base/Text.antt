-- ===== src/Base/Text.antt =====
-- Texts: equality as a Boolean test, and the blank texts that `trim` empties.
pub mod Decimal
use Prim.Native.Nat.{ℕ, zero, suc, ◌+◌, ◌-◌, ◌/◌, ◌%◌, ◌≤◌, ◌<◌}
use native.Mathlib.Omega.{arith}
use Prim.Native.Char.{code}
use Prim.Native.String.{String, ◌++◌}
use mathlib.Core.Bool.{Bool, true, false, ◌&&◌, ◌||◌}
use mathlib.Core.Path.{◌≡◌}
use mathlib.Core.Logic.{◌↔◌, inl, inr}
use mathlib.Core.Option.{Option, none, some}
use text.Mathlib.Text.{◌==◌ as text_eq}
use text.Mathlib.TextEquality.{eq_iff}
use text.Mathlib.TextPositions.{eq_refl}
use shan_hai_edu_ppt.Base.Tests.{leb, ◌==◌, if◌then◌else◌, Bool-cases}

-- `===` on texts. It is shut: proofs go by `is_text_iff`.
unfoldable pub is_text : String → String → Bool
is_text s t = text_eq s t

pub is_text_iff : (s t : String) → (is_text s t ≡ true) ↔ (s ≡ t)
unfolding is_text
is_text_iff s t = eq_iff s t

pub is_text_self : (s : String) → is_text s s ≡ true
unfolding is_text
is_text_self s = eq_refl s

-- `===` of a field that may be null with a text.
abbrev pub is_some_text : Option String → String → Bool
is_some_text none t = false
is_some_text (some s) t = is_text s t

-- The white space of ECMAScript: WhiteSpace and LineTerminator.
abbrev pub is_space : ℕ → Bool
is_space c =
    (leb 9 c && leb c 13)
    || c == 32
    || c == 160
    || c == 5760
    || (leb 8192 c && leb c 8202)
    || c == 8232
    || c == 8233
    || c == 8239
    || c == 8287
    || c == 12288
    || c == 65279

-- `!s.trim()`.
unfoldable pub is_blank : String → Bool
is_blank String.[] = true
is_blank (String.◌∷◌ c s) = is_space (code c) && is_blank s

-- `s.length`, which counts UTF-16 units.
unfoldable pub text_length : String → ℕ
text_length String.[] = 0
text_length (String.◌∷◌ c s) = (if leb 65536 (code c) then 2 else 1) + text_length s

abbrev is_hex_digit : ℕ → Bool
is_hex_digit c = (leb b'0' c && leb c b'9') || (leb b'a' c && leb c b'f')

-- `/^[a-f0-9]{n}$/.test(s)`.
unfoldable pub is_hex : ℕ → String → Bool
is_hex zero String.[] = true
is_hex zero (String.◌∷◌ c s) = false
is_hex (suc n) String.[] = false
is_hex (suc n) (String.◌∷◌ c s) = is_hex_digit (code c) && is_hex n s

-- What follows a prefix, if the text has it.
unfoldable pub after_prefix : String → String → Option String
after_prefix String.[] s = some s
after_prefix (String.◌∷◌ a p) String.[] = none
after_prefix (String.◌∷◌ a p) (String.◌∷◌ c s) =
    let rest = after_prefix p s in if code a == code c then rest else none

-- Joined texts, as in a template.
unfoldable pub append_text : String → String → String
append_text s t = s ++ t

abbrev pub digit : ℕ → String
digit zero = "0"
digit (suc zero) = "1"
digit (suc (suc zero)) = "2"
digit (suc (suc (suc zero))) = "3"
digit (suc (suc (suc (suc zero)))) = "4"
digit (suc (suc (suc (suc (suc zero))))) = "5"
digit (suc (suc (suc (suc (suc (suc zero)))))) = "6"
digit (suc (suc (suc (suc (suc (suc (suc zero))))))) = "7"
digit (suc (suc (suc (suc (suc (suc (suc (suc zero)))))))) = "8"
digit _ = "9"

-- The digits of a number with at most `fuel` digits.
pub decimal_within : ℕ → ℕ → String
decimal_within zero n = ""
decimal_within (suc fuel) n =
    let rest = decimal_within fuel (n / 10) in
    if leb 10 n then append_text rest (digit (n % 10)) else digit n

-- A number in a template: a safe integer has at most 16 digits.
unfoldable pub decimal : ℕ → String
unfolding decimal_within append_text
decimal n = decimal_within 20 n

-- `s.slice(0, n)`, for texts of ASCII characters.
unfoldable pub take_text : ℕ → String → String
take_text zero s = ""
take_text (suc n) String.[] = ""
take_text (suc n) (String.◌∷◌ c s) = String.◌∷◌ c (take_text n s)

-- `!s`.
abbrev pub is_empty_text : String → Bool
is_empty_text String.[] = true
is_empty_text (String.◌∷◌ c s) = false

trim_start : String → String
trim_start String.[] = ""
trim_start (String.◌∷◌ c s) =
    let rest = trim_start s in if is_space (code c) then rest else String.◌∷◌ c s

trim_end : String → String
trim_end String.[] = ""
trim_end (String.◌∷◌ c s) =
    let rest = trim_end s in
    if is_space (code c) && is_empty_text rest then "" else String.◌∷◌ c rest

unfoldable pub trim : String → String
unfolding trim_start trim_end
trim s = trim_start (trim_end s)

-- `s.slice(0, n)`. A character of two units of which only the first would stay is left out.
unfoldable pub take_units : ℕ → String → String
take_units n String.[] = ""
take_units n (String.◌∷◌ c s) =
    let width = if leb 65536 (code c) then 2 else 1 in
    let rest = take_units (n - width) s in if leb width n then String.◌∷◌ c rest else ""

pub text_length-take_units-le : (n : ℕ) (s : String) → text_length (take_units n s) ≤ n
unfolding text_length take_units
text_length-take_units-le n String.[] = omega arith
text_length-take_units-le n (String.◌∷◌ c s) = elim (Bool-cases (leb 65536 (code c))) [
  | inl wide ↦ rw wide (elim (Bool-cases (leb 2 n)) [
    | inl fits ↦ rw (fits, wide) (ground (arith, fits, text_length-take_units-le (n - 2) s))
    | inr full ↦ rw full (omega arith)
  ])
  | inr narrow ↦ rw narrow (elim (Bool-cases (leb 1 n)) [
    | inl fits ↦ rw (fits, narrow) (ground (arith, fits, text_length-take_units-le (n - 1) s))
    | inr full ↦ rw full (omega arith)
  ])
]

pub take_units_some :
    (n : ℕ) (s : String) → 2 ≤ n → is_empty_text s ≡ false → 0 < text_length (take_units n s)
unfolding text_length take_units
take_units_some n String.[] le h = cc
take_units_some n (String.◌∷◌ c s) le h = ground arith
