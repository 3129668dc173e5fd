-- ===== src/Base/Int.antt =====
-- Integers over the native numbers, and the JavaScript numbers that the code tests.
use Prim.Native.Nat.{ℕ, ◌+◌, ◌-◌}
use mathlib.Core.Bool.{Bool, true, false, ◌&&◌}
use shan_hai_edu_ppt.Base.Tests.{ltb, leb, if◌then◌else◌}

-- `negsuc n` is -(n + 1).
pub data ℤ : Type 0 where
  pos : ℕ → ℤ
  negsuc : ℕ → ℤ

-- a - b, as an integer.
abbrev pub sub_ℕ : ℕ → ℕ → ℤ
sub_ℕ a b = if leb b a then pos (a - b) else negsuc (b - a - 1)

-- A number that a caller hands in: an integer, or a fraction, an infinity or NaN.
pub data Number : Type 0 where
  int : ℤ → Number
  not_int : Number

-- 2 ^ 53 - 1
abbrev pub max_safe_integer : ℕ
max_safe_integer = 9007199254740991

-- `Number.isSafeInteger(n) && n > 0`, with the value.
abbrev pub is_positive_safe : Number → Bool
is_positive_safe (int (pos n)) = ltb 0 n && leb n max_safe_integer
is_positive_safe (int (negsuc n)) = false
is_positive_safe not_int = false

-- The amount of a positive number; nothing reads it at the others.
abbrev pub amount : Number → ℕ
amount (int (pos n)) = n
amount (int (negsuc n)) = 0
amount not_int = 0

-- `n > z` and `z - n` for a natural n.
abbrev pub is_below : ℤ → ℕ → Bool
is_below (pos m) n = ltb m n
is_below (negsuc m) n = true

abbrev pub minus : ℤ → ℕ → ℤ
minus (pos m) n = sub_ℕ m n
minus (negsuc m) n = negsuc (m + n)
