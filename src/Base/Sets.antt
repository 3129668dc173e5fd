-- ===== src/Base/Sets.antt =====
-- Sets of texts, in the order in which `Set` keeps them.
use Prim.Native.Nat.{ℕ, zero, suc}
use Prim.Native.String.{String}
use mathlib.Core.Path.{◌≡◌, refl}
use mathlib.Core.Logic.{inl, inr}
use mathlib.Core.Bool.{Bool, false, not, ◌&&◌, ◌||◌}
use mathlib.Core.List.{List, [], ◌∷◌, ◌++◌}
use native.Mathlib.Omega.{arith}
use shan_hai_edu_ppt.Base.Tests.{if◌then◌else◌, Bool-cases}
use shan_hai_edu_ppt.Base.Lists.{any, keep, take}
use shan_hai_edu_ppt.Base.Text.{is_text, is_text_iff, is_text_self}

-- `Set.has` and `Array.includes`.
abbrev pub has_text : String → List String → Bool
has_text s = any (is_text s)

-- `[...new Set(xs)]`, without the elements of `seen`.
unfoldable pub distinct : List String → List String → List String
distinct seen [] = []
distinct seen (x ∷ xs) =
    let without = distinct seen xs in
    let rest = distinct (x ∷ seen) xs in if has_text x seen then without else x ∷ rest

-- No element twice: `new Set(xs).size === xs.length`.
abbrev pub IsUnique : List String → Type 0
IsUnique [] = Unit
IsUnique (x ∷ xs) = (has_text x xs ≡ false) × IsUnique xs

pub has_text-distinct :
    (k : String) (seen xs : List String)
    → has_text k (distinct seen xs) ≡ (has_text k xs && not (has_text k seen))
unfolding distinct
has_text-distinct k seen [] = refl
has_text-distinct k seen (x ∷ xs) =
    ground (arith, is_text_iff k x, has_text-distinct k seen xs, has_text-distinct k (x ∷ seen) xs)

pub distinct-IsUnique : (seen xs : List String) → IsUnique (distinct seen xs)
unfolding distinct
distinct-IsUnique seen [] = tt
distinct-IsUnique seen (x ∷ xs) = elim (Bool-cases (has_text x seen)) [
  | inl old ↦ rw old (distinct-IsUnique seen xs)
  | inr new ↦ rw new (
    ground (arith, has_text-distinct x (x ∷ seen) xs, is_text_self x),
    distinct-IsUnique (x ∷ seen) xs,
  )
]

pub has_text-keep_not :
    (p : String → Bool) (k : String) (xs : List String)
    → has_text k xs ≡ false
    → has_text k (keep p xs) ≡ false
has_text-keep_not p k [] h = refl
has_text-keep_not p k (x ∷ xs) h = ground (arith, has_text-keep_not p k xs)

pub keep-IsUnique : (p : String → Bool) (xs : List String) → IsUnique xs → IsUnique (keep p xs)
keep-IsUnique p [] u = tt
keep-IsUnique p (x ∷ xs) (h, u) = elim (Bool-cases (p x)) [
  | inl kept ↦ rw kept (has_text-keep_not p x xs h, keep-IsUnique p xs u)
  | inr dropped ↦ rw dropped (keep-IsUnique p xs u)
]

pub has_text-take_not :
    (n : ℕ) (k : String) (xs : List String) → has_text k xs ≡ false → has_text k (take n xs) ≡ false
has_text-take_not zero k xs h = refl
has_text-take_not (suc n) k [] h = refl
has_text-take_not (suc n) k (x ∷ xs) h = ground (arith, has_text-take_not n k xs)

pub take-IsUnique : (n : ℕ) (xs : List String) → IsUnique xs → IsUnique (take n xs)
take-IsUnique zero xs u = tt
take-IsUnique (suc n) [] u = tt
take-IsUnique (suc n) (x ∷ xs) (h, u) = (has_text-take_not n x xs h, take-IsUnique n xs u)

is_text_sym : (s t : String) → is_text s t ≡ is_text t s
is_text_sym s t = ground (arith, is_text_iff s t, is_text_iff t s)

pub has_text-append :
    (k : String) (xs ys : List String) → has_text k (xs ++ ys) ≡ (has_text k xs || has_text k ys)
has_text-append k [] ys = refl
has_text-append k (x ∷ xs) ys = ground (arith, has_text-append k xs ys)

pub IsUnique-snoc :
    (xs : List String) (k : String) → IsUnique xs → has_text k xs ≡ false → IsUnique (xs ++ k ∷ [])
IsUnique-snoc [] k u h = (refl, tt)
IsUnique-snoc (x ∷ xs) k (n, u) h = (
  ground (arith, has_text-append x xs (k ∷ []), is_text_sym k x),
  IsUnique-snoc xs k u (ground arith),
)
