-- ===== src/Recovery/Patterns.antt =====
-- The regular expressions of src/core/technical-recovery.ts, as searches in a text's characters.
use Prim.Native.Char.{code}
use shan_hai_edu_ppt.Base.{
  ℕ, ◌-◌, ◌≡◌, refl, Bool, true, false, ◌&&◌, ◌||◌, Option, none, some, List, [], ◌∷◌, ◌++◌, map,
  String, ◌==◌, leb, any, if◌then◌else◌, arith,
}

abbrev pub codes : String → List ℕ
codes String.[] = []
codes (String.◌∷◌ c s) = code c ∷ codes s

-- `toUpperCase` on the letters of ASCII, which are the letters of every pattern below.
abbrev pub upper_code : ℕ → ℕ
upper_code c = if leb b'a' c && leb c b'z' then c - 32 else c

unfoldable pub to_upper_case : String → List ℕ
to_upper_case s = map upper_code (codes s)

unfoldable pub is_codes : List ℕ → List ℕ → Bool
is_codes [] [] = true
is_codes (x ∷ xs) (y ∷ ys) = x == y && is_codes xs ys
is_codes _ _ = false

-- What follows the word `p` at the start, if it stands there.
abbrev pub after_word : List ℕ → List ℕ → Option (List ℕ)
after_word [] s = some s
after_word (x ∷ p) [] = none
after_word (x ∷ p) (c ∷ s) = let rest = after_word p s in if x == c then rest else none

abbrev pub starts_with : List ℕ → List ℕ → Bool
starts_with [] s = true
starts_with (x ∷ p) [] = false
starts_with (x ∷ p) (c ∷ s) = x == c && starts_with p s

-- `/p/`.
unfoldable pub contains : List ℕ → List ℕ → Bool
contains p [] = starts_with p []
contains p (c ∷ s) = starts_with p (c ∷ s) || contains p s

-- `(_|$)` after the word.
abbrev ends_there : Option (List ℕ) → Bool
ends_there none = false
ends_there (some []) = true
ends_there (some (c ∷ s)) = c == b'_'

-- `/(^|_)(p)(_|$)/`, at a place where a word may begin or may not.
unfoldable pub has_word_from : Bool → List ℕ → List ℕ → Bool
has_word_from begins p [] = begins && ends_there (after_word p [])
has_word_from begins p (c ∷ s) =
    (begins && ends_there (after_word p (c ∷ s))) || has_word_from (c == b'_') p s

abbrev pub has_word : List ℕ → List ℕ → Bool
has_word = has_word_from true

abbrev is_digit : ℕ → Bool
is_digit c = leb b'0' c && leb c b'9'

-- `/5\d\d/`.
unfoldable pub has_server_status : List ℕ → Bool
has_server_status [] = false
has_server_status (a ∷ []) = false
has_server_status (a ∷ b ∷ []) = false
has_server_status (a ∷ b ∷ c ∷ s) =
    (a == b'5' && is_digit b && is_digit c) || has_server_status (b ∷ c ∷ s)

-- An alternation of words: the whole text, words between bars, or anywhere in the text.
abbrev pub is_one_of : List String → List ℕ → Bool
is_one_of ps s = any (λ p. is_codes (codes p) s) ps

abbrev pub has_word_of : List String → List ℕ → Bool
has_word_of ps s = any (λ p. has_word (codes p) s) ps

abbrev pub contains_one_of : List String → List ℕ → Bool
contains_one_of ps s = any (λ p. contains (codes p) s) ps

starts_with-append : (p s : List ℕ) → starts_with p (p ++ s) ≡ true
starts_with-append [] s = refl
starts_with-append (x ∷ p) s = ground (arith, starts_with-append p s)

-- A text that has the word somewhere contains it.
pub contains_lem : (a p b : List ℕ) → contains p (a ++ (p ++ b)) ≡ true
unfolding contains
contains_lem [] [] [] = refl
contains_lem [] [] (c ∷ b) = refl
contains_lem [] (x ∷ p) b = ground (arith, starts_with-append (x ∷ p) b)
contains_lem (c ∷ a) p b = ground (arith, contains_lem a p b)
