-- ===== src/RateLimiter/Windows.antt =====
-- The map of windows: src/http/principal-rate-limiter.ts.
use shan_hai_edu_ppt.Base.{
  ℕ, ◌+◌, ◌≤◌, ◌<◌, ◌≡◌, refl, sym, subst, ◌↔◌, inl, inr, Bool, true, false, not, none, some, List,
  [], ◌∷◌, arith, is_text_iff, length, keep, All, if◌then◌else◌, Bool-cases, length-keep-le,
}
use shan_hai_edu_ppt.RateLimiter.{Key, is_key, Window, find, delete, put, is_live, live_entries}

pub is_key_iff : (j k : Key) → (is_key j k ≡ true) ↔ (j ≡ k)
unfolding is_key
is_key_iff j k =
    ground (
      arith,
      is_text_iff j.tenant_id k.tenant_id,
      is_text_iff j.external_user_id k.external_user_id,
    )

abbrev pub Entries : Type 0
Entries = List (Key × Window)

pub find-put :
    (j k : Key) (w : Window) (es : Entries)
    → find j (put k w es) ≡ (if is_key k j then some w else find j es)
unfolding find put
find-put j k w [] = refl
find-put j k w ((i, v) ∷ es) =
    ground (arith, is_key_iff i k, is_key_iff k j, is_key_iff i j, find-put j k w es)

pub find-delete :
    (j k : Key) (es : Entries) → find j (delete k es) ≡ (if is_key k j then none else find j es)
unfolding find delete
find-delete j k [] = ground arith
find-delete j k ((i, v) ∷ es) =
    ground (arith, is_key_iff i k, is_key_iff k j, is_key_iff i j, find-delete j k es)

-- No key stands twice.
abbrev pub IsMap : Entries → Type 0
IsMap [] = Unit
IsMap ((k, w) ∷ es) = (find k es ≡ none) × IsMap es

pub find-keep-none :
    (p : Key × Window → Bool) (k : Key) (es : Entries)
    → find k es ≡ none
    → find k (keep p es) ≡ none
unfolding find
find-keep-none p k [] h = refl
find-keep-none p k ((j, w) ∷ es) h = elim (Bool-cases (is_key j k)) [
  | inl same ↦ absurd (ground arith)
  | inr other ↦ ground (arith, find-keep-none p k es (ground arith))
]

pub keep-IsMap : (p : Key × Window → Bool) (es : Entries) → IsMap es → IsMap (keep p es)
keep-IsMap p [] m = tt
keep-IsMap p ((k, w) ∷ es) m = elim (Bool-cases (p (k, w))) [
  | inl stays ↦ rw stays (find-keep-none p k es m.0, keep-IsMap p es m.1)
  | inr goes ↦ rw goes (keep-IsMap p es m.1)
]

-- Sweeping removes no window that runs.
pub find-live_entries :
    (now : ℕ) (k : Key) (es : Entries) {w : Window}
    → find k es ≡ some w
    → is_live now w ≡ true
    → find k (live_entries now es) ≡ some w
unfolding find live_entries
find-live_entries now k [] h live = cc
find-live_entries now k ((j, v) ∷ es) {w} h live = elim (Bool-cases (is_key j k)) [
  | inl same ↦ ground arith
  | inr other ↦ ground (arith, find-live_entries now k es {w = w} (ground arith) live)
]

pub put-IsMap : (k : Key) (w : Window) (es : Entries) → IsMap es → IsMap (put k w es)
unfolding put find
put-IsMap k w [] m = (refl, tt)
put-IsMap k w ((j, v) ∷ es) m = elim (Bool-cases (is_key j k)) [
  | inl same ↦ rw same m
  | inr other ↦
      rw other (
        ground (arith, find-put j k w es, is_key_iff j k, is_key_iff k j, m.0),
        put-IsMap k w es m.1,
      )
]

pub live_entries-IsMap : (now : ℕ) (es : Entries) → IsMap es → IsMap (live_entries now es)
unfolding live_entries
live_entries-IsMap now es = keep-IsMap (λ e. is_live now e.1) es

pub delete-IsMap : (k : Key) (es : Entries) → IsMap es → IsMap (delete k es)
unfolding delete
delete-IsMap k es = keep-IsMap (λ e. not (is_key e.0 k)) es

-- A window that has run out is swept away.
pub find-live_entries_dead :
    (now : ℕ) (k : Key) (es : Entries) {w : Window}
    → IsMap es
    → find k es ≡ some w
    → is_live now w ≡ false
    → find k (live_entries now es) ≡ none
unfolding find live_entries
find-live_entries_dead now k [] m h dead = refl
find-live_entries_dead now k ((j, v) ∷ es) {w} m h dead = elim (Bool-cases (is_key j k)) [
  | inl same ↦
      let e = (is_key_iff j k).0 same in
      let gone = find-keep-none (λ e. is_live now e.1) k es (rw (sym e) m.0) in ground arith
  | inr other ↦ ground (arith, find-live_entries_dead now k es {w = w} m.1 (ground arith) dead)
]

-- Sweeping adds no window.
pub find-live_entries_new :
    (now : ℕ) (k : Key) (es : Entries) → find k es ≡ none → find k (live_entries now es) ≡ none
unfolding live_entries
find-live_entries_new now k es = find-keep-none (λ e. is_live now e.1) k es

pub length-put-le : (k : Key) (w : Window) (es : Entries) → length (put k w es) ≤ length es + 1
unfolding put
length-put-le k w [] = omega arith
length-put-le k w ((j, v) ∷ es) = ground (arith, length-put-le k w es)

pub length-put_of_some :
    (k : Key) (w : Window) (es : Entries) {v : Window}
    → find k es ≡ some v
    → length (put k w es) ≡ length es
unfolding put find
length-put_of_some k w [] h = cc
length-put_of_some k w ((j, u) ∷ es) {v} h = elim (Bool-cases (is_key j k)) [
  | inl same ↦ ground arith
  | inr other ↦ ground (arith, length-put_of_some k w es {v = v} (ground arith))
]

-- Deleting a key that is there makes room.
pub length-delete-lt :
    (k : Key) (es : Entries) {v : Window} → find k es ≡ some v → length (delete k es) < length es
unfolding delete find
length-delete-lt k [] h = cc
length-delete-lt k ((j, u) ∷ es) {v} h = elim (Bool-cases (is_key j k)) [
  | inl same ↦ ground (arith, length-keep-le (λ e. not (is_key e.0 k)) es)
  | inr other ↦ ground (arith, length-delete-lt k es {v = v} (ground arith))
]

module _ {ℓ} (P : Key × Window → Type ℓ) where
  pub All-keep : (p : Key × Window → Bool) (es : Entries) → All P es → All P (keep p es)
  All-keep p [] a = tt
  All-keep p (e ∷ es) a = elim (Bool-cases (p e)) [
    | inl stays ↦ rw stays (a.0, All-keep p es a.1)
    | inr goes ↦ rw goes (All-keep p es a.1)
  ]

  pub All-find : (k : Key) (es : Entries) {w : Window} → All P es → find k es ≡ some w → P (k, w)
  unfolding find
  All-find k [] a h = cc
  All-find k ((j, v) ∷ es) {w} a h = elim (Bool-cases (is_key j k)) [
    | inl same ↦
        let same_window : v ≡ w = ground arith in
        subst (λ u. P (k, u)) same_window (subst (λ i. P (i, v)) ((is_key_iff j k).0 same) a.0)
    | inr other ↦ All-find k es a.1 (rw (other, find) at h)
  ]
