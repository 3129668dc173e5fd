-- ===== src/Base.antt =====
-- Names that the other modules share: the libraries', passed on, and those of the children.
mod Tests
mod Lists
mod Results
mod Text
mod Sets
pub mod Int
pub use Tests.*
pub use Lists.*
pub use Sets.{
  has_text, IsUnique, has_text-distinct, distinct-IsUnique, keep-IsUnique, has_text-take_not,
  take-IsUnique, IsUnique-snoc, has_text-append,
}
unfoldable pub use Sets.{distinct}
pub use Results.*
unfoldable pub use Text.{
  is_text, is_blank, text_length, is_hex, after_prefix, append_text, decimal, take_text, trim,
  take_units,
}
pub use Text.{
  is_text_iff, is_text_self, is_some_text, is_empty_text, text_length-take_units-le,
  take_units_some,
}
pub use Text.Decimal.{whole_number-decimal, after_prefix-append}
unfoldable pub use Text.Decimal.{digits_after, whole_number}
pub use Prim.Native.Nat.{ℕ, zero, suc, ◌+◌, ◌-◌, ◌*◌, ◌/◌, ◌%◌, ◌^◌, ◌≤◌, ◌<◌, min, max}
pub use Prim.Native.String.{String}
pub use mathlib.Core.Path.{◌≡◌, refl, sym, ap, subst, ◌∙◌}
pub use mathlib.Core.Logic.{◌≢◌, ◌↔◌, ◌⊎◌, inl, inr}
pub use mathlib.Core.Bool.{Bool, true, false, not, ◌&&◌, ◌||◌}
pub use mathlib.Core.Option.{Option, none, some}
pub use mathlib.Core.List.{List, [], ◌∷◌, ◌++◌, map}
pub use native.Mathlib.Omega.{arith}
