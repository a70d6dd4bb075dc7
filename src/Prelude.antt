-- ===== src/Prelude.antt =====
-- Names, tests and lemmas that the modules of the development share.
mod Tests
mod Rows
mod First
mod Text
mod Int
mod Keys
mod Ids
mod Split
mod Decimal
mod Fresh
pub use Tests.*
pub use Rows.*
pub use First.*
unfoldable pub use Text.{trim, to_lower}
pub use Text.{
  trim_left, trim_right, is_empty, trim-trim, is_plain, trim-is_plain, to_lower-is_plain,
  append-is_plain,
}
pub use Int.*
pub use Keys.*
pub use Ids.{Uuid}
unfoldable pub use Split.{split}
pub use Split.{cut, contains_char, same_char}
unfoldable pub use Decimal.{decimal, atoi}
pub use Decimal.{decimal-is_plain}
pub use Fresh.{longest, longest-Others}
pub use Prim.Native.Nat.{ℕ, zero, suc, ◌+◌, ◌-◌, ◌*◌, ◌/◌, ◌%◌, ◌^◌, ◌≤◌, ◌<◌}
pub use Prim.Native.String.{String, ◌++◌ as str_append}
pub use mathlib.Core.Path.{◌≡◌, refl, sym, ap, ◌∙◌, subst}
pub use mathlib.Core.Logic.{◌≢◌, ◌↔◌, ◌⊎◌, inl, inr}
pub use mathlib.Core.Bool.{Bool, true, false, not, ◌&&◌, ◌||◌}
pub use mathlib.Core.Option.{Option, none, some}
pub use mathlib.Core.List.{List, [], ◌∷◌, ◌++◌, map}
pub use native.Mathlib.Omega.{arith}
pub use text.Mathlib.Text.{◌==◌ as str_eq}
pub use text.Mathlib.TextEquality.{eq_iff}
pub use text.Mathlib.TextPositions.{eq_refl}
