-- ===== src/Prelude.antt =====
-- The names that the other modules share: the libraries', passed on, and those of the children.
mod Tests
mod Int
mod Dicts
mod Texts
pub use Tests.*
pub use Int.{
  ℤ, pos, negsuc, pos_part, neg_part, sub_ℕ, ◌≤ℤ◌, ◌<ℤ◌, leb_ℤ, ltb_ℤ, eqb_ℤ, +ℤ_parts, -ℤ_parts,
  eq_of_parts, parts_eq, int_laws, leb_ℤ→≤ℤ, eqb_ℤ→eq,
}
unfoldable pub use Int.{◌+ℤ◌, ◌-ℤ◌}
pub use Dicts.{Dict, or_else, lookup-insert, lookup-insert_self}
unfoldable pub use Dicts.{lookup, insert}
pub use Texts.{Text, text, eq_text→eq, eq_text_refl, is_empty, is_blank}
unfoldable pub use Texts.{eq_text, is_text, is_space, drop_space, strip, upper_char, upper}
pub use Prim.Native.Nat.{ℕ, zero, suc, ◌+◌, ◌-◌, ◌*◌, ◌/◌, ◌%◌, ◌≤◌, ◌<◌}
pub use mathlib.Core.Path.{◌≡◌, refl, sym, ap, ◌∙◌, subst}
pub use mathlib.Core.Logic.{◌≢◌, ◌⊎◌, inl, inr}
pub use mathlib.Core.Bool.{Bool, true, false, ◌&&◌, ◌||◌, not}
pub use mathlib.Core.Option.{Option, none, some}
pub use mathlib.Core.List.{List, [], ◌∷◌, ◌++◌, map}
pub use native.Mathlib.Omega.{arith}
