-- ===== src/Base.antt =====
-- The names that the other modules share: the libraries' and those of the children.
pub mod Tests
pub mod Int
pub mod Text
pub mod Table
pub mod Order
pub mod Dict
pub use Tests.*
pub use Int.{
  ℤ, pos, negsuc, pos_part, neg_part, ◌≤ℤ◌, ltb_ℤ, leb_ℤ, +ℤ_parts, -ℤ_parts, eq_of_parts, int_laws,
}
unfoldable pub use Int.{◌+ℤ◌, ◌-ℤ◌}
pub use Text.{str_eq, is_text, length_text}
unfoldable pub use Text.{upper, lower}
pub use Prim.Native.Nat.{ℕ, zero, suc, ◌+◌, ◌-◌, ◌*◌, ◌/◌, ◌%◌, ◌^◌, ◌≤◌, ◌<◌}
pub use Prim.Native.String.{String, ◌++◌ as ◌<>◌}
pub use mathlib.Core.Path.{◌≡◌, refl, sym, ap, ◌∙◌}
pub use mathlib.Core.Logic.{◌≢◌, ◌↔◌, ◌⊎◌, inl, inr}
pub use mathlib.Core.Bool.{Bool, true, false, ◌&&◌, ◌||◌, not}
pub use mathlib.Core.Option.{Option, none, some}
pub use mathlib.Core.List.{List, [], ◌∷◌, ◌++◌}
pub use native.Mathlib.Omega.{arith}
pub use text.Mathlib.TextEquality.{eq_iff}
pub use Table.*
pub use Order.*
