-- ===== src/Base.antt =====
-- The names that the other modules share: the libraries', passed on, and those of the children.
pub mod Tests
pub mod Int
pub mod Strings
pub use Tests.*
pub use Int.{
  ℤ, pos, negsuc, is_positive, pos_part, neg_part, ltz, neg, add_duration, add_duration-le, second,
  unix, whole_seconds,
}
unfoldable pub use Int.{seconds}
pub mod Replies
pub use Replies.*
pub use Strings.{
  Text, str, length, text_eq_refl, text_eq_sound, text_eq_iff, text_eq_ne, drop_while_idem,
  append_left_cancel, first_byte, ne_of_first_byte,
}
unfoldable pub use Strings.{text_eq, is_empty, has_prefix, drop_prefix, contains, drop_while}
pub use Prim.Native.Nat.{ℕ, zero, suc, ◌+◌, ◌-◌, ◌*◌, ◌/◌, ◌%◌, ◌^◌, ◌≤◌, ◌<◌}
pub use mathlib.Core.Path.{◌≡◌, refl, sym, ap, ◌∙◌, subst}
pub use mathlib.Core.Logic.{◌≢◌, ◌↔◌, ◌⊎◌, inl, inr}
pub use mathlib.Core.Bool.{Bool, true, false, not, ◌&&◌, ◌||◌}
pub use mathlib.Core.Option.{Option, none, some}
pub use mathlib.Core.List.{List, [], ◌∷◌, ◌++◌, map, reverse}
pub use native.Mathlib.Omega.{arith}
unfoldable pub use native.Mathlib.Decide.{dec_lt, ℕ_discrete}
