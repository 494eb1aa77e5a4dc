-- ===== src/Common.antt =====
-- The names that the other modules share: the libraries', passed on, and those of the children.
mod Tests
mod Lists
pub mod Int
mod Text
mod Sorting
pub use Tests.*
pub use Lists.*
pub use Sorting.*
unfoldable pub use Lists.{sort_by, insert_by}
unfoldable pub use Text.{
  str_eq, str_ltb, str_contains, starts_with, strip_prefix, strip_suffix, split_once, find, rfind,
  split, to_lower, lower, trim_start, trim, trim_end_slashes, from_utf8_lossy, parse_u64, decimal,
}
pub use Text.{Str, codes, str_eq_iff, str_eq_refl, str_eq_comm}
pub use Prim.Native.Nat.{ℕ, zero, suc, ◌+◌, ◌-◌, ◌*◌, ◌/◌, ◌%◌, ◌^◌, ◌≤◌, ◌<◌, min, max}
pub use mathlib.Core.Path.{◌≡◌, refl, sym, ap, ◌∙◌, subst, fun_ext}
pub use mathlib.Core.Logic.{◌≢◌, ◌↔◌, ◌⊎◌, inl, inr}
pub use mathlib.Core.Bool.{Bool, true, false, not, ◌&&◌, ◌||◌}
pub use mathlib.Core.Option.{Option, none, some}
pub use mathlib.Core.List.{List, [], ◌∷◌, ◌++◌, map, foldl, reverse, append_assoc, append-nil}
pub use native.Mathlib.Omega.{arith}
