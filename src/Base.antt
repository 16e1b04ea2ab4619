-- ===== src/Base.antt =====
-- The names that every other module shares: the libraries', passed on, and those of the children
-- (numbers and tests, texts as byte lists, maps keyed by texts).
mod Tests
mod Lists
mod Texts
mod Trim
pub use Trim.{trim_space_twice, trim_of-none, trim_of-ends}
pub mod Dict
pub mod Int
pub use Tests.*
pub use Lists.*
pub use Texts.{Text, codes, text_eq_iff, text_eq_refl, text_eq_ne, is_empty, is_empty_iff, concat}
unfoldable pub use Texts.{
  text_eq, has_prefix, has_suffix, contains, to_upper_byte, to_upper, to_lower, is_space, trim_left,
  trim_space, trim_left_of, trim_of,
}
pub use Prim.Native.Nat.{ℕ, zero, suc, ◌+◌, ◌-◌, ◌*◌, ◌/◌, ◌%◌, ◌^◌, ◌≤◌, ◌<◌}
pub use Prim.Native.String.{String}
pub use mathlib.Core.Path.{◌≡◌, refl, sym, ap, ◌∙◌, subst}
pub use mathlib.Core.Logic.{◌≢◌, ◌↔◌, ◌⊎◌, inl, inr}
pub use mathlib.Core.Bool.{Bool, true, false, not, ◌&&◌, ◌||◌}
pub use mathlib.Core.Option.{Option, none, some}
pub use mathlib.Core.List.{List, [], ◌∷◌, ◌++◌, map, reverse, append-nil, append_assoc}
pub use native.Mathlib.Omega.{arith}
