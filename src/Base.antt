-- ===== src/Base.antt =====
-- What the other modules share: the libraries' names, passed on, and those of the children, which
-- model the standard library's integers, texts and lists as far as the program uses them.
mod Tests
mod Lists
mod Int
mod Strings
mod Split
pub mod Maps
pub mod Decimal
pub mod Utf8
pub mod Unescape
pub mod Rounds
pub use Split.*
pub use Strings.*
unfoldable pub use Strings.{
  bytes_eq, has, split, join, cut, trim_left, trim_suffix, ends_with, to_lower, to_upper,
}
pub use Tests.*
pub use Int.*
unfoldable pub use Lists.{keep, some_of, all_of, find}
pub use Lists.{
  length, take, length-append, length-take, take-le, take-append, take-length, take-take, All,
  All-append, all_of-All, All-map, In, here, there, All-In, In-left, In-right, In-append, In-map,
  map-In,
}
pub use Prim.Native.Nat.{ℕ, zero, suc, ◌+◌, ◌-◌, ◌*◌, ◌/◌, ◌%◌, ◌^◌, ◌≤◌, ◌<◌, min}
pub use mathlib.Core.Path.{◌≡◌, refl, sym, ap, ap₂, subst, ◌∙◌}
pub use mathlib.Core.Logic.{◌≢◌, ◌↔◌, ◌⊎◌, inl, inr}
pub use mathlib.Core.Bool.{Bool, true, false, ◌&&◌, ◌||◌}
pub use mathlib.Core.Option.{Option, none, some}
pub use mathlib.Core.List.{List, [], ◌∷◌, ◌++◌, map, append-nil, append_assoc}
pub use native.Mathlib.Omega.{arith}
