-- ===== src/Base.antt =====
-- The names that the models of all parts share: the libraries', passed on, and those of the children.
mod Tests
mod Lists
mod Count
mod Bytes
mod Ctype
pub use Tests.*
unfoldable pub use Bytes.{every_byte}
pub use Bytes.{every_byte-at}
pub use Lists.*
pub use Count.*
unfoldable pub use Ctype.{
  is_digit, is_upper, is_lower, is_alnum, is_xdigit, to_lower, is_space, str_eq, starts_with,
  case_eq, strtol_hex,
}
pub use Prim.Native.Nat.{ℕ, zero, suc, ◌+◌, ◌-◌, ◌*◌, ◌/◌, ◌%◌, ◌^◌, ◌≤◌, ◌<◌, min}
pub use mathlib.Core.Path.{◌≡◌, refl, sym, ap, ap₂, subst, ◌∙◌}
pub use mathlib.Core.Logic.{◌≢◌, ◌↔◌, ◌⊎◌, inl, inr}
pub use mathlib.Core.Bool.{Bool, true, false, not, ◌&&◌, ◌||◌}
pub use mathlib.Core.Option.{Option, none, some}
pub use mathlib.Core.List.{List, [], ◌∷◌, ◌++◌, map, append-nil, append_assoc}
pub use native.Mathlib.Omega.{arith}
