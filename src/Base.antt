-- ===== src/Base.antt =====
-- The names that the other modules share: the libraries' names passed on, and those of the children.
mod Tests
mod Lists
pub mod Loops
pub mod Fallible
pub mod Order
mod Decimal
mod Strings
mod Utf8
pub use Tests.*
pub use Lists.*
pub use Strings.*
pub use Utf8.*
pub use Decimal.*
unfoldable pub use Utf8.{is_utf8}
unfoldable pub use Strings.{encode_utf8, encode_utf16}
unfoldable pub use Decimal.{digits, decimal, pad_left, pad_right, parse_digits, parse_unsigned}
unfoldable pub use Loops.{for}
pub use Loops.{
  Returns, returns, Returns-bind, Returns-map, Returns-some, Returns-refl, Returns-eq, for-Returns,
}
pub use Prim.Native.Nat.{ℕ, zero, suc, ◌+◌, ◌-◌, ◌*◌, ◌/◌, ◌%◌, ◌^◌, ◌≤◌, ◌<◌, max, min}
pub use mathlib.Core.Path.{◌≡◌, refl, sym, ap, ap₂, subst, fun_ext, ◌∙◌, ◌≡⟨◌⟩◌, ◌∎}
pub use mathlib.Core.Logic.{◌≢◌, ◌↔◌, ◌⊎◌, inl, inr}
pub use mathlib.Core.Bool.{Bool, true, false, not, ◌&&◌, ◌||◌}
pub use mathlib.Core.Option.{Option, none, some}
pub use mathlib.Core.List.{
  List, [], ◌∷◌, ◌++◌, map, reverse, append-nil, append_assoc, reverse-append, map-append,
}
pub use native.Mathlib.Omega.{arith}
