-- ===== src/Prelude.antt =====
-- The names that the other modules share: the libraries', passed on, and those of the children.
mod Tests
mod Lists
mod Errors
mod Text
pub mod Int
mod Numerals
unfoldable pub use Text.{decimal}
unfoldable pub use Numerals.{int}
pub use Text.{Bytes, codes, length-decimal, decimal_injective, is_digit, all_digits, decimal_digits}
pub use Numerals.{numeral, int-numeral}
pub use Tests.*
pub use Lists.*
pub use Errors.{Result, ok, err, ◌>>=◌, ◌>>◌, Result-cases, first_ok}
pub use Prim.Native.Nat.{ℕ, zero, suc, ◌+◌, ◌-◌, ◌*◌, ◌/◌, ◌%◌, ◌^◌, ◌≤◌, ◌<◌, min, max}
pub use mathlib.Core.Path.{◌≡◌, refl, sym, ap, ◌∙◌, subst}
pub use mathlib.Core.Logic.{◌≢◌, ◌↔◌, ◌⊎◌, inl, inr}
pub use mathlib.Core.Bool.{Bool, true, false, not, ◌&&◌, ◌||◌}
pub use mathlib.Core.Option.{Option, none, some}
pub use mathlib.Core.List.{List, [], ◌∷◌, ◌++◌, map, append-nil, append_assoc, map-append}
pub use native.Mathlib.Omega.{arith}
