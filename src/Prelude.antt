-- ===== src/Prelude.antt =====
-- The names that the other modules share: those of the libraries, passed on, and those of the
-- children below.
mod Tests
mod Lists
mod Members
mod Text
mod Results
mod Utf8
mod Split
mod Decimal
mod Numbers
pub use Tests.*
pub use Lists.*
pub use Members.*
pub use Text.*
pub use Results.*
unfoldable pub use Split.{split, is_whitespace, trim_start, trim}
unfoldable pub use Decimal.{digits, to_string}
unfoldable pub use Numbers.{parse_number, parse_u32}
pub use Numbers.{parse_number-to_string, parse_u32-to_string}
pub use Decimal.{to_string-IsDigit, to_string_injective, to_string-ne-nil}
pub use Split.{IsFree, IsFirst, split-free, split-append, split-append_any, split-inversion}
unfoldable pub use Utf8.{from_utf8, chars, encode, collect}
pub use Utf8.{IsAscii, chars_of_ascii, from_utf8_of_ascii}
pub use Prim.Native.Nat.{ℕ, zero, suc, ◌+◌, ◌-◌, ◌*◌, ◌/◌, ◌%◌, ◌^◌, ◌≤◌, ◌<◌}
pub use mathlib.Core.Path.{◌≡◌, refl, sym, ap, ap₂, ◌∙◌, fun_ext, subst}
pub use mathlib.Core.Logic.{◌≢◌, ◌↔◌, ◌⊎◌, inl, inr}
pub use mathlib.Core.Bool.{Bool, true, false, not, ◌&&◌, ◌||◌}
pub use mathlib.Core.Option.{Option, none, some}
pub use mathlib.Core.List.{List, [], ◌∷◌, ◌++◌, map, append_assoc, append-nil}
pub use native.Mathlib.Omega.{arith}
