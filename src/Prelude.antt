-- ===== src/Prelude.antt =====
-- The names that the other modules share: the libraries', passed on, and those of the children.
pub mod Tests
pub mod Lists
pub mod Int
pub mod Int64
pub mod Go
pub mod Decimal
pub mod Assoc
pub use Prim.Native.Nat.{ℕ, zero, suc, ◌+◌, ◌-◌, ◌*◌, ◌/◌, ◌%◌, ◌^◌, ◌≤◌, ◌<◌}
pub use Prim.Native.String.{String}
pub use mathlib.Core.Path.{◌≡◌, refl, sym, ap, ap₂, ◌∙◌, subst}
pub use mathlib.Core.Logic.{◌≢◌, ◌↔◌, ◌⊎◌, inl, inr}
pub use mathlib.Core.Bool.{Bool, true, false, not, ◌&&◌, ◌||◌}
pub use mathlib.Core.Option.{Option, none, some, some-injective}
pub use mathlib.Core.List.{List, [], ◌∷◌, ◌++◌, map, map-append, append-nil, append_assoc}
pub use native.Mathlib.Omega.{arith}
unfoldable pub use native.Mathlib.Decide.{dec_lt, ℕ_discrete}
pub use Tests.*
pub use Lists.*
unfoldable pub use Int.*
unfoldable pub use Int64.*
pub use Go.*
unfoldable pub use Decimal.{
  codes, atoi, itoa, is_numeral, AreNumerals, big_from_string, big_string, parse_int64,
}
pub use Decimal.{
  big_from_string-big_string, parse_int64-big_string, atoi-itoa, itoa-AreNumerals, itoa-ne-nil,
}
unfoldable pub use Assoc.{lookup, insert, contains}
pub use Assoc.{Eq, nat_eq, string_eq, lookup-insert}
