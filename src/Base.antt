-- ===== src/Base.antt =====
-- The names that the other modules share: the libraries', passed on, and those of the children.
mod Text
mod Tests
mod Map
mod Lists
mod Trim
mod Int
mod Time
pub use Prim.Native.Nat.{ℕ, zero, suc, ◌+◌, ◌-◌, ◌*◌, ◌/◌, ◌%◌, ◌^◌, ◌≤◌, ◌<◌, min, max}
pub use Prim.Native.String.{String}
pub use mathlib.Core.Bool.{Bool, true, false, not, ◌&&◌, ◌||◌}
pub use mathlib.Core.List.{List, [], ◌∷◌, ◌++◌, map}
pub use mathlib.Core.Logic.{◌≢◌, ◌↔◌, ◌⊎◌, inl, inr, ite}
pub use mathlib.Core.Option.{Option, none, some}
pub use mathlib.Core.Path.{◌≡◌, refl, sym, ap, ◌∙◌, subst}
pub use native.Mathlib.Omega.{arith}
pub use Tests.*
pub use Trim.{is_empty_text}
pub use Text.{◌==◌, holds, differ}
pub use Int.{ℤ, pos, negsuc, pos_part, neg_part, sub_ℕ, ◌≤ℤ◌, leb_ℤ, eqb_ℤ}
pub use Time.{Instant, nanos_per_sec, nanos_per_milli, plus_seconds, plus_millis, seconds_late}
pub use Map.{
  values, lookup-insert, lookup-remove, lookup-insert_self, lookup-insert_ne, lookup-remove_self,
  Distinct, lookup_of_All, Distinct-All, insert-Distinct, remove-Distinct,
}
pub use Lists.{
  length, is_empty, take, drop, filter, any, find, All, length-take-le, length-insert_by,
  All-filter, All-take, All-insert_by, All-sort_by, any-sort_by, take_all,
}
unfoldable pub use Lists.{insert_by, sort_by}
unfoldable pub use Trim.{is_empty_text}
unfoldable pub use Text.{text_discrete}
unfoldable pub use Map.{lookup, insert, remove}
unfoldable pub use Int.{◌+ℤ◌}
unfoldable pub use Time.{num_milliseconds}
unfoldable pub use Trim.{trim, is_whitespace}
