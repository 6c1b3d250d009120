-- ===== src/Common.antt =====
-- The names that the modules of this library share: those of the libraries, passed on, and the
-- tests, lists and dictionaries of the children.
mod Tests
mod Lists
mod Equality
mod Dict
pub use Tests.*
pub use Lists.*
unfoldable pub use Lists.{all, select}
pub use Equality.{Eq, eqb, nat_eq, string_eq, pair_beq, pair_beq_iff, pair_eq}
unfoldable pub use Dict.{any_known, contains, discard, lookup, insert, erase}
pub use Dict.{
  contains-append, contains-discard, lookup-insert, lookup-erase, eqb_refl, All-insert, All-erase,
  All-lookup, All-absent, contains-select, Has→contains, contains→Has, all_known,
  all_known-contains, all_known_of_Has, find_unknown, find_known, any_known-false,
}
pub use Prim.Native.Nat.{ℕ, zero, suc, ◌+◌, ◌-◌, ◌*◌, ◌/◌, ◌%◌, ◌≤◌, ◌<◌, min, max}
pub use Prim.Native.String.{String}
pub use text.Mathlib.TextEquality.{eq_iff}
pub use mathlib.Core.Path.{◌≡◌, refl, sym, ap, subst, ◌∙◌}
pub use mathlib.Core.Logic.{◌≢◌, ◌↔◌, ◌⊎◌, inl, inr}
pub use mathlib.Core.Bool.{Bool, true, false, true≢false, not, ◌&&◌, ◌||◌}
pub use mathlib.Core.Option.{Option, none, some}
pub use mathlib.Core.List.{List, [], ◌∷◌, ◌++◌, map, map-append}
pub use native.Mathlib.Omega.{arith}
