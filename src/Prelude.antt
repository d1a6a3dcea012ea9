-- ===== src/Prelude.antt =====
-- The names that the other modules share: the libraries', passed on, and those of the children.
pub mod Tests
pub mod Lists
pub mod Strings
pub mod Sorting
pub mod Splits
pub mod Results
pub mod Maps
pub mod Ensures
pub use Tests.{ltb, leb, ◌==◌, if◌then◌else◌, ltb→lt, lt→ltb, ==_iff}
pub use Tests.{Bool-cases, Option-cases, List-cases}
unfoldable pub use Lists.{all, any, keep}
pub use Lists.{length, get_elem?, is_nil, Elem, All}
unfoldable pub use Strings.{text_eq, contains}
pub use Strings.{Text, codes, text_eq_iff, contains_iff, text_eq_refl}
unfoldable pub use Results.{traverse}
pub use Results.{
  Result, ok, err, ◌>>=◌, ◌>>◌, fail_if, map_err, >>=-eq-ok, >>-eq-ok, fail_if-eq-ok, ok_injective,
  Result-cases,
}
unfoldable pub use Maps.{lookup}
pub use Maps.{Map, insert}
pub use Prim.Native.Nat.{ℕ, zero, suc, ◌+◌, ◌-◌, ◌*◌, ◌/◌, ◌%◌, ◌≤◌, ◌<◌}
pub use mathlib.Core.Path.{◌≡◌, refl, sym, ap, ◌∙◌}
pub use mathlib.Core.Logic.{◌≢◌, ◌↔◌, ◌⊎◌, inl, inr}
pub use mathlib.Core.Bool.{Bool, true, false, not, ◌&&◌, ◌||◌}
pub use mathlib.Core.Option.{Option, none, some}
pub use mathlib.Core.List.{List, [], ◌∷◌, ◌++◌, map, append-nil, append_assoc}
pub use native.Mathlib.Omega.{arith}
