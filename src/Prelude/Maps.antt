-- ===== src/Prelude/Maps.antt =====
-- A Go map with string keys: the entries, the latest first.
use mathlib.Core.List.{List, [], ◌∷◌}
use mathlib.Core.Option.{Option, none, some}
use semantic_operator.Prelude.Tests.{if◌then◌else◌}
use semantic_operator.Prelude.Strings.{Text, text_eq}

abbrev pub Map : Type 0 → Type 0
Map A = List (Text × A)

module _ {A : Type 0} where
  unfoldable pub lookup : Map A → Text → Option A
  lookup [] key = none
  lookup ((k, a) ∷ m) key = let rest = lookup m key in if text_eq k key then some a else rest

  abbrev pub insert : Text → A → Map A → Map A
  insert key a m = (key, a) ∷ m
