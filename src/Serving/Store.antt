-- ===== src/Serving/Store.antt =====
-- internal/serving/store.go: the published models by ConfigMap name. A Go map is the list of its
-- entries, in the order that its iteration comes upon them; JSON decoding is a parameter. The lock
-- makes each operation one step, and the informer is the order of the steps.
pub mod Entries
pub mod Exact
mod Tests
use semantic_operator.Prelude.{
  Text, ℕ, Bool, true, false, List, [], ◌∷◌, ◌++◌, map, Option, none, some, if◌then◌else◌, ltb,
  length, text_eq, contains, keep, Map,
}
use semantic_operator.Prelude.Sorting.{sort_by}
use semantic_operator.Planner.{CompiledModel}
use semantic_operator.Expr.Metric.{unique}

pub record Store : Type 0 where
  pub cms : List (Text × CompiledModel)
  pub synced : Bool

abbrev pub new_store : Store
new_store = record { cms = []; synced = false }

abbrev pub mark_synced : Store → Store
mark_synced s = record s { synced = true }

abbrev pub count : Store → ℕ
count s = length s.cms

-- `s.cms[cmName] = &m`
unfoldable pub put_entry :
    Text → CompiledModel → List (Text × CompiledModel) → List (Text × CompiledModel)
put_entry key p [] = (key, p) ∷ []
put_entry key p ((k, q) ∷ rest) =
    let more = put_entry key p rest in if text_eq k key then (k, p) ∷ rest else (k, q) ∷ more

-- `delete(s.cms, cmName)`
unfoldable pub delete_entry : Text → List (Text × CompiledModel) → List (Text × CompiledModel)
delete_entry key [] = []
delete_entry key ((k, q) ∷ rest) =
    let more = delete_entry key rest in if text_eq k key then rest else (k, q) ∷ more

abbrev pub has_name : Text → Text × CompiledModel → Bool
has_name name e = text_eq e.1.name name

-- `byName`
unfoldable pub entries_of : Text → Store → List (Text × CompiledModel)
unfolding keep
entries_of name s = keep (has_name name) s.cms

unfoldable pub published_as : Text → Store → List CompiledModel
unfolding entries_of
published_as name s = map (λ (e : Text × CompiledModel). e.1) (entries_of name s)

abbrev pub only : {A : Type 0} → List A → Option A
only [] = none
only (x ∷ []) = some x
only (x ∷ y ∷ xs) = none

-- `Get`
unfoldable pub get : Text → Store → Option CompiledModel
unfolding published_as
get name s = only (published_as name s)

-- `Ambiguous`
unfoldable pub ambiguous : Text → Store → Bool
unfolding published_as
ambiguous name s = ltb 1 (length (published_as name s))

-- `Names`
unfoldable pub model_names : Store → List Text
unfolding unique
model_names s = sort_by (λ n. n) (unique [] (map (λ (e : Text × CompiledModel). e.1.name) s.cms))

-- `Single`
unfoldable pub single_model : Store → Option CompiledModel
single_model s = only (map (λ (e : Text × CompiledModel). e.1) s.cms)

-- What a handler of the informer is called with: a ConfigMap by its name, with what it holds under
-- `CompiledModelKey`; the tombstone of a deletion that the watch missed, by its key; anything else.
pub data Object : Type 0 where
  config_map : Text → Option Text → Object
  tombstone : Text → Object
  other_object : Object

-- A call of `AddFunc` or `UpdateFunc`, or of `DeleteFunc`.
pub data Event : Type 0 where
  ingested deleted : Object → Event

-- `Put` fails, and changes nothing, where the blob is not a compiled model.
unfoldable pub put_decoded : Text → Option CompiledModel → Store → Store
unfolding put_entry
put_decoded key none s = s
put_decoded key (some p) s = record s { cms = put_entry key p s.cms }

module _ (decode : Text → Option CompiledModel) where
  unfoldable pub put : Text → Text → Store → Store
  unfolding put_decoded
  put key blob s = put_decoded key (decode blob) s

  unfoldable pub delete : Text → Store → Store
  unfolding delete_entry
  delete key s = record s { cms = delete_entry key s.cms }

  -- The handlers take ConfigMaps, and pass over any other object.
  unfoldable pub handle : Event → Store → Store
  unfolding put delete
  handle (ingested (config_map key (some blob))) s = put key blob s
  handle (ingested (config_map key none)) s = s
  handle (ingested (tombstone key)) s = s
  handle (ingested other_object) s = s
  handle (deleted (config_map key data_of)) s = delete key s
  handle (deleted (tombstone key)) s = s
  handle (deleted other_object) s = s

  -- The store after the events, the first event first.
  unfoldable pub handle_all : List Event → Store → Store
  unfolding handle
  handle_all [] s = s
  handle_all (e ∷ es) s = handle_all es (handle e s)
