-- ===== src/Planner/Joins.antt =====
-- internal/planner/plan_sql.go: `reach` and `joinTree`, which choose the joins of a query. A set of
-- datasets is a list. An edge is discovered at most once for each `To`, so the map `parent` is the
-- list `discovery` read by `To`, and the set `needed` of edges is the set of their `To`.
pub mod Tree
pub mod Searching
pub mod Climbing
pub mod Exhaustive
pub mod Correct
mod Tests
use semantic_operator.Prelude.{
  Text, ℕ, zero, suc, true, false, not, ◌||◌, List, [], ◌∷◌, ◌++◌, Option, none, some, keep, length,
  if◌then◌else◌, text_eq, contains, Result, ok, err,
}
use semantic_operator.Errors.{Error, empty_requirement, no_join_path}
use semantic_operator.Planner.{CompiledRelationship, CompiledModel}

pub record Search : Type 0 where
  pub visited : List Text
  pub discovery : List CompiledRelationship
  pub queue : List Text

-- One relationship of the inner loop.
unfoldable pub visit : Text → Search → CompiledRelationship → Search
visit cur s rel = if not (text_eq rel.from cur) || contains s.visited rel.to then s else record {
  visited = s.visited ++ rel.to ∷ [];
  discovery = s.discovery ++ rel ∷ [];
  queue = s.queue ++ rel.to ∷ [];
}

unfoldable pub visit_all : Text → Search → List CompiledRelationship → Search
visit_all cur s [] = s
visit_all cur s (rel ∷ rels) = visit_all cur (visit cur s rel) rels

-- The loop on the queue. Every round takes one dataset off, and puts only datasets on that no round
-- has seen, so one more round than there are relationships is enough.
unfoldable pub search : List CompiledRelationship → ℕ → Search → Search
search rels zero s = s
search rels (suc fuel) s = elim s.queue [
  | [] ↦ s
  | cur ∷ rest ↦ search rels fuel (visit_all cur (record s { queue = rest }) rels)
]

abbrev pub start : Text → Search
start root = record { visited = root ∷ []; discovery = []; queue = root ∷ [] }

abbrev pub search_from : List CompiledRelationship → Text → Search
search_from rels root = search rels (suc (length rels)) (start root)

-- `parent[ds]`
unfoldable pub parent : List CompiledRelationship → Text → Option CompiledRelationship
parent [] ds = none
parent (rel ∷ rels) ds = let rest = parent rels ds in if text_eq rel.to ds then some rel else rest

-- The loop from a dataset up to the root: the datasets whose edges it marks. A missing parent,
-- which would be a nil dereference, ends it.
unfoldable pub climb : List CompiledRelationship → Text → ℕ → Text → List Text
climb tree root zero cur = []
climb tree root (suc fuel) cur = elim (text_eq cur root) [
  | true ↦ []
  | false ↦ elim (parent tree cur) [ none ↦ [] | some rel ↦ cur ∷ climb tree root fuel rel.from ]
]

-- The loop on the required datasets.
unfoldable pub needed : Search → Text → List Text → Option (List Text)
needed s root [] = some []
needed s root (ds ∷ required) =
    let rest = needed s root required in
    if not (contains s.visited ds) then none else elim rest [
      | none ↦ none
      | some more ↦ some (climb s.discovery root (length s.discovery) ds ++ more)
    ]

unfoldable pub pruned : Search → List Text → List CompiledRelationship
pruned s marked = keep (λ rel. contains marked rel.to) s.discovery

-- `reach`
unfoldable pub reach :
    List CompiledRelationship → Text → List Text → Option (List CompiledRelationship)
reach rels root required = elim (needed (search_from rels root) root required) [
  | none ↦ none
  | some marked ↦ some (pruned (search_from rels root) marked)
]

-- The loop on the candidate roots.
unfoldable pub first_root :
    List CompiledRelationship → List Text → List Text → Option (Text × List CompiledRelationship)
first_root rels required [] = none
first_root rels required (root ∷ roots) =
    let rest = first_root rels required roots in
    elim (reach rels root required) [ none ↦ rest | some joins ↦ some (root, joins) ]

abbrev pub candidates : CompiledModel → List Text → List Text
candidates cm required = keep (contains required) cm.dataset_order ++ cm.dataset_order

-- `joinTree`
unfoldable pub join_tree :
    CompiledModel → List Text → Result Error (Text × List CompiledRelationship)
join_tree cm [] = err empty_requirement
join_tree cm (ds ∷ required) =
    elim (first_root cm.relationships (ds ∷ required) (candidates cm (ds ∷ required))) [
      | none ↦ err (no_join_path (keep (contains (ds ∷ required)) cm.dataset_order))
      | some found ↦ ok found
    ]
