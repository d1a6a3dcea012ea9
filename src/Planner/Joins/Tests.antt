-- ===== src/Planner/Joins/Tests.antt =====
-- Runs of the join planner on a model of orders, customers, regions and stores, and instances of
-- its theorems.
use semantic_operator.Prelude.{
  Text, List, [], ◌∷◌, codes, none, ◌≡◌, refl, ok, err, Elem, keep, contains, text_eq,
}
use semantic_operator.Errors.{no_join_path}
use semantic_operator.Planner.{CompiledModel, CompiledRelationship}
use semantic_operator.Planner.Joins.{
  join_tree, first_root, reach, pruned, needed, climb, parent, search, visit_all, visit,
}
use semantic_operator.Planner.Joins.Climbing.{Leads}
use semantic_operator.Planner.Joins.Correct.{Joins, join_tree-Joins, join_tree_none}

abbrev edge : Text → Text → CompiledRelationship
edge from to = record {
  name = from;
  from = from;
  to = to;
  from_columns = codes "id" ∷ [];
  to_columns = codes "id" ∷ [];
  join_type = codes "INNER";
}

abbrev orders : Text
orders = codes "o"

abbrev customers : Text
customers = codes "c"

abbrev regions : Text
regions = codes "r"

abbrev stores : Text
stores = codes "s"

abbrev model : CompiledModel
model = record {
  name = codes "shop";
  version = codes "1";
  namespace = codes "ns";
  resource = codes "cr";
  connection = record { catalog = []; database = []; view_database = [] };
  datasets = [];
  dataset_order = regions ∷ customers ∷ orders ∷ stores ∷ [];
  relationships = edge orders stores ∷ edge orders customers ∷ edge customers regions ∷ [];
  metrics = [];
  metric_order = [];
  governance = none;
}

abbrev region_and_order : List Text
region_and_order = regions ∷ orders ∷ []

joins_run :
    join_tree model region_and_order
    ≡ ok (orders, edge orders customers ∷ edge customers regions ∷ [])
unfolding join_tree first_root reach pruned needed climb parent search visit_all visit keep contains
    text_eq
joins_run = refl

store_and_region_run :
    join_tree (record model { relationships = edge orders stores ∷ [] }) (stores ∷ regions ∷ [])
    ≡ err (no_join_path (regions ∷ stores ∷ []))
unfolding join_tree first_root reach pruned needed climb parent search visit_all visit keep contains
    text_eq
store_and_region_run = refl

join_tree-Joins_example :
    Elem orders model.dataset_order
    × Joins model.relationships region_and_order orders
        (edge orders customers ∷ edge customers regions ∷ [])
join_tree-Joins_example =
    join_tree-Joins model region_and_order orders
      (edge orders customers ∷ edge customers regions ∷ []) joins_run

join_tree_none_example :
    (no_join_path (regions ∷ stores ∷ [])
      ≡ no_join_path (keep (contains (stores ∷ regions ∷ [])) model.dataset_order))
    × ((root : Text)
        → Elem root model.dataset_order
        → (goal : Text) × Elem goal (stores ∷ regions ∷ [])
          × (Leads (edge orders stores ∷ []) root goal → ⊥))
join_tree_none_example =
    join_tree_none (record model { relationships = edge orders stores ∷ [] }) stores (regions ∷ [])
      (no_join_path (regions ∷ stores ∷ [])) store_and_region_run
