-- ===== src/Serving/Store/Tests.antt =====
-- Runs of the store, and instances of its theorems.
use semantic_operator.Prelude.{
  Text, [], ◌∷◌, List, codes, Option, none, some, lookup, keep, text_eq, ◌≡◌, ◌↔◌, refl, true,
}
use semantic_operator.Planner.{CompiledModel}
use semantic_operator.Serving.Store.{
  Event, ingested, deleted, config_map, tombstone, handle_all, new_store, get, ambiguous,
}
use semantic_operator.Serving.Store.Exact.{history, IsOnly, handle_all_refines, get_exact}

abbrev shop : Text → CompiledModel
shop name = record {
  name = name;
  version = [];
  namespace = codes "ns";
  resource = codes "cr";
  connection = record { catalog = []; database = []; view_database = [] };
  datasets = [];
  dataset_order = [];
  relationships = [];
  metrics = [];
  metric_order = [];
  governance = none;
}

-- A blob is the name of its model, and the empty blob is no model.
abbrev decode : Text → Option CompiledModel
decode [] = none
decode (b ∷ s) = some (shop (b ∷ s))

abbrev a : Text
a = codes "a"

abbrev b : Text
b = codes "b"

abbrev blob_of : Text → Text → Event
blob_of key blob = ingested (config_map key (some blob))

-- A second resource publishes the same name, and is deleted again; a ConfigMap without a blob and a
-- deletion that the watch missed change nothing.
abbrev events : List Event
events =
    blob_of a (codes "m")
    ∷ blob_of b (codes "m")
    ∷ blob_of a []
    ∷ ingested (config_map a none)
    ∷ deleted (config_map b none)
    ∷ deleted (tombstone a)
    ∷ []

after_all : get (codes "m") (handle_all decode events new_store) ≡ some (shop (codes "m"))
unfolding handle_all get text_eq keep
after_all = refl

while_two :
    get
      (codes "m")
      (handle_all decode (blob_of a (codes "m") ∷ blob_of b (codes "m") ∷ []) new_store)
    ≡ none
unfolding handle_all get text_eq keep
while_two = refl

while_two_ambiguous :
    ambiguous
      (codes "m")
      (handle_all decode (blob_of a (codes "m") ∷ blob_of b (codes "m") ∷ []) new_store)
    ≡ true
unfolding handle_all ambiguous text_eq keep
while_two_ambiguous = refl

-- The store goes on serving a model whose deletion reaches it as a tombstone.
still_served :
    get
      (codes "m")
      (handle_all decode (blob_of a (codes "m") ∷ deleted (tombstone a) ∷ []) new_store)
    ≡ some (shop (codes "m"))
unfolding handle_all get text_eq keep
still_served = refl

handle_all_refines_example :
    lookup (handle_all decode events new_store).cms b ≡ history decode events (λ _. none) b
handle_all_refines_example = handle_all_refines decode events b

get_exact_example :
    (get (codes "m") (handle_all decode events new_store) ≡ some (shop (codes "m")))
    ↔ IsOnly decode (history decode events (λ _. none)) (codes "m") (shop (codes "m"))
get_exact_example = get_exact decode events (codes "m") (shop (codes "m"))
