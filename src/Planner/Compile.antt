-- ===== src/Planner/Compile.antt =====
-- internal/planner/model.go: `Compile` and `ResolveSource`. `SpecVersion`, a hash of the JSON form,
-- is a parameter.
pub mod Compiled
mod Tests
use semantic_operator.Prelude.{
  Text, ◌==◌, Bool, true, false, List, [], ◌∷◌, ◌++◌, map, Option, none, some, codes, if◌then◌else◌,
  is_nil, Map, lookup, insert, traverse, Result, ok, err, ◌>>=◌, map_err,
}
use semantic_operator.Errors.{Error, bad_source, no_expression}
use semantic_operator.Api.{
  ConnectionSpec, Dimension, Field, Dataset, Relationship, Metric, RelationshipJoin,
  SemanticModelSpec, select,
}
use semantic_operator.Expr.Metric.{parse}
use semantic_operator.Planner.{
  CompiledModel, CompiledDataset, CompiledField, CompiledMetric, CompiledRelationship,
}

-- `strings.Split` at a byte: the first part, and the others.
unfoldable pub split_first : Text → Text × List Text
split_first [] = ([], [])
split_first (c ∷ s) =
    let (first, rest) = split_first s in if c == b'.' then ([], first ∷ rest) else (c ∷ first, rest)

unfoldable pub locate : ConnectionSpec → Text → List Text → Text → Result Error (Text × Text × Text)
locate conn a [] source = ok (conn.catalog, conn.database, a)
locate conn a (b ∷ []) source = ok (conn.catalog, a, b)
locate conn a (b ∷ c ∷ []) source = ok (a, b, c)
locate conn a (b ∷ c ∷ d ∷ more) source = err (bad_source source)

-- `ResolveSource`
unfoldable pub resolve_source : Text → ConnectionSpec → Result Error (Text × Text × Text)
unfolding split_first
resolve_source source conn = locate conn (split_first source).0 (split_first source).1 source

unfoldable pub selected : Text → Option Text → Result Error Text
selected name none = err (no_expression name)
selected name (some body) = ok body

abbrev pub is_dimension : Option Dimension → Bool
is_dimension none = false
is_dimension (some _) = true

abbrev pub is_time : Option Dimension → Bool
is_time none = false
is_time (some d) = d.is_time

unfoldable pub compile_field : Field → Result Error CompiledField
compile_field f = do
  body ← selected f.name (select f.expression)
  ok (record {
    name = f.name;
    expr = body;
    is_dimension = is_dimension f.dimension;
    is_time = is_time f.dimension;
  })

-- A map that a loop fills.
unfoldable pub index_by : {A : Type 0} → (A → Text) → Map A → List A → Map A
index_by key m [] = m
index_by key m (a ∷ rest) = index_by key (insert (key a) a m) rest

unfoldable pub compile_dataset : ConnectionSpec → Dataset → Result Error CompiledDataset
unfolding index_by
compile_dataset conn d = do
  place ← resolve_source d.source conn
  fields ← traverse compile_field d.fields
  ok (record {
    name = d.name;
    catalog = place.0;
    database = place.1;
    table = place.2;
    primary_key = d.primary_key;
    fields = index_by (λ (f : CompiledField). f.name) [] fields;
    field_order = map (λ (f : CompiledField). f.name) fields;
  })

-- The map `joinType`: the last join for a relationship counts.
unfoldable pub join_types : Map Text → List RelationshipJoin → Map Text
join_types m [] = m
join_types m (j ∷ joins) = join_types (insert j.relationship j.type m) joins

unfoldable pub type_or_inner : Option Text → Text
type_or_inner none = codes "INNER"
type_or_inner (some t) = if is_nil t then codes "INNER" else t

unfoldable pub compile_relationship : Map Text → Relationship → CompiledRelationship
unfolding type_or_inner
compile_relationship types r = record {
  name = r.name;
  from = r.from;
  to = r.to;
  from_columns = r.from_columns;
  to_columns = r.to_columns;
  join_type = type_or_inner (lookup types r.name);
}

unfoldable pub compile_metric : Metric → Result Error CompiledMetric
compile_metric m = do
  body ← selected m.name (select m.expression)
  parsed ← parse body
  ok (record { name = m.name; raw = body; expr = parsed })

-- `Compile`
unfoldable pub compile :
    (SemanticModelSpec → Text) → SemanticModelSpec → Text → Text → Result Error CompiledModel
unfolding join_types compile_relationship index_by
compile spec_version spec namespace resource = do
  datasets ← traverse (compile_dataset spec.connection) spec.ossie.datasets
  metrics ← traverse compile_metric spec.ossie.metrics
  ok (record {
    name = spec.ossie.name;
    version = spec_version spec;
    namespace = namespace;
    resource = resource;
    connection = spec.connection;
    datasets = index_by (λ (d : CompiledDataset). d.name) [] datasets;
    dataset_order = map (λ (d : CompiledDataset). d.name) datasets;
    relationships = map (compile_relationship (join_types [] spec.joins)) spec.ossie.relationships;
    metrics = index_by (λ (m : CompiledMetric). m.name) [] metrics;
    metric_order = map (λ (m : CompiledMetric). m.name) metrics;
    governance = spec.governance;
  })
