-- ===== src/Ossie/Validate/Valid.antt =====
-- `ValidateSpec` as a whole, and what it gives to `Compile`.
use semantic_operator.Prelude.{
  Text, false, is_nil, List, [], ◌∷◌, map, traverse, Result, ok, ◌≡◌, inl, inr, refl, All,
}
use semantic_operator.Prelude.Sorting.{HasDistinctKeys}
use semantic_operator.Errors.{Error}
use semantic_operator.Api.{
  Dataset, Field, Relationship, Metric, RelationshipJoin, ViewSpec, SemanticModelSpec,
  ConnectionSpec,
}
use semantic_operator.Governance.Claims.{Part}
use semantic_operator.Planner.{CompiledModel, CompiledDataset, CompiledField, CompiledMetric}
use semantic_operator.Planner.Compile.{
  compile, compile_field, compile_dataset, compile_metric, resolve_source, selected,
}
use semantic_operator.Ossie.{
  Problem, model_unnamed, no_datasets, add_if, edges_of, register_all, all_named, cycle_problems,
  datasets_problems, relationships_problems,
}
use semantic_operator.Ossie.Cycles.{find_cycle}
use semantic_operator.Ossie.Cycles.Walks.{Reaches}
use semantic_operator.Ossie.Cycles.Acyclic.{IsKeyOrder, find_cycle_exact}
use semantic_operator.Ossie.Validate.{
  validate_spec, metrics_problems, governance_problems, views_problems, joins_problems,
}
use semantic_operator.Ossie.Validate.Fresh.{
  append-eq-nil, add_if-eq-nil, both_false, IsFresh-HasDistinctKeys,
}
use semantic_operator.Ossie.Validate.Datasets.{
  IsValidField, IsValidDataset, IsValidRelationship, datasets-IsValid, lookup-IsNamed,
  relationships_valid,
}
use semantic_operator.Ossie.Validate.Metrics.{IsValidMetric, metrics_valid}
use semantic_operator.Ossie.Validate.Policies.{IsValidGovernance, governance_valid}
use semantic_operator.Ossie.Validate.Views.{IsValidView, IsValidJoin, views_valid, joins_valid}

-- What a model that passes validation is.
pub record IsValid (split_claims : Text → List Part) (spec : SemanticModelSpec) : Type 0 where
  pub named : is_nil spec.ossie.name ≡ false
  pub catalog : is_nil spec.connection.catalog ≡ false
  pub database : is_nil spec.connection.database ≡ false
  pub some_dataset : is_nil spec.ossie.datasets ≡ false
  pub datasets : All IsValidDataset spec.ossie.datasets
  pub dataset_names : HasDistinctKeys (λ (d : Dataset). d.name) spec.ossie.datasets
  pub relationships : All (IsValidRelationship spec.ossie.datasets) spec.ossie.relationships
  pub relationship_names : HasDistinctKeys (λ (r : Relationship). r.name) spec.ossie.relationships
  pub acyclic :
      (n : Text)
      → Reaches (map (λ (r : Relationship). (r.from, r.to)) spec.ossie.relationships) n n
      → ⊥
  pub metrics : All (IsValidMetric spec.ossie.datasets) spec.ossie.metrics
  pub metric_names : HasDistinctKeys (λ (mt : Metric). mt.name) spec.ossie.metrics
  pub governance : IsValidGovernance split_claims spec.ossie.datasets spec.governance
  pub views :
      All
        (IsValidView spec.ossie.datasets
          (map (λ (mt : Metric). mt.name) spec.ossie.metrics)
          spec.governance)
        spec.views
  pub view_names : HasDistinctKeys (λ (v : ViewSpec). v.name) spec.views
  pub joins :
      All (IsValidJoin (map (λ (r : Relationship). r.name) spec.ossie.relationships)) spec.joins
  pub join_names : HasDistinctKeys (λ (j : RelationshipJoin). j.relationship) spec.joins

cycles_valid :
    (edges : List (Text × Text)) (order : List Text)
    → IsKeyOrder edges order
    → cycle_problems (find_cycle edges order) ≡ []
    → (n : Text) → Reaches edges n n
    → ⊥
unfolding cycle_problems
cycles_valid edges order k h = elim (find_cycle_exact edges order k) [
  | inl (c, e, _) ↦ absurd (not_nil c (rw (e, cycle_problems) at h))
  | inr (s, e, acyclic) ↦ acyclic
]
  where
    not_nil : (c : List Text) → ◌≡◌ {A = List Problem} (Problem.relationship_cycle c ∷ []) [] → ⊥
    not_nil c e = cc

pub validate_spec-IsValid :
    (split_claims : Text → List Part) (key_order : List (Text × Text) → List Text)
    (spec : SemanticModelSpec)
    → ((edges : List (Text × Text)) → IsKeyOrder edges (key_order edges))
    → validate_spec split_claims key_order spec ≡ []
    → IsValid split_claims spec
unfolding validate_spec
validate_spec-IsValid split_claims key_order spec any_order h =
    let o = spec.ossie in
    let m = register_all o.datasets [] in
    let (p9, joins) =
      append-eq-nil _
        (joins_problems (map (λ (r : Relationship). r.name) o.relationships) 0 [] spec.joins) h in
    let (p8, views) =
      append-eq-nil _
        (views_problems m (all_named (map (λ (mt : Metric). mt.name) o.metrics) []) spec.governance
          0 [] spec.views)
        p9 in
    let (p7, governance) =
      append-eq-nil _ (governance_problems split_claims m spec.governance) p8 in
    let (p6, metrics) = append-eq-nil _ (metrics_problems m 0 [] o.metrics) p7 in
    let (p5, cycles) = append-eq-nil _ (cycle_problems _) p6 in
    let (p4, relationships) = append-eq-nil _ (relationships_problems m 0 [] o.relationships) p5 in
    let (p3, datasets) = append-eq-nil _ (datasets_problems 0 [] o.datasets) p4 in
    let (p2, some_dataset) = append-eq-nil _ (add_if _ no_datasets) p3 in
    let (name, connection) = append-eq-nil (add_if _ model_unnamed) _ p2 in
    let (catalog, database) = both_false _ _ (add_if-eq-nil _ _ connection) in
    let known = lookup-IsNamed o.datasets in
    let ds = datasets-IsValid o.datasets datasets in
    let rs = relationships_valid o.datasets m known 0 [] o.relationships relationships in
    let ms = metrics_valid o.datasets m known 0 [] o.metrics metrics in
    let vs =
      views_valid o.datasets m known (map (λ (mt : Metric). mt.name) o.metrics) spec.governance 0 []
        spec.views views in
    let js =
      joins_valid (map (λ (r : Relationship). r.name) o.relationships) 0 [] spec.joins joins in
    record {
      named = add_if-eq-nil _ _ name;
      catalog = catalog;
      database = database;
      some_dataset = add_if-eq-nil _ _ some_dataset;
      datasets = ds.0;
      dataset_names = ds.1;
      relationships = rs.0;
      relationship_names =
          IsFresh-HasDistinctKeys (λ (r : Relationship). r.name) [] o.relationships rs.1;
      acyclic =
          cycles_valid (edges_of o.relationships) (key_order (edges_of o.relationships))
            (any_order _) cycles;
      metrics = ms.0;
      metric_names = IsFresh-HasDistinctKeys (λ (mt : Metric). mt.name) [] o.metrics ms.1;
      governance = governance_valid split_claims o.datasets m known spec.governance governance;
      views = vs.0;
      view_names = IsFresh-HasDistinctKeys (λ (v : ViewSpec). v.name) [] spec.views vs.1;
      joins = js.0;
      join_names =
          IsFresh-HasDistinctKeys (λ (j : RelationshipJoin). j.relationship) [] spec.joins js.1;
    }

traverse-ok :
    {A B : Type 0} (f : A → Result Error B) (P : A → Type 0)
    → ((a : A) → P a → (b : B) × (f a ≡ ok b))
    → (xs : List A) → All P xs
    → (ys : List B) × (traverse f xs ≡ ok ys)
unfolding traverse
traverse-ok f P h [] all = ([], refl)
traverse-ok f P h (x ∷ xs) (p, all) =
    let (y, e) = h x p in
    let (ys, q) = traverse-ok f P h xs all in (y ∷ ys, rw (e, traverse) (rw q refl))

compile_field-ok : (f : Field) → IsValidField f → (c : CompiledField) × (compile_field f ≡ ok c)
unfolding compile_field selected
compile_field-ok f (named, (body, e)) = rw (e, compile_field) (_, refl)

-- The source of a dataset has one, two or three parts.
abbrev pub HasPlace : ConnectionSpec → Dataset → Type 0
HasPlace conn d = (place : Text × Text × Text) × (resolve_source d.source conn ≡ ok place)

compile_dataset-ok :
    (conn : ConnectionSpec) (d : Dataset)
    → IsValidDataset d × HasPlace conn d
    → (c : CompiledDataset) × (compile_dataset conn d ≡ ok c)
unfolding compile_dataset
compile_dataset-ok conn d (valid, (place, e)) =
    let (fields, q) = traverse-ok compile_field IsValidField compile_field-ok d.fields valid.2 in
    rw (e, compile_dataset) (rw q (_, refl))

compile_metric-ok :
    (ds : List Dataset) (mt : Metric)
    → IsValidMetric ds mt
    → (c : CompiledMetric) × (compile_metric mt ≡ ok c)
unfolding compile_metric selected
compile_metric-ok ds mt (named, (body, parsed, e, q, refs, denominator)) =
    rw (e, compile_metric) (rw q (_, refl))

both : (P Q : Dataset → Type 0) (ds : List Dataset) → All P ds → All Q ds → All (λ d. P d × Q d) ds
both P Q [] p q = tt
both P Q (d ∷ ds) (p, ps) (q, qs) = ((p, q), both P Q ds ps qs)

-- A model that passes validation compiles, if the source of each dataset has a place.
pub validate_spec-compile :
    (split_claims : Text → List Part) (key_order : List (Text × Text) → List Text)
    (spec_version : SemanticModelSpec → Text) (spec : SemanticModelSpec) (namespace resource : Text)
    → ((edges : List (Text × Text)) → IsKeyOrder edges (key_order edges))
    → validate_spec split_claims key_order spec ≡ []
    → All (HasPlace spec.connection) spec.ossie.datasets
    → (cm : CompiledModel) × (compile spec_version spec namespace resource ≡ ok cm)
unfolding compile
validate_spec-compile split_claims key_order spec_version spec namespace resource any_order h
      places =
    let valid = validate_spec-IsValid split_claims key_order spec any_order h in
    let (ds, e) =
      traverse-ok (compile_dataset spec.connection)
        (λ d. IsValidDataset d × HasPlace spec.connection d) (compile_dataset-ok spec.connection)
        spec.ossie.datasets
        (both IsValidDataset (HasPlace spec.connection) spec.ossie.datasets valid.datasets
          places) in
    let (ms, q) =
      traverse-ok compile_metric (IsValidMetric spec.ossie.datasets)
        (compile_metric-ok spec.ossie.datasets) spec.ossie.metrics valid.metrics in
    rw (e, compile) (rw q (_, refl))
