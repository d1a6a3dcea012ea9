-- ===== src/Ossie/Validate.antt =====
-- internal/ossie/validate.go: the checks of metrics, policies, views and joins, and `ValidateSpec`.
pub mod Fresh
pub mod Datasets
pub mod Metrics
pub mod Providers
pub mod Policies
pub mod Views
pub mod Valid
mod Tests
use semantic_operator.Prelude.{
  Text, ℕ, suc, Bool, false, not, ◌&&◌, ◌||◌, ◌==◌, leb, List, [], ◌∷◌, ◌++◌, map, Option, none,
  some, codes, if◌then◌else◌, is_nil, length, text_eq, contains, Map, lookup, Result, ok, err, all,
}
use semantic_operator.Errors.{Error}
use semantic_operator.Api.{
  Dataset, Relationship, Metric, RelationshipJoin, RowFilter, RolePolicy, GovernanceSpec, ViewSpec,
  SemanticModelSpec, select, find_field, role,
}
use semantic_operator.Governance.Claims.{Part, validatable_predicate}
use semantic_operator.Expr.{FieldRef}
use semantic_operator.Expr.Bytes.{is_space, drop_while}
use semantic_operator.Expr.Metric.{AggTerm, MetricExpr, denominator_refs, unique, parse}
use semantic_operator.Expr.Predicate.{parse_predicate}
use semantic_operator.Ossie.{
  Problem, model_unnamed, no_connection, no_datasets, metric_unnamed, metric_duplicate,
  metric_no_expression, metric_invalid, metric_dataset, metric_no_primary_key, metric_field,
  provider_ref, role_unnamed, role_duplicate, role_deny_field, role_filter_dataset,
  role_filter_empty, role_filter_template, role_filter_invalid, default_role_unknown, view_unnamed,
  view_duplicate, view_no_metric, view_metric, view_dimension, view_not_dimension, view_role,
  view_field, join_unknown, join_duplicate, join_type, add_if, is_none, mark_named, all_named,
  register_all, datasets_problems, relationships_problems, edges_of, cycle_problems,
  split_field_ref,
}
use semantic_operator.Ossie.Cycles.{find_cycle}

unfoldable pub collect_refs : MetricExpr → List FieldRef
collect_refs m = m.numerator.refs ++ denominator_refs m.denominator

unfoldable pub ratio_datasets : AggTerm → List Text
unfolding unique
ratio_datasets t = unique [] (map (λ (r : FieldRef). r.dataset) t.refs)

unfoldable pub ref_problems : Map Dataset → Text → FieldRef → List Problem
unfolding lookup add_if is_none find_field
ref_problems datasets metric ref = elim (lookup datasets ref.dataset) [
  | none ↦ metric_dataset metric ref.dataset ∷ []
  | some ds ↦
      add_if (not (is_nil ds.fields) && is_none (find_field ref.field ds.fields))
        (metric_field metric ref.field ref.dataset)
]

unfoldable pub refs_problems : Map Dataset → Text → List FieldRef → List Problem
unfolding ref_problems
refs_problems datasets metric [] = []
refs_problems datasets metric (ref ∷ refs) =
    ref_problems datasets metric ref ++ refs_problems datasets metric refs

-- The datasets of the denominator, each with its primary key.
unfoldable pub key_problems : Map Dataset → Text → List Text → List Problem
unfolding lookup add_if
key_problems datasets metric [] = []
key_problems datasets metric (name ∷ names) =
    let rest = key_problems datasets metric names in
    elim (lookup datasets name) [
      | none ↦ rest
      | some d ↦ add_if (is_nil d.primary_key) (metric_no_primary_key metric name) ++ rest
    ]

unfoldable pub denominator_problems : Map Dataset → Text → Option AggTerm → List Problem
unfolding key_problems ratio_datasets
denominator_problems datasets metric none = []
denominator_problems datasets metric (some t) =
    if t.distinct then [] else key_problems datasets metric (ratio_datasets t)

unfoldable pub parsed_problems : Map Dataset → Text → Result Error MetricExpr → List Problem
unfolding refs_problems collect_refs denominator_problems
parsed_problems datasets metric (err e) = metric_invalid metric e ∷ []
parsed_problems datasets metric (ok parsed) =
    refs_problems datasets metric (collect_refs parsed)
    ++ denominator_problems datasets metric parsed.denominator

unfoldable pub body_problems : Map Dataset → Text → Option Text → List Problem
unfolding parsed_problems
body_problems datasets metric none = metric_no_expression metric ∷ []
body_problems datasets metric (some body) = parsed_problems datasets metric (parse body)

unfoldable pub metric_problems : Map Dataset → ℕ → List Text → Metric → List Problem
unfolding add_if contains body_problems select
metric_problems datasets i seen mt =
    if is_nil mt.name
    then metric_unnamed i ∷ []
    else add_if (contains seen mt.name) (metric_duplicate mt.name)
      ++ body_problems datasets mt.name (select mt.expression)

unfoldable pub metrics_problems : Map Dataset → ℕ → List Text → List Metric → List Problem
unfolding metric_problems mark_named
metrics_problems datasets i seen [] = []
metrics_problems datasets i seen (mt ∷ mts) =
    metric_problems datasets i seen mt
    ++ metrics_problems datasets (suc i) (mark_named mt.name seen) mts

unfoldable pub is_label_start : ℕ → Bool
is_label_start c = leb b'a' c && leb c b'z' || leb b'0' c && leb c b'9'

unfoldable pub last_is : ℕ → Text → Bool
last_is b [] = false
last_is b (c ∷ []) = c == b
last_is b (c ∷ d ∷ s) = last_is b (d ∷ s)

-- `validProviderRef`
unfoldable pub valid_provider_ref : Text → Bool
unfolding is_label_start last_is all
valid_provider_ref [] = false
valid_provider_ref (c ∷ s) =
    leb (length (c ∷ s)) 63
    && is_label_start c
    && all (λ b. is_label_start b || b == b'-') s
    && not (last_is b'-' (c ∷ s))

unfoldable pub external_problems : Option Text → List Problem
unfolding add_if valid_provider_ref
external_problems none = []
external_problems (some ref) = add_if (not (valid_provider_ref ref)) (provider_ref ref)

unfoldable pub has_dataset : Map Dataset → Option (Text × Text) → Bool
unfolding lookup is_none
has_dataset datasets none = false
has_dataset datasets (some ref) = not (is_none (lookup datasets ref.0))

unfoldable pub deny_problems : Map Dataset → Text → List Text → List Problem
unfolding add_if has_dataset split_field_ref
deny_problems datasets name [] = []
deny_problems datasets name (df ∷ dfs) =
    add_if (not (has_dataset datasets (split_field_ref df))) (role_deny_field name df)
    ++ deny_problems datasets name dfs

module _ (split_claims : Text → List Part) (datasets : Map Dataset) where
  unfoldable pub predicate_problems : Text → RowFilter → List Problem
  unfolding drop_while validatable_predicate parse_predicate
  predicate_problems name rf =
      if is_nil (drop_while is_space rf.predicate)
      then role_filter_empty name rf.dataset ∷ []
      else elim (validatable_predicate (split_claims rf.predicate)) [
        | err e ↦ role_filter_template name rf.dataset e ∷ []
        | ok checkable ↦ elim (parse_predicate checkable) [
          | err e ↦ role_filter_invalid name rf.dataset e ∷ []
          | ok columns ↦ []
        ]
      ]

  unfoldable pub row_filter_problems : Text → List RowFilter → List Problem
  unfolding add_if lookup is_none predicate_problems
  row_filter_problems name [] = []
  row_filter_problems name (rf ∷ rfs) =
      add_if (is_none (lookup datasets rf.dataset)) (role_filter_dataset name rf.dataset)
      ++ predicate_problems name rf
      ++ row_filter_problems name rfs

  unfoldable pub role_problems : ℕ → List Text → RolePolicy → List Problem
  unfolding add_if contains deny_problems row_filter_problems
  role_problems i seen r =
      if is_nil r.name
      then role_unnamed i ∷ []
      else add_if (contains seen r.name) (role_duplicate r.name)
        ++ deny_problems datasets r.name r.deny_fields
        ++ row_filter_problems r.name r.row_filters

  unfoldable pub roles_problems : ℕ → List Text → List RolePolicy → List Problem
  unfolding role_problems mark_named
  roles_problems i seen [] = []
  roles_problems i seen (r ∷ rs) =
      role_problems i seen r ++ roles_problems (suc i) (mark_named r.name seen) rs

  unfoldable pub governance_problems : Option GovernanceSpec → List Problem
  unfolding external_problems roles_problems add_if contains all_named
  governance_problems none = []
  governance_problems (some g) =
      external_problems g.external
      ++ roles_problems 0 [] g.roles
      ++ add_if
          (not (is_nil g.default_role)
            && not
                (contains (all_named (map (λ (r : RolePolicy). r.name) g.roles) []) g.default_role))
          (default_role_unknown g.default_role)

unfoldable pub view_metrics_problems : List Text → Text → List Text → List Problem
unfolding add_if contains
view_metrics_problems names view [] = []
view_metrics_problems names view (mn ∷ mns) =
    add_if (not (contains names mn)) (view_metric view mn) ++ view_metrics_problems names view mns

unfoldable pub view_field_problems : Map Dataset → Text → Text → Text × Text → List Problem
unfolding lookup find_field add_if is_none
view_field_problems datasets view dim ref = elim (lookup datasets ref.0) [
  | none ↦ view_dimension view dim ∷ []
  | some d ↦ elim (find_field ref.1 d.fields) [
    | none ↦ view_field view ref.1 ref.0 ∷ []
    | some f ↦ add_if (is_none f.dimension) (view_not_dimension view dim)
  ]
]

unfoldable pub view_dimensions_problems : Map Dataset → Text → List Text → List Problem
unfolding split_field_ref view_field_problems
view_dimensions_problems datasets view [] = []
view_dimensions_problems datasets view (dim ∷ dims) =
    elim (split_field_ref dim) [
      | none ↦ view_dimension view dim ∷ []
      | some ref ↦ view_field_problems datasets view dim ref
    ]
    ++ view_dimensions_problems datasets view dims

module _ (datasets : Map Dataset) (metric_names : List Text)
    (governance : Option GovernanceSpec) where
  unfoldable pub view_problems : ℕ → List Text → ViewSpec → List Problem
  unfolding add_if contains view_metrics_problems view_dimensions_problems is_none role
  view_problems i seen v =
      if is_nil v.name
      then view_unnamed i ∷ []
      else add_if (contains seen v.name) (view_duplicate v.name)
        ++ add_if (is_nil v.metrics) (view_no_metric v.name)
        ++ view_metrics_problems metric_names v.name v.metrics
        ++ view_dimensions_problems datasets v.name v.dimensions
        ++ add_if (not (is_nil v.role) && is_none (role governance v.role))
            (view_role v.name v.role)

  unfoldable pub views_problems : ℕ → List Text → List ViewSpec → List Problem
  unfolding view_problems mark_named
  views_problems i seen [] = []
  views_problems i seen (v ∷ vs) =
      view_problems i seen v ++ views_problems (suc i) (mark_named v.name seen) vs

unfoldable pub join_problems : List Text → ℕ → List Text → RelationshipJoin → List Problem
unfolding add_if contains text_eq
join_problems names i seen j =
    add_if (not (contains names j.relationship)) (join_unknown i j.relationship)
    ++ add_if (contains seen j.relationship) (join_duplicate i j.relationship)
    ++ add_if (not (text_eq j.type (codes "INNER")) && not (text_eq j.type (codes "LEFT")))
        (join_type i j.type)

unfoldable pub joins_problems : List Text → ℕ → List Text → List RelationshipJoin → List Problem
unfolding join_problems
joins_problems names i seen [] = []
joins_problems names i seen (j ∷ js) =
    join_problems names i seen j ++ joins_problems names (suc i) (j.relationship ∷ seen) js

module _ (split_claims : Text → List Part) (key_order : List (Text × Text) → List Text)
    (spec : SemanticModelSpec) where
  abbrev pub dataset_index : Map Dataset
  dataset_index = register_all spec.ossie.datasets []

  abbrev pub metric_names : List Text
  metric_names = all_named (map (λ (mt : Metric). mt.name) spec.ossie.metrics) []

  -- `ValidateSpec`: no problem is the result nil.
  unfoldable pub validate_spec : List Problem
  unfolding add_if register_all all_named datasets_problems relationships_problems edges_of
      cycle_problems find_cycle metrics_problems governance_problems views_problems joins_problems
  validate_spec =
      add_if (is_nil spec.ossie.name) model_unnamed
      ++ add_if (is_nil spec.connection.catalog || is_nil spec.connection.database) no_connection
      ++ add_if (is_nil spec.ossie.datasets) no_datasets
      ++ datasets_problems 0 [] spec.ossie.datasets
      ++ relationships_problems dataset_index 0 [] spec.ossie.relationships
      ++ cycle_problems (
          find_cycle (edges_of spec.ossie.relationships)
            (key_order (edges_of spec.ossie.relationships)))
      ++ metrics_problems dataset_index 0 [] spec.ossie.metrics
      ++ governance_problems split_claims dataset_index spec.governance
      ++ views_problems dataset_index metric_names spec.governance 0 [] spec.views
      ++ joins_problems (map (λ (r : Relationship). r.name) spec.ossie.relationships) 0 []
          spec.joins
