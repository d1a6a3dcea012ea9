-- ===== src/Planner/Request.antt =====
-- internal/planner/plan.go: the request, and how its names are resolved against the model. A
-- negative limit is one of 0, since the planner treats them alike.
pub mod OrderBy
pub mod MetricFilters
use semantic_operator.Prelude.{
  Text, ℕ, zero, suc, ◌+◌, ◌==◌, ltb, Bool, true, false, not, ◌&&◌, ◌||◌, List, [], ◌∷◌, ◌++◌, map,
  any, Option, none, some, codes, if◌then◌else◌, is_nil, length, text_eq, contains, Map, lookup,
  insert, traverse, Result, ok, err, ◌>>=◌, ◌>>◌, fail_if, map_err,
}
use semantic_operator.Prelude.Strings.{split_at_byte}
use semantic_operator.Errors.{
  Error, not_qualified, unknown_dataset, unknown_field, unknown_metric, not_requested, needs_value,
  rejects_values, rejects_value, needs_two_values, bad_operator, not_finite, null_value,
  unsupported_value, not_dimension, bad_grain, no_time_dimension, not_ordered, ambiguous_order,
  repeated_order, bad_direction,
}
use semantic_operator.Emitter.{Value, null, other, string, bool, int, float32, float64, time}
use semantic_operator.Expr.{FieldRef}
use semantic_operator.Planner.{CompiledModel, CompiledDataset, CompiledField, CompiledMetric}

pub record Filter : Type 0 where
  pub field : Text
  pub op : Text
  pub value : Value
  pub values : List Value

-- `values` is `none` for the nil slice; the flags are `valueSet` and `valuesSet`.
pub record MetricFilter : Type 0 where
  pub metric : Text
  pub op : Text
  pub value : Value
  pub values : Option (List Value)
  pub value_set : Bool
  pub values_set : Bool

pub record OrderByClause : Type 0 where
  pub field : Text
  pub direction : Text

pub record Request : Type 0 where
  pub model : Text
  pub metrics : List Text
  pub dimensions : List Text
  pub filters : List Filter
  pub metric_filters : List MetricFilter
  pub time_grain : Text
  pub order_by : List OrderByClause
  pub limit : ℕ

pub record DimSpec : Type 0 where
  pub ref : FieldRef
  pub field : CompiledField
  pub grained : Bool

pub record OrderSpec : Type 0 where
  pub ordinal : ℕ
  pub direction : Text

pub record MetricFilterSpec : Type 0 where
  pub filter : MetricFilter
  pub metric : CompiledMetric

unfoldable pub is_null : Value → Bool
is_null null = true
is_null _ = false

abbrev pub has_value : MetricFilter → Bool
has_value f = f.value_set || not (is_null f.value)

abbrev pub is_some : Option (List Value) → Bool
is_some none = false
is_some (some _) = true

abbrev pub has_values : MetricFilter → Bool
has_values f = f.values_set || is_some f.values

-- `validateMetricFilterValue`
unfoldable pub validate_value : Value → Result Error (Unit {0})
validate_value null = err null_value
validate_value other = err unsupported_value
validate_value (string _) = ok tt
validate_value (bool _) = ok tt
validate_value (int _ _) = ok tt
validate_value (float32 x) = fail_if (not x.finite) not_finite
validate_value (float64 x) = fail_if (not x.finite) not_finite
validate_value (time _) = ok tt

abbrev pub comparisons : List Text
comparisons = codes "=" ∷ codes "!=" ∷ codes "<" ∷ codes "<=" ∷ codes ">" ∷ codes ">=" ∷ []

unfoldable pub validate_pair : Option (List Value) → Error → Result Error (Unit {0})
validate_pair (some (low ∷ high ∷ [])) failure = do validate_value low; validate_value high
validate_pair _ failure = err failure

unfoldable pub validate_scalar : MetricFilter → Result Error (Unit {0})
validate_scalar f = do
  fail_if (not (has_value f) || is_null f.value) (needs_value f.metric f.op)
  fail_if (has_values f) (rejects_values f.metric f.op)
  validate_value f.value

unfoldable pub validate_between : MetricFilter → Result Error (Unit {0})
validate_between f = do
  fail_if (has_value f) (rejects_value f.metric)
  validate_pair f.values (needs_two_values f.metric)

-- The switch on the operator.
unfoldable pub validate_metric_filter : MetricFilter → Result Error (Unit {0})
unfolding validate_scalar validate_between
validate_metric_filter f =
    if contains comparisons f.op
    then validate_scalar f
    else if text_eq f.op (codes "BETWEEN")
    then validate_between f
    else err (bad_operator f.metric f.op)

-- The map `requested`; of metrics with one name it holds the last.
unfoldable pub by_name : Map CompiledMetric → List CompiledMetric → Map CompiledMetric
by_name requested [] = requested
by_name requested (m ∷ metrics) = by_name (insert m.name m requested) metrics

unfoldable pub resolve_metric_filter :
    Map CompiledMetric → MetricFilter → Result Error MetricFilterSpec
resolve_metric_filter requested f = elim (lookup requested f.metric) [
  | none ↦ err (not_requested f.metric)
  | some m ↦ do validate_metric_filter f; ok (record { filter = f; metric = m })
]

unfoldable pub resolve_metric_filters :
    List MetricFilter → List CompiledMetric → Result Error (List MetricFilterSpec)
resolve_metric_filters filters metrics =
    traverse (resolve_metric_filter (by_name [] metrics)) filters

unfoldable pub find_dataset : CompiledModel → Text → Result Error CompiledDataset
find_dataset cm name = elim (lookup cm.datasets name) [
  | none ↦ err (unknown_dataset name)
  | some ds ↦ ok ds
]

unfoldable pub resolve_field : CompiledDataset → FieldRef → Result Error CompiledField
resolve_field ds ref = elim (lookup ds.fields ref.field) [
  | none ↦ err (unknown_field ref.field)
  | some f ↦ ok f
]

-- The split of `resolveFieldRef` at the first dot.
unfoldable pub split_ref : Text → Result Error FieldRef
split_ref s = elim (split_at_byte b'.' s) [
  | none ↦ err not_qualified
  | some (l, r) ↦ do
    fail_if (is_nil l || is_nil r) not_qualified
    ok (record { dataset = l; field = r })
]

unfoldable pub resolve_field_ref : CompiledModel → Text → Result Error (FieldRef × CompiledField)
resolve_field_ref cm s = do
  ref ← split_ref s
  ds ← find_dataset cm ref.dataset
  f ← resolve_field ds ref
  ok (ref, f)

unfoldable pub resolve_metric : CompiledModel → Text → Result Error CompiledMetric
resolve_metric cm name = elim (lookup cm.metrics name) [
  | none ↦ err (unknown_metric name cm.metric_order)
  | some m ↦ ok m
]

unfoldable pub resolve_dimension : CompiledModel → Text → Result Error DimSpec
resolve_dimension cm name = do
  found ← resolve_field_ref cm name
  fail_if (not found.1.is_dimension) (not_dimension name)
  ok (record { ref = found.0; field = found.1; grained = false })

unfoldable pub resolve_filter : CompiledModel → Filter → Result Error FieldRef
resolve_filter cm f = do found ← resolve_field_ref cm f.field; ok found.0

abbrev pub valid_grains : List Text
valid_grains = codes "day" ∷ codes "week" ∷ codes "month" ∷ codes "quarter" ∷ codes "year" ∷ []

-- The loop that marks the first time dimension.
unfoldable pub mark_time : List DimSpec → Option (List DimSpec)
mark_time [] = none
mark_time (d ∷ dims) =
    let rest = mark_time dims in
    if d.field.is_time
    then some (record d { grained = true } ∷ dims)
    else elim rest [ none ↦ none | some marked ↦ some (d ∷ marked) ]

unfoldable pub apply_grain : Text → List DimSpec → Result Error (List DimSpec)
apply_grain [] dims = ok dims
apply_grain (c ∷ s) dims = do
  fail_if (not (contains valid_grains (c ∷ s))) (bad_grain (c ∷ s))
  elim (mark_time dims) [ none ↦ err (no_time_dimension (c ∷ s)) | some marked ↦ ok marked ]

-- `positions[name]`: the ordinals of the output columns with that name.
unfoldable pub positions : ℕ → List Text → Text → List ℕ
positions i [] name = []
positions i (c ∷ columns) name =
    let rest = positions (suc i) columns name in if text_eq c name then i ∷ rest else rest

unfoldable pub direction_of : Text → Text → Result Error Text
direction_of field d =
    if text_eq d (codes "asc")
    then ok (codes "ASC")
    else if text_eq d (codes "desc")
    then ok (codes "DESC")
    else err (bad_direction field d)

unfoldable pub only_position : Text → List ℕ → Result Error ℕ
only_position field [] = err (not_ordered field)
only_position field (i ∷ []) = ok i
only_position field (i ∷ j ∷ more) = err (ambiguous_order field)

unfoldable pub resolve_clauses :
    List Text → List Text → List OrderByClause → Result Error (List OrderSpec)
resolve_clauses columns seen [] = ok []
resolve_clauses columns seen (c ∷ clauses) = do
  i ← only_position c.field (positions 1 columns c.field)
  fail_if (contains seen c.field) (repeated_order c.field)
  d ← direction_of c.field c.direction
  rest ← resolve_clauses columns (c.field ∷ seen) clauses
  ok (record { ordinal = i; direction = d } ∷ rest)

-- `resolveOrderBy`
unfoldable pub resolve_order_by : Request → Result Error (List OrderSpec)
resolve_order_by req = resolve_clauses (req.dimensions ++ req.metrics) [] req.order_by
