-- ===== src/Planner/Build.antt =====
-- internal/planner/plan.go: `Build`. The libraries for glob patterns and regular expressions, and
-- the hash of a request and an identity key, are parameters.
pub mod Reads
pub mod Gate
pub mod RowFilters
pub mod Partitioned
pub mod Tests
use semantic_operator.Prelude.{
  Text, ℕ, zero, suc, ltb, Bool, true, false, not, ◌&&◌, ◌||◌, List, [], ◌∷◌, ◌++◌, map, all,
  Option, none, some, codes, if◌then◌else◌, is_nil, length, text_eq, contains, lookup, traverse,
  Result, ok, err, ◌>>=◌, ◌>>◌, fail_if,
}
use semantic_operator.Prelude.Strings.{join}
use semantic_operator.Errors.{Error, no_metrics, other_model, unknown_row_filter}
use semantic_operator.Api.{RowFilter}
use semantic_operator.Emitter.{Dialect, Value, decimal}
use semantic_operator.Expr.{FieldRef, ref_string}
use semantic_operator.Expr.Metric.{AggTerm, MetricExpr, datasets, denominator_refs}
use semantic_operator.Governance.{Identity, Glob, Decision, authorize}
use semantic_operator.Governance.Claims.{Part, expand_parts, identity_key}
use semantic_operator.Planner.{CompiledModel, CompiledMetric}
use semantic_operator.Planner.Joins.{join_tree}
use semantic_operator.Planner.Request.{
  Request, Filter, DimSpec, OrderSpec, MetricFilterSpec, resolve_metric, resolve_metric_filters,
  resolve_dimension, apply_grain, resolve_order_by, resolve_filter,
}
use semantic_operator.Planner.Render.{Builder}
use semantic_operator.Planner.Queries.{
  newline, ordinals, flat_query, dim_datasets, ref_datasets, group_datasets, is_count_distinct,
}
use semantic_operator.Planner.Composite.{composite_query}

-- `authorization_fingerprint` is set by the serving layer.
pub record Plan : Type 0 where
  pub sql : Text
  pub model : Text
  pub model_version : Text
  pub request_hash : Text
  pub role : Text
  pub columns : List Text

-- What a request resolves to, before the governance gate.
pub record Resolved : Type 0 where
  pub metrics : List CompiledMetric
  pub metric_filters : List MetricFilterSpec
  pub dims : List DimSpec
  pub order : List OrderSpec
  pub filter_refs : List FieldRef

unfoldable pub resolve : CompiledModel → Request → Result Error Resolved
resolve cm req = do
  fail_if (is_nil req.metrics) no_metrics
  fail_if (not (is_nil req.model) && not (text_eq req.model cm.name))
      (other_model req.model cm.name)
  metrics ← traverse (resolve_metric cm) req.metrics
  metric_filters ← resolve_metric_filters req.metric_filters metrics
  named ← traverse (resolve_dimension cm) req.dimensions
  dims ← apply_grain req.time_grain named
  order ← resolve_order_by req
  filter_refs ← traverse (resolve_filter cm) req.filters
  ok (record {
    metrics = metrics;
    metric_filters = metric_filters;
    dims = dims;
    order = order;
    filter_refs = filter_refs;
  })

abbrev pub dim_refs : List DimSpec → List FieldRef
dim_refs dims = map (λ (dm : DimSpec). dm.ref) dims

unfoldable pub metric_refs : List CompiledMetric → List FieldRef
metric_refs [] = []
metric_refs (m ∷ metrics) =
    m.expr.numerator.refs ++ denominator_refs m.expr.denominator ++ metric_refs metrics

-- `allRefs`
unfoldable pub all_refs : Resolved → List FieldRef
unfolding metric_refs
all_refs r = dim_refs r.dims ++ r.filter_refs ++ metric_refs r.metrics

-- The expansion of one row filter.
unfoldable pub expand_filter :
    (Text → List Part) → CompiledModel → Dialect → Identity → RowFilter → Result Error RowFilter
expand_filter split_claims cm d id rf = elim (lookup cm.datasets rf.dataset) [
  | none ↦ err (unknown_row_filter rf.dataset)
  | some ds ↦ do
    pred ← expand_parts id.claims d.literal (split_claims rf.predicate)
    ok (record { dataset = rf.dataset; predicate = pred })
]

-- `termSafe`
unfoldable pub term_safe : AggTerm → Text → Bool
term_safe t root =
    if is_count_distinct t then true else all (λ (r : FieldRef). text_eq r.dataset root) t.refs

unfoldable pub both_safe : MetricExpr → Text → Bool
unfolding term_safe
both_safe e root = elim e.denominator [
  | none ↦ term_safe e.numerator root
  | some t ↦ term_safe e.numerator root && term_safe t root
]

-- The state of the loop that sorts the metrics: the required datasets, and the two kinds.
pub record Partition : Type 0 where
  pub required : List Text
  pub inline : List CompiledMetric
  pub split : List CompiledMetric

-- Whether a ratio can stay inline: the root of its tentative join tree makes both sides safe.
unfoldable pub stays_inline : CompiledModel → List Text → CompiledMetric → Bool
unfolding both_safe
stays_inline cm required m = elim (join_tree cm (required ++ datasets m.expr)) [
  | err _ ↦ false
  | ok tree ↦ both_safe m.expr tree.0
]

unfoldable pub place : CompiledModel → Partition → CompiledMetric → Partition
unfolding stays_inline
place cm p m = elim m.expr.denominator [
  | none ↦ record {
    required = p.required ++ ref_datasets m.expr.numerator.refs;
    inline = p.inline ++ m ∷ [];
    split = p.split;
  }
  | some t ↦
      if stays_inline cm p.required m
      then record {
        required = p.required ++ datasets m.expr;
        inline = p.inline ++ m ∷ [];
        split = p.split;
      }
      else record { required = p.required; inline = p.inline; split = p.split ++ m ∷ [] }
]

unfoldable pub partition : CompiledModel → Partition → List CompiledMetric → Partition
unfolding place
partition cm p [] = p
partition cm p (m ∷ metrics) = partition cm (place cm p m) metrics

unfoldable pub order_part : OrderSpec → Text
order_part o = decimal o.ordinal ++ b' ' ∷ o.direction

unfoldable pub order_by : ℕ → List OrderSpec → Text
unfolding order_part
order_by zero [] = []
order_by (suc n) [] = newline ++ codes "ORDER BY " ++ join (codes ", ") (ordinals 1 (suc n))
order_by n (o ∷ order) =
    newline ++ codes "ORDER BY " ++ join (codes ", ") (map order_part (o ∷ order))

-- `finishQuery`
unfoldable pub finish_query : Text → ℕ → List OrderSpec → ℕ → Text
unfolding order_by
finish_query sql dims order limit =
    sql
    ++ order_by dims order
    ++ (if ltb 0 limit then newline ++ codes "LIMIT " ++ decimal limit else [])

unfoldable pub statement : Builder → Partition → Resolved → Result Error Text
statement b p r = elim p.split [
  | [] ↦ flat_query b p.required p.inline b.req.filters r.metric_filters true
  | m ∷ ms ↦ composite_query b p.required p.inline (m ∷ ms) b.req.filters r.metric_filters
]

unfoldable pub comment : CompiledModel → Text → Text
comment cm hash =
    codes "/* semantic-layer model="
    ++ cm.name
    ++ codes " version="
    ++ cm.version
    ++ codes " request="
    ++ hash
    ++ codes " */"

module _ (compile : Text → Option Glob) (split_claims : Text → List Part) (sha256_hex : Text → Text)
    (request_hash : Request → Text → Text) where
  -- The builder, once the gate is passed.
  unfoldable pub builder_of :
      CompiledModel → Dialect → Request → Identity → Resolved → Decision → Result Error Builder
  builder_of cm d req id r decision = do
    groups ← traverse (traverse (expand_filter split_claims cm d id)) decision.row_filter_groups
    ok (record { cm = cm; d = d; req = req; dims = r.dims; row_filter_groups = groups })

  -- The partition of the metrics, from what dimensions, filters and row filters require.
  unfoldable pub partition_of : Builder → Resolved → Partition
  unfolding partition
  partition_of b r =
      partition b.cm
        (record {
          required =
              dim_datasets r.dims
              ++ ref_datasets r.filter_refs
              ++ group_datasets b.row_filter_groups;
          inline = [];
          split = [];
        })
        r.metrics

  unfoldable pub plan_of : CompiledModel → Request → Resolved → Text → Text → Text → Plan
  unfolding comment finish_query
  plan_of cm req r role hash sql = record {
    sql = comment cm hash ++ newline ++ finish_query sql (length r.dims) r.order req.limit;
    model = cm.name;
    model_version = cm.version;
    request_hash = hash;
    role = role;
    columns = map ref_string (dim_refs r.dims) ++ req.metrics;
  }

  -- `Build`
  unfoldable pub build : CompiledModel → Dialect → Request → Identity → Result Error Plan
  build cm d req id = do
    r ← resolve cm req
    decision ← authorize compile cm.governance id req.metrics (map ref_string (all_refs r))
    b ← builder_of cm d req id r decision
    sql ← statement b (partition_of b r) r
    ok (
        plan_of cm req r decision.role_key
          (request_hash req (identity_key compile sha256_hex cm.governance id)) sql)
