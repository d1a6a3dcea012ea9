-- ===== src/Planner/Composite.antt =====
-- internal/planner/plan_sql.go: `compositeQuery`, which joins the sides of split ratios.
use semantic_operator.Prelude.{
  Text, ℕ, suc, Bool, false, List, [], ◌∷◌, ◌++◌, map, any, none, some, codes, if◌then◌else◌,
  is_nil, text_eq, traverse, Result, ok, err, ◌>>=◌,
}
use semantic_operator.Prelude.Strings.{join}
use semantic_operator.Errors.{Error, panicked}
use semantic_operator.Emitter.{decimal}
use semantic_operator.Expr.{ref_string}
use semantic_operator.Expr.Metric.{AggTerm}
use semantic_operator.Planner.{CompiledMetric}
use semantic_operator.Planner.Request.{Filter, DimSpec, MetricFilterSpec}
use semantic_operator.Planner.Render.{Builder, render_metric_filter}
use semantic_operator.Planner.Queries.{newline, indent, flat_query, side_query}

pub record Cte : Type 0 where
  pub name : Text
  pub sql : Text

unfoldable pub contains_metric : List CompiledMetric → Text → Bool
contains_metric ms name = any (λ m. text_eq m.name name) ms

-- `*m.Expr.Denominator`
unfoldable pub denominator_of : CompiledMetric → Result Error AggTerm
denominator_of m = elim m.expr.denominator [ none ↦ err panicked | some t ↦ ok t ]

unfoldable pub split_ctes : Builder → List Filter → List CompiledMetric → Result Error (List Cte)
unfolding denominator_of
split_ctes b filters [] = ok []
split_ctes b filters (m ∷ splits) = do
  num ← side_query b m.expr.numerator filters
  t ← denominator_of m
  den ← side_query b t filters
  rest ← split_ctes b filters splits
  ok (
      record { name = codes "m_" ++ m.name ++ codes "_num"; sql = num }
      ∷ record { name = codes "m_" ++ m.name ++ codes "_den"; sql = den }
      ∷ rest)

unfoldable pub base_ctes :
    Builder → List Text → List CompiledMetric → List Filter → Result Error (List Cte)
base_ctes b required [] filters = ok []
base_ctes b required (m ∷ inline) filters = do
  sql ← flat_query b required (m ∷ inline) filters [] false
  ok (record { name = codes "base"; sql = sql } ∷ [])

unfoldable pub cte_part : Builder → Cte → Text
cte_part b c =
    b.d.quote_ident c.name ++ codes " AS (" ++ newline ++ indent c.sql ++ newline ++ codes ")"

abbrev pub column : Builder → Text → Text → Text
column b table name = b.d.quote_ident table ++ b'.' ∷ b.d.quote_ident name

abbrev pub dim_column : Builder → Text → ℕ → Text
dim_column b table i = column b table (b'd' ∷ decimal i)

unfoldable pub anchor_items : Builder → Text → ℕ → List DimSpec → List Text
anchor_items b anchor i [] = []
anchor_items b anchor i (dm ∷ dims) =
    (dim_column b anchor i ++ codes " AS " ++ b.d.quote_ident (ref_string dm.ref))
    ∷ anchor_items b anchor (suc i) dims

-- The division of the two sides of a split metric.
unfoldable pub split_value : Builder → Text → Text
split_value b name =
    column b (codes "m_" ++ name ++ codes "_num") (codes "val")
    ++ codes " / NULLIF("
    ++ column b (codes "m_" ++ name ++ codes "_den") (codes "val")
    ++ codes ", 0)"

abbrev pub base_value : Builder → Text → Text
base_value b name = column b (codes "base") (codes "m_" ++ name)

-- `hasBase` is that there are inline metrics, which a metric contained in them implies.
unfoldable pub output_item : Builder → List CompiledMetric → Text → Text
unfolding split_value
output_item b inline name =
    (if contains_metric inline name then base_value b name else split_value b name)
    ++ codes " AS "
    ++ b.d.quote_ident name

unfoldable pub dim_conditions : Builder → Text → Text → ℕ → List DimSpec → List Text
dim_conditions b anchor name i [] = []
dim_conditions b anchor name i (dm ∷ dims) =
    b.d.null_safe_eq (dim_column b anchor i) (dim_column b name i)
    ∷ dim_conditions b anchor name (suc i) dims

unfoldable pub join_cte : Builder → Text → Cte → Text
unfolding dim_conditions
join_cte b anchor c =
    if is_nil b.dims
    then newline ++ codes "CROSS JOIN " ++ b.d.quote_ident c.name
    else newline
      ++ codes "INNER JOIN "
      ++ b.d.quote_ident c.name
      ++ codes " ON "
      ++ join (codes " AND ") (dim_conditions b anchor c.name 0 b.dims)

unfoldable pub join_ctes : Builder → Text → List Cte → Text
unfolding join_cte
join_ctes b anchor [] = []
join_ctes b anchor (c ∷ cs) = join_cte b anchor c ++ join_ctes b anchor cs

unfoldable pub filter_value : Builder → List CompiledMetric → Text → Text
unfolding split_value
filter_value b inline name =
    if contains_metric inline name
    then base_value b name
    else b'(' ∷ split_value b name ++ codes ")"

unfoldable pub composite_filter :
    Builder → List CompiledMetric → MetricFilterSpec → Result Error Text
unfolding filter_value
composite_filter b inline f = render_metric_filter b f (filter_value b inline f.metric.name)

unfoldable pub composite_where :
    Builder → List CompiledMetric → List MetricFilterSpec → Result Error Text
unfolding composite_filter
composite_where b inline [] = ok []
composite_where b inline (f ∷ filters) = do
  parts ← traverse (composite_filter b inline) (f ∷ filters)
  ok (newline ++ codes "WHERE " ++ join (newline ++ codes "  AND ") parts)

-- The statement over the subqueries, the first of which is the anchor.
unfoldable pub composite_sql : Builder → List CompiledMetric → Cte → List Cte → Text → Text
unfolding cte_part anchor_items output_item join_ctes
composite_sql b inline anchor rest conditions =
    codes "WITH "
    ++ join (codes "," ++ newline) (map (cte_part b) (anchor ∷ rest))
    ++ newline
    ++ codes "SELECT "
    ++ join (codes "," ++ newline ++ codes "       ")
        (anchor_items b anchor.name 0 b.dims ++ map (output_item b inline) b.req.metrics)
    ++ newline
    ++ codes "FROM "
    ++ b.d.quote_ident anchor.name
    ++ join_ctes b anchor.name rest
    ++ conditions

unfoldable pub over_ctes :
    Builder → List CompiledMetric → List MetricFilterSpec → List Cte → Result Error Text
unfolding composite_sql
over_ctes b inline metric_filters [] = err panicked
over_ctes b inline metric_filters (anchor ∷ rest) = do
  conditions ← composite_where b inline metric_filters
  ok (composite_sql b inline anchor rest conditions)

-- `compositeQuery`; `splits` are the first split metric and the others.
unfoldable pub composite_query :
    Builder
    → List Text
    → List CompiledMetric
    → List CompiledMetric
    → List Filter
    → List MetricFilterSpec
    → Result Error Text
composite_query b required inline splits filters metric_filters = do
  base ← base_ctes b required inline filters
  sides ← split_ctes b filters splits
  over_ctes b inline metric_filters (base ++ sides)
