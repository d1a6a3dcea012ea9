-- ===== src/Planner/Queries.antt =====
-- internal/planner/plan_sql.go: whole statements, from the pieces.
use semantic_operator.Prelude.{
  Text, ℕ, zero, suc, ltb, Bool, false, ◌&&◌, ◌||◌, List, [], ◌∷◌, ◌++◌, map, none, some, codes,
  if◌then◌else◌, is_nil, length, text_eq, lookup, traverse, Result, ok, err, ◌>>=◌, ◌>>◌, fail_if,
}
use semantic_operator.Prelude.Strings.{join, replace_byte}
use semantic_operator.Errors.{Error, no_primary_key, several_datasets, panicked}
use semantic_operator.Api.{RowFilter}
use semantic_operator.Emitter.{Dialect, decimal}
use semantic_operator.Expr.{FieldRef, ref_string}
use semantic_operator.Expr.Metric.{AggTerm, unique}
use semantic_operator.Planner.{CompiledDataset, CompiledRelationship, CompiledMetric}
use semantic_operator.Planner.Joins.{join_tree}
use semantic_operator.Planner.Request.{Filter, DimSpec, MetricFilterSpec, resolve_field_ref}
use semantic_operator.Planner.Render.{
  Builder, alias, render_dim, render_scalar, render_term, render_inline_metric,
  render_metric_filter, where_clauses,
}

pub record SelectItem : Type 0 where
  pub expr : Text
  pub alias : Text

abbrev pub newline : Text
newline = 10 ∷ []

unfoldable pub select_part : Dialect → SelectItem → Text
select_part d it = it.expr ++ codes " AS " ++ d.quote_ident it.alias

unfoldable pub where_part : List Text → Text
where_part [] = []
where_part (w ∷ ws) = newline ++ codes "WHERE " ++ join (newline ++ codes "  AND ") (w ∷ ws)

-- The ordinals from `i` on, `n` of them.
unfoldable pub ordinals : ℕ → ℕ → List Text
ordinals i zero = []
ordinals i (suc n) = decimal i ∷ ordinals (suc i) n

unfoldable pub group_part : List SelectItem → ℕ → Text
unfolding ordinals
group_part items dims =
    if ltb 0 dims && ltb dims (length items)
    then newline ++ codes "GROUP BY " ++ join (codes ", ") (ordinals 1 dims)
    else []

unfoldable pub select_list : Text → Dialect → List SelectItem → Text → List Text → Text
unfolding select_part where_part
select_list verb d items from where_ =
    verb
    ++ join (codes "," ++ newline ++ codes "       ") (map (select_part d) items)
    ++ newline
    ++ from
    ++ where_part where_

-- `renderSelect` and `renderSelectDistinct`
unfoldable pub render_select : Dialect → List SelectItem → Text → List Text → ℕ → Text
unfolding select_list group_part
render_select d items from where_ dims =
    select_list (codes "SELECT ") d items from where_ ++ group_part items dims

unfoldable pub render_select_distinct : Dialect → List SelectItem → Text → List Text → Text
unfolding select_list
render_select_distinct d items from where_ =
    select_list (codes "SELECT DISTINCT ") d items from where_

unfoldable pub indent : Text → Text
indent s = codes "  " ++ replace_byte 10 (newline ++ codes "  ") s

-- The conditions of a join; `ToColumns[i]` may be out of range.
unfoldable pub join_conditions :
    Builder → CompiledRelationship → List Text → List Text → Result Error (List Text)
join_conditions b j [] to_columns = ok []
join_conditions b j (f ∷ from_columns) [] = err panicked
join_conditions b j (f ∷ from_columns) (t ∷ to_columns) = do
  rest ← join_conditions b j from_columns to_columns
  ok (
      (alias b j.from
        ++ b'.' ∷ b.d.quote_ident f
        ++ codes " = "
        ++ alias b j.to
        ++ b'.' ∷ b.d.quote_ident t)
      ∷ rest)

-- `b.cm.Datasets[name]`, whose fields the code reads at once.
unfoldable pub dataset_of : Builder → Text → Result Error CompiledDataset
dataset_of b name = elim (lookup b.cm.datasets name) [ none ↦ err panicked | some ds ↦ ok ds ]

unfoldable pub table_of : Builder → CompiledDataset → Text
table_of b ds = b.d.qualify_table ds.catalog ds.database ds.table

unfoldable pub join_part : Builder → CompiledRelationship → Result Error Text
unfolding table_of
join_part b j = do
  to ← dataset_of b j.to
  conds ← join_conditions b j j.from_columns j.to_columns
  ok (
      newline
      ++ j.join_type
      ++ codes " JOIN "
      ++ table_of b to
      ++ codes " AS "
      ++ alias b j.to
      ++ codes " ON "
      ++ join (codes " AND ") conds)

unfoldable pub concat : List Text → Text
concat [] = []
concat (s ∷ ss) = s ++ concat ss

abbrev pub in_tree : Text → List CompiledRelationship → List Text
in_tree root joins = root ∷ map (λ (j : CompiledRelationship). j.to) joins

unfoldable pub from_clause : Builder → Text → List CompiledRelationship → Result Error Text
unfolding concat table_of
from_clause b root joins = do
  ds ← dataset_of b root
  parts ← traverse (join_part b) joins
  ok (codes "FROM " ++ table_of b ds ++ codes " AS " ++ alias b root ++ concat parts)

-- The dimensions as output columns `d0`, `d1`, …, or under their public names.
unfoldable pub dim_items : Builder → Bool → ℕ → List DimSpec → Result Error (List SelectItem)
dim_items b public i [] = ok []
dim_items b public i (dm ∷ dims) = do
  e ← render_dim b dm
  rest ← dim_items b public (suc i) dims
  ok (record { expr = e; alias = if public then ref_string dm.ref else b'd' ∷ decimal i } ∷ rest)

unfoldable pub metric_item : Builder → Bool → CompiledMetric → Result Error SelectItem
metric_item b public m = do
  e ← render_inline_metric b m
  ok (record { expr = e; alias = if public then m.name else codes "m_" ++ m.name })

unfoldable pub having_part : Builder → MetricFilterSpec → Result Error Text
having_part b f = do lhs ← render_inline_metric b f.metric; render_metric_filter b f lhs

unfoldable pub having : Builder → List MetricFilterSpec → Result Error Text
unfolding having_part
having b [] = ok []
having b (f ∷ filters) = do
  parts ← traverse (having_part b) (f ∷ filters)
  ok (newline ++ codes "HAVING " ++ join (newline ++ codes "   AND ") parts)

-- FROM and WHERE over the join tree of the required datasets, and its root.
pub record Scope : Type 0 where
  pub root : Text
  pub from : Text
  pub clauses : List Text

unfoldable pub scope_of : Builder → List Text → List Filter → Result Error Scope
scope_of b required filters = do
  tree ← join_tree b.cm required
  from ← from_clause b tree.0 tree.1
  clauses ← where_clauses b filters (in_tree tree.0 tree.1)
  ok (record { root = tree.0; from = from; clauses = clauses })

-- `flatQuery`
unfoldable pub flat_query :
    Builder
    → List Text
    → List CompiledMetric
    → List Filter
    → List MetricFilterSpec
    → Bool
    → Result Error Text
flat_query b required metrics filters metric_filters public = do
  dims ← dim_items b public 0 b.dims
  aggs ← traverse (metric_item b public) metrics
  scope ← scope_of b required filters
  tail ← having b metric_filters
  ok (render_select b.d (dims ++ aggs) scope.from scope.clauses (length b.dims) ++ tail)

unfoldable pub filter_datasets : Builder → List Filter → Result Error (List Text)
filter_datasets b [] = ok []
filter_datasets b (f ∷ filters) = do
  found ← resolve_field_ref b.cm f.field
  rest ← filter_datasets b filters
  ok (found.0.dataset ∷ rest)

unfoldable pub group_datasets : List (List RowFilter) → List Text
group_datasets [] = []
group_datasets (g ∷ groups) = map (λ (rf : RowFilter). rf.dataset) g ++ group_datasets groups

abbrev pub dim_datasets : List DimSpec → List Text
dim_datasets dims = map (λ (dm : DimSpec). dm.ref.dataset) dims

abbrev pub ref_datasets : List FieldRef → List Text
ref_datasets refs = map (λ (r : FieldRef). r.dataset) refs

unfoldable pub term_datasets : AggTerm → List Text
term_datasets t = unique [] (ref_datasets t.refs)

abbrev pub is_count_distinct : AggTerm → Bool
is_count_distinct t = text_eq t.func (codes "COUNT") && t.distinct

unfoldable pub is_only : List Text → Text → Bool
is_only (ds ∷ []) root = text_eq ds root
is_only _ root = false

-- A side that a join cannot duplicate.
unfoldable pub direct_side : Builder → AggTerm → Scope → Result Error Text
direct_side b t scope = do
  dims ← dim_items b false 0 b.dims
  agg ← render_term b t
  ok (
      render_select b.d (dims ++ record { expr = agg; alias = codes "val" } ∷ []) scope.from
        scope.clauses (length b.dims))

unfoldable pub key_items : Builder → Text → ℕ → List Text → List SelectItem
key_items b ds i [] = []
key_items b ds i (pk ∷ keys) =
    record { expr = alias b ds ++ b'.' ∷ b.d.quote_ident pk; alias = codes "pk" ++ decimal i }
    ∷ key_items b ds (suc i) keys

unfoldable pub outer_items : Builder → ℕ → ℕ → List SelectItem
outer_items b i zero = []
outer_items b i (suc n) =
    record {
      expr = b.d.quote_ident (codes "t") ++ b'.' ∷ b.d.quote_ident (b'd' ∷ decimal i);
      alias = b'd' ∷ decimal i;
    }
    ∷ outer_items b (suc i) n

-- A side that is deduplicated on the primary key of its dataset.
unfoldable pub dedup_side : Builder → AggTerm → Scope → CompiledDataset → Result Error Text
unfolding key_items outer_items
dedup_side b t scope mds = do
  fail_if (is_nil mds.primary_key) (no_primary_key mds.name)
  dims ← dim_items b false 0 b.dims
  scalar ← render_scalar b t.scalar
  let inner =
      render_select_distinct b.d
        (key_items b mds.name 0 mds.primary_key
          ++ dims
          ++ record { expr = scalar; alias = codes "mval" } ∷ [])
        scope.from scope.clauses
  let dedup = b.d.quote_ident (codes "t")
  let value = t.func ++ codes "(" ++ dedup ++ b'.' ∷ b.d.quote_ident (codes "mval") ++ codes ")"
  ok (
      render_select b.d
        (outer_items b 0 (length b.dims) ++ record { expr = value; alias = codes "val" } ∷ [])
        (codes "FROM (" ++ newline ++ indent inner ++ newline ++ codes ") AS " ++ dedup) []
        (length b.dims))

unfoldable pub fan_out_side : Builder → AggTerm → Scope → List Text → Result Error Text
fan_out_side b t scope (ds ∷ []) = do mds ← dataset_of b ds; dedup_side b t scope mds
fan_out_side b t scope _ = err (several_datasets t.func t.scalar)

-- `sideQuery`
unfoldable pub side_query : Builder → AggTerm → List Filter → Result Error Text
side_query b t filters = do
  fds ← filter_datasets b filters
  scope ←
      scope_of b
        (dim_datasets b.dims ++ fds ++ group_datasets b.row_filter_groups ++ ref_datasets t.refs)
        filters
  if is_count_distinct t || is_only (term_datasets t) scope.root
      then direct_side b t scope
      else fan_out_side b t scope (term_datasets t)
