-- ===== src/Planner/Render.antt =====
-- internal/planner/plan_sql.go: the pieces of a SQL statement. A closure that keeps the first error
-- is a pass over the references before the rewriting. A panic is the error `panicked`.
use semantic_operator.Prelude.{
  Text, ◌==◌, not, ◌||◌, List, [], ◌∷◌, ◌++◌, map, any, Option, none, some, codes, if◌then◌else◌,
  is_nil, text_eq, contains, traverse, Result, ok, err, ◌>>=◌, ◌>>◌, fail_if,
}
use semantic_operator.Prelude.Strings.{join}
use semantic_operator.Errors.{
  Error, outside_tree, needs_values, needs_two_values, bad_operator, panicked,
}
use semantic_operator.Api.{RowFilter}
use semantic_operator.Emitter.{Dialect, Value}
use semantic_operator.Expr.{
  FieldRef, Piece, literal, byte, reference, word, pieces_of, rewrite_refs, qualify_bare_columns,
}
use semantic_operator.Expr.Metric.{AggTerm}
use semantic_operator.Planner.{CompiledModel, CompiledMetric}
use semantic_operator.Planner.Request.{
  Request, Filter, DimSpec, MetricFilterSpec, find_dataset, resolve_field, resolve_field_ref,
  comparisons,
}

-- `builder`
pub record Builder : Type 0 where
  pub cm : CompiledModel
  pub d : Dialect
  pub req : Request
  pub dims : List DimSpec
  pub row_filter_groups : List (List RowFilter)

abbrev pub alias : Builder → Text → Text
alias b dataset = b.d.quote_ident dataset

-- `strings.ContainsAny(out, " (")`, and the parentheses.
unfoldable pub parenthesize : Text → Text
parenthesize s = if any (λ c. c == b' ' || c == b'(') s then b'(' ∷ s ++ codes ")" else s

unfoldable pub render_field_ref : Builder → FieldRef → Result Error Text
unfolding parenthesize
render_field_ref b ref = do
  ds ← find_dataset b.cm ref.dataset
  f ← resolve_field ds ref
  ok (parenthesize (qualify_bare_columns f.expr (alias b ref.dataset) b.d.quote_ident))

unfoldable pub render_dim : Builder → DimSpec → Result Error Text
render_dim b dm = do
  s ← render_field_ref b dm.ref
  ok (if dm.grained then b.d.date_trunc b.req.time_grain s else s)

-- The errors of the references, in the order of the text.
unfoldable pub check_pieces : Builder → List Piece → Result Error (Unit {0})
check_pieces b [] = ok tt
check_pieces b (literal _ ∷ ps) = check_pieces b ps
check_pieces b (byte _ ∷ ps) = check_pieces b ps
check_pieces b (word _ _ ∷ ps) = check_pieces b ps
check_pieces b (reference r ∷ ps) = do s ← render_field_ref b r; check_pieces b ps

unfoldable pub text_or_empty : Result Error Text → Text
text_or_empty (ok s) = s
text_or_empty (err _) = []

unfoldable pub render_scalar : Builder → Text → Result Error Text
unfolding text_or_empty
render_scalar b scalar = do
  check_pieces b (pieces_of scalar)
  ok (rewrite_refs scalar (λ r. text_or_empty (render_field_ref b r)))

unfoldable pub render_term : Builder → AggTerm → Result Error Text
render_term b t = do
  scalar ← render_scalar b t.scalar
  ok (t.func ++ (if t.distinct then codes "(DISTINCT " else codes "(") ++ scalar ++ codes ")")

unfoldable pub render_ratio : Builder → Text → Option AggTerm → Result Error Text
render_ratio b num none = ok num
render_ratio b num (some t) = do
  den ← render_term b t
  ok (num ++ codes " / NULLIF(" ++ den ++ codes ", 0)")

unfoldable pub render_inline_metric : Builder → CompiledMetric → Result Error Text
unfolding render_ratio
render_inline_metric b m = do
  num ← render_term b m.expr.numerator
  render_ratio b num m.expr.denominator

-- `filter.Values[0]` and `filter.Values[1]`.
unfoldable pub two_literals : Builder → Option (List Value) → Result Error (Text × Text)
two_literals b (some (low ∷ high ∷ more)) = do l ← b.d.literal low; h ← b.d.literal high; ok (l, h)
two_literals b _ = err panicked

unfoldable pub render_between : Builder → MetricFilterSpec → Text → Result Error Text
render_between b spec lhs = do
  pair ← two_literals b spec.filter.values
  ok (b'(' ∷ lhs ++ codes " BETWEEN " ++ pair.0 ++ codes " AND " ++ pair.1 ++ codes ")")

unfoldable pub render_comparison : Builder → MetricFilterSpec → Text → Result Error Text
render_comparison b spec lhs = do
  v ← b.d.literal spec.filter.value
  ok (b'(' ∷ lhs ++ b' ' ∷ spec.filter.op ++ b' ' ∷ v ++ codes ")")

unfoldable pub render_metric_filter : Builder → MetricFilterSpec → Text → Result Error Text
unfolding render_between render_comparison
render_metric_filter b spec lhs =
    if contains comparisons spec.filter.op
    then render_comparison b spec lhs
    else if text_eq spec.filter.op (codes "BETWEEN")
    then render_between b spec lhs
    else err (bad_operator spec.filter.metric spec.filter.op)

unfoldable pub render_in : Builder → Filter → Text → Result Error Text
render_in b f lhs = do
  fail_if (is_nil f.values) (needs_values f.field)
  parts ← traverse b.d.literal f.values
  ok (lhs ++ b' ' ∷ f.op ++ codes " (" ++ join (codes ", ") parts ++ codes ")")

unfoldable pub render_pair : Builder → Filter → Text → List Value → Result Error Text
render_pair b f lhs (low ∷ high ∷ []) = do
  l ← b.d.literal low
  h ← b.d.literal high
  ok (lhs ++ codes " BETWEEN " ++ l ++ codes " AND " ++ h)
render_pair b f lhs _ = err (needs_two_values f.field)

unfoldable pub render_operator : Builder → Filter → Text → Result Error Text
render_operator b f lhs = do v ← b.d.literal f.value; ok (lhs ++ b' ' ∷ f.op ++ b' ' ∷ v)

-- The switch of `renderFilter` on the operator.
unfoldable pub render_test : Builder → Filter → Text → Result Error Text
unfolding render_in render_pair render_operator
render_test b f lhs =
    if contains comparisons f.op || text_eq f.op (codes "LIKE")
    then render_operator b f lhs
    else if text_eq f.op (codes "IN") || text_eq f.op (codes "NOT IN")
    then render_in b f lhs
    else if text_eq f.op (codes "BETWEEN")
    then render_pair b f lhs f.values
    else err (bad_operator f.field f.op)

unfoldable pub render_filter : Builder → Filter → Result Error Text
unfolding render_test
render_filter b f = do
  found ← resolve_field_ref b.cm f.field
  lhs ← render_field_ref b found.0
  render_test b f lhs

abbrev pub parens : Text → Text
parens s = b'(' ∷ s ++ codes ")"

-- One row filter of `whereClauses`.
unfoldable pub render_row_filter : Builder → List Text → RowFilter → Result Error Text
render_row_filter b in_tree rf = do
  fail_if (not (contains in_tree rf.dataset)) (outside_tree rf.dataset)
  ok (parens (qualify_bare_columns rf.predicate (alias b rf.dataset) b.d.quote_ident))

-- The loop on the groups: a role with filters gives one term.
unfoldable pub role_terms : Builder → List Text → List (List RowFilter) → Result Error (List Text)
role_terms b in_tree [] = ok []
role_terms b in_tree (g ∷ groups) = do
  conj ← traverse (render_row_filter b in_tree) g
  terms ← role_terms b in_tree groups
  ok (if is_nil conj then terms else parens (join (codes " AND ") conj) ∷ terms)

unfoldable pub where_clauses : Builder → List Filter → List Text → Result Error (List Text)
where_clauses b filters in_tree = do
  user ← traverse (render_filter b) filters
  terms ← role_terms b in_tree b.row_filter_groups
  ok (map parens user ++ (if is_nil terms then [] else parens (join (codes " OR ") terms) ∷ []))
