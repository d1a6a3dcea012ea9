-- ===== src/Planner/Build/Tests.antt =====
-- Runs of `Build` on a shop with one tenant filter, and instances of its theorems.
use semantic_operator.Prelude.{
  Text, Bool, true, false, List, [], ◌∷◌, ◌++◌, map, Option, none, some, codes, text_eq, contains,
  all, any, keep, lookup, traverse, ok, err, ◌≡◌, inl, inr, refl, Elem,
}
use semantic_operator.Prelude.Strings.{split_at_byte, replace_byte, join, to_upper, text_le}
use semantic_operator.Prelude.Sorting.{sort_by}
use semantic_operator.Errors.{refused_by, field}
use semantic_operator.Api.{GovernanceSpec, RolePolicy, find_role}
use semantic_operator.Emitter.{int, quoted, dotted, literal_with, decimal_digits}
use semantic_operator.Emitter.Trino.{trino}
use semantic_operator.Emitter.Trino
use semantic_operator.Expr.{
  FieldRef, ref_string, qualify_bare_columns, rewrite_refs, pieces, read_literal, opens_call,
  word_piece, next_piece, scan_piece, scan_pieces, scan_refs, render_piece, render_pieces,
  is_numeric, qualify_word, qualify_next, qualify_loop,
}
use semantic_operator.Expr.Metric.{AggTerm, unique, datasets}
use semantic_operator.Governance.{
  Identity, Glob, no_identity, authorize, single, collect_roles, policy_roles, wanted, close_grants,
  compile_pattern, add_policy, add_role, add_roles, visible, visible_roles, role_key,
  permits_metric, permits_field, shows_metric, shows_field, permits_all, authorizing,
  collect_groups, first_blocked_field, blocker, refusal, decide, authorize_visible,
}
use semantic_operator.Governance.Claims.{
  Part, plain, claim, expand_parts, identity_key, expand_part, drop_repeats, sorted_unique,
  identity_value, identity_values, claim_value, claim_values, identity_text, identity_digest,
  key_roles,
}
use semantic_operator.Expr.Bytes.{
  is_digit, is_ident_start, is_ident_char, is_space, take_while, drop_while, is_keyword,
}
use semantic_operator.Planner.{
  CompiledModel, CompiledDataset, CompiledField, CompiledMetric, CompiledRelationship,
}
use semantic_operator.Planner.Joins.{
  join_tree, visit, visit_all, search, parent, climb, needed, pruned, reach, first_root,
}
use semantic_operator.Planner.Request.{
  MetricFilter, MetricFilterSpec, Request, resolve_order_by, is_null, validate_value, validate_pair,
  validate_scalar, validate_between, validate_metric_filter, by_name, resolve_metric_filter,
  resolve_metric_filters, find_dataset, resolve_field, split_ref, resolve_field_ref, resolve_metric,
  resolve_dimension, resolve_filter, mark_time, apply_grain, positions, direction_of, only_position,
  resolve_clauses,
}
use semantic_operator.Planner.Request.MetricFilters.{
  AreResolved, resolve_metric_filters-AreResolved,
}
use semantic_operator.Planner.Request.OrderBy.{IsOrders, resolve_order_by-IsOrders}
use semantic_operator.Planner.Render.{
  Builder, role_terms, parenthesize, render_field_ref, render_dim, check_pieces, text_or_empty,
  render_scalar, render_term, render_ratio, render_inline_metric, two_literals, render_between,
  render_comparison, render_metric_filter, render_in, render_pair, render_operator, render_test,
  render_filter, render_row_filter, where_clauses,
}
use semantic_operator.Planner.Queries.{
  Scope, in_tree, select_part, where_part, ordinals, group_part, select_list, render_select,
  render_select_distinct, indent, join_conditions, dataset_of, table_of, join_part, concat,
  from_clause, dim_items, metric_item, having_part, having, scope_of, flat_query, filter_datasets,
  group_datasets, term_datasets, is_only, direct_side, key_items, outer_items, dedup_side,
  fan_out_side, side_query,
}
use semantic_operator.Planner.Build.{
  Plan, Partition, resolve, all_refs, partition, both_safe, build, metric_refs, expand_filter,
  term_safe, stays_inline, place, order_part, order_by, finish_query, statement, comment,
  builder_of, partition_of, plan_of,
}
use semantic_operator.Planner.Build.Gate.{Permits, build-Authorizes}
use semantic_operator.Planner.Build.RowFilters.{
  role_terms_exact, group_text, roles_text, scope_of_restricted,
}
use semantic_operator.Planner.Build.Partitioned.{IsPartition, partition-IsPartition}

abbrev pub exact : Text → Option Glob
exact p = some (text_eq p)

-- A template with one claim, behind a dollar sign.
abbrev pub dollar : Text → List Part
dollar s = elim (split_at_byte b'$' s) [
  | none ↦ plain s ∷ []
  | some (l, r) ↦ plain l ∷ claim r ∷ []
]

abbrev pub same_text : Text → Text
same_text s = s

abbrev pub key_only : Request → Text → Text
key_only req key = codes "h"

abbrev pub plain_field : Text → Bool → CompiledField
plain_field name dimension = record {
  name = name;
  expr = name;
  is_dimension = dimension;
  is_time = false;
}

abbrev pub table : Text → List (Text × CompiledField) → CompiledDataset
table name fields = record {
  name = name;
  catalog = codes "c";
  database = codes "d";
  table = name;
  primary_key = codes "id" ∷ [];
  fields = fields;
  field_order = [];
}

abbrev pub ref : Text → Text → FieldRef
ref ds name = record { dataset = ds; field = name }

abbrev pub sum_of : FieldRef → AggTerm
sum_of r = record { func = codes "SUM"; distinct = false; scalar = ref_string r; refs = r ∷ [] }

abbrev pub amount : FieldRef
amount = ref (codes "o") (codes "amount")

abbrev pub score : FieldRef
score = ref (codes "u") (codes "score")

abbrev pub total : CompiledMetric
total = record {
  name = codes "total";
  raw = [];
  expr = record { numerator = sum_of amount; denominator = none };
}

abbrev pub mean : CompiledMetric
mean = record {
  name = codes "mean";
  raw = [];
  expr = record { numerator = sum_of score; denominator = some (sum_of score) };
}

abbrev pub analyst : RolePolicy
analyst = record {
  name = codes "analyst";
  allow_metrics = codes "total" ∷ [];
  deny_fields = codes "u.score" ∷ [];
  row_filters = record { dataset = codes "o"; predicate = codes "tenant = $t" } ∷ [];
}

abbrev pub spec : GovernanceSpec
spec = record { default_role = []; roles = analyst ∷ []; external = none }

abbrev pub edge : CompiledRelationship
edge = record {
  name = codes "o_u";
  from = codes "o";
  to = codes "u";
  from_columns = codes "uid" ∷ [];
  to_columns = codes "id" ∷ [];
  join_type = codes "INNER";
}

abbrev pub model : CompiledModel
model = record {
  name = codes "shop";
  version = codes "1";
  namespace = codes "ns";
  resource = codes "cr";
  connection = record { catalog = []; database = []; view_database = [] };
  datasets =
      (
        codes "u",
        table (codes "u") (
            (codes "city", plain_field (codes "city") true)
            ∷ (codes "score", plain_field (codes "score") true)
            ∷ []),
      )
      ∷ (codes "o", table (codes "o") ((codes "amount", plain_field (codes "amount") false) ∷ []))
      ∷ [];
  dataset_order = codes "o" ∷ codes "u" ∷ [];
  relationships = edge ∷ [];
  metrics = (codes "total", total) ∷ (codes "mean", mean) ∷ [];
  metric_order = codes "total" ∷ codes "mean" ∷ [];
  governance = some spec;
}

abbrev request : Request
request = record {
  model = [];
  metrics = codes "total" ∷ [];
  dimensions = codes "u.city" ∷ [];
  filters = [];
  metric_filters = [];
  time_grain = [];
  order_by = record { field = codes "total"; direction = codes "desc" } ∷ [];
  limit = 10;
}

abbrev caller : Identity
caller = record no_identity {
  roles = codes "analyst" ∷ [];
  claims = (codes "t", codes "acme") ∷ [];
}

evaluation : Unit {0}
unfolding is_null validate_value validate_pair validate_scalar validate_between
    validate_metric_filter by_name resolve_metric_filter resolve_metric_filters find_dataset
    resolve_field split_ref resolve_field_ref resolve_metric resolve_dimension resolve_filter
    mark_time apply_grain positions direction_of only_position resolve_clauses resolve_order_by
    parenthesize render_field_ref render_dim check_pieces text_or_empty render_scalar render_term
    render_ratio render_inline_metric two_literals render_between render_comparison
    render_metric_filter render_in render_pair render_operator render_test render_filter
    render_row_filter role_terms where_clauses select_part where_part ordinals group_part
    select_list render_select render_select_distinct indent join_conditions dataset_of table_of
    join_part concat from_clause dim_items metric_item having_part having scope_of flat_query
    filter_datasets group_datasets term_datasets is_only direct_side key_items outer_items
    dedup_side fan_out_side side_query resolve metric_refs all_refs expand_filter term_safe
    both_safe stays_inline place partition order_part order_by finish_query statement comment
    builder_of partition_of plan_of build visit visit_all search parent climb needed pruned reach
    first_root join_tree single collect_roles policy_roles wanted close_grants compile_pattern
    add_policy add_role add_roles visible visible_roles role_key permits_metric permits_field
    shows_metric shows_field permits_all authorizing collect_groups first_blocked_field blocker
    refusal decide authorize_visible authorize expand_part expand_parts drop_repeats sorted_unique
    identity_value identity_values claim_value claim_values identity_text identity_digest key_roles
    identity_key ref_string read_literal opens_call word_piece next_piece pieces scan_piece
    scan_pieces scan_refs render_piece render_pieces rewrite_refs is_numeric qualify_word
    qualify_next qualify_loop qualify_bare_columns is_digit is_ident_start is_ident_char is_space
    take_while drop_while is_keyword text_eq contains all any keep lookup traverse split_at_byte
    replace_byte join to_upper text_le sort_by find_role quoted dotted literal_with decimal_digits
    Trino.quote_ident Trino.qualify_table Trino.literal unique datasets
evaluation = tt

abbrev sql : Text
sql =
    codes "/* semantic-layer model=shop version=1 request=h */\n"
    ++ codes "SELECT \"u\".\"city\" AS \"u.city\",\n"
    ++ codes "       SUM(\"o\".\"amount\") AS \"total\"\n"
    ++ codes "FROM \"c\".\"d\".\"o\" AS \"o\"\n"
    ++ codes "INNER JOIN \"c\".\"d\".\"u\" AS \"u\" ON \"o\".\"uid\" = \"u\".\"id\"\n"
    ++ codes "WHERE (((\"o\".\"tenant\" = 'acme')))\n"
    ++ codes "GROUP BY 1\n"
    ++ codes "ORDER BY 2 DESC\n"
    ++ codes "LIMIT 10"

abbrev expected_plan : Plan
expected_plan = record {
  sql = sql;
  model = codes "shop";
  model_version = codes "1";
  request_hash = codes "h";
  role = codes "analyst";
  columns = codes "u.city" ∷ codes "total" ∷ [];
}

build_run : build exact dollar same_text key_only model trino request caller ≡ ok expected_plan
unfolding evaluation
build_run = refl

-- The witness of the gate: a role of the caller that permits the request.
build-Authorizes_example :
    (name : Text) × (policy : RolePolicy) × Permits exact dollar same_text key_only model trino
      request caller spec name policy
build-Authorizes_example =
    build-Authorizes exact dollar same_text key_only model trino request caller spec expected_plan
      refl build_run

-- Grouping by a denied field is refused.
forbidden_run :
    build exact dollar same_text key_only model trino
      (record request { dimensions = codes "u.score" ∷ []; order_by = [] })
      caller
    ≡ err (refused_by (codes "analyst") (field (codes "u.score")))
unfolding evaluation
forbidden_run = refl

abbrev builder : Builder
builder = record {
  cm = model;
  d = trino;
  req = request;
  dims = [];
  row_filter_groups =
      (record { dataset = codes "o"; predicate = codes "tenant = 'a'" } ∷ [])
      ∷ (record { dataset = codes "u"; predicate = codes "city = 'b'" } ∷ [])
      ∷ [];
}

abbrev both : List Text
both = codes "o" ∷ codes "u" ∷ []

both_join : join_tree model both ≡ ok (codes "o", edge ∷ [])
unfolding evaluation
both_join = refl

filters_required : (ds : Text) → Elem ds (group_datasets builder.row_filter_groups) → Elem ds both
unfolding evaluation
filters_required ds m = m

role_terms_exact_example :
    role_terms builder (in_tree (codes "o") (edge ∷ [])) builder.row_filter_groups
    ≡ ok (map (group_text builder) builder.row_filter_groups)
role_terms_exact_example =
    role_terms_exact builder both (codes "o") (edge ∷ []) both_join filters_required
      (refl, (refl, tt))

abbrev nothing_placed : Partition
nothing_placed = record { required = codes "u" ∷ []; inline = []; split = [] }

nothing-IsPartition : IsPartition (codes "u" ∷ []) [] nothing_placed
nothing-IsPartition = record {
  placed = λ m i. absurd i;
  requested = λ m i. elim i [ inl a ↦ absurd a | inr b ↦ absurd b ];
  ratios = λ m i. absurd i;
  keeps = λ ds i. i;
  covers = λ m r i j. absurd i;
}

partition-IsPartition_example :
    IsPartition
      (codes "u" ∷ [])
      (mean ∷ total ∷ [])
      (partition model nothing_placed (mean ∷ total ∷ []))
partition-IsPartition_example =
    partition-IsPartition model (codes "u" ∷ []) [] (mean ∷ total ∷ []) nothing_placed
      nothing-IsPartition

-- A ratio over `u` stays inline while `u` is the root; the metric over `o` that comes next makes `o`
-- the root, over which the ratio is not safe. In the other order the ratio is split.
ratio_first :
    partition model (record nothing_placed { required = [] }) (mean ∷ total ∷ [])
    ≡ record { required = codes "u" ∷ codes "o" ∷ []; inline = mean ∷ total ∷ []; split = [] }
unfolding evaluation
ratio_first = refl

ratio_first_root : both_safe mean.expr (codes "o") ≡ false
unfolding evaluation
ratio_first_root = refl

ratio_last :
    partition model (record nothing_placed { required = [] }) (total ∷ mean ∷ [])
    ≡ record { required = codes "o" ∷ []; inline = total ∷ []; split = mean ∷ [] }
unfolding evaluation
ratio_last = refl

order_run : resolve_order_by request ≡ ok (record { ordinal = 2; direction = codes "DESC" } ∷ [])
unfolding evaluation
order_run = refl

resolve_order_by-IsOrders_example :
    IsOrders
      (codes "u.city" ∷ codes "total" ∷ [])
      []
      request.order_by
      (record { ordinal = 2; direction = codes "DESC" } ∷ [])
resolve_order_by-IsOrders_example =
    resolve_order_by-IsOrders request (record { ordinal = 2; direction = codes "DESC" } ∷ [])
      order_run

-- An identifier that is already qualified does not stay as it is.
qualified_run : qualify_bare_columns (codes "a.b") (codes "t") same_text ≡ codes "a.t.b"
unfolding evaluation
qualified_run = refl

abbrev at_least : MetricFilter
at_least = record {
  metric = codes "total";
  op = codes ">=";
  value = int false 5;
  values = none;
  value_set = true;
  values_set = false;
}

abbrev at_least_total : MetricFilterSpec
at_least_total = record { filter = at_least; metric = total }

at_least_run : resolve_metric_filters (at_least ∷ []) (total ∷ mean ∷ []) ≡ ok (at_least_total ∷ [])
unfolding evaluation
at_least_run = refl

resolve_metric_filters-AreResolved_example :
    AreResolved (total ∷ mean ∷ []) (at_least ∷ []) (at_least_total ∷ [])
resolve_metric_filters-AreResolved_example =
    resolve_metric_filters-AreResolved (at_least ∷ []) (total ∷ mean ∷ []) (at_least_total ∷ [])
      at_least_run

-- The scope of a statement for two roles with filters.
scoped : (scope : Scope) × (scope_of builder both [] ≡ ok scope)
unfolding evaluation
scoped = (_, refl)

scope_of_restricted_example : Elem (roles_text builder) scoped.0.clauses
scope_of_restricted_example =
    scope_of_restricted builder both [] scoped.0 scoped.1 filters_required (refl, (refl, tt)) refl
