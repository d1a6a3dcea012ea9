-- ===== src/Ossie.antt =====
-- internal/ossie/validate.go: `ValidateSpec`, as the list of the problems that it finds. A loop is a
-- recursion on its list with the index and what it has collected. The regular expression of a claim
-- placeholder and the order of a map's keys are parameters.
pub mod Cycles
pub mod Validate
use semantic_operator.Prelude.{
  Text, ℕ, suc, Bool, true, false, not, ◌&&◌, ◌||◌, ◌==◌, leb, ltb, List, [], ◌∷◌, ◌++◌, map,
  Option, none, some, codes, if◌then◌else◌, is_nil, length, text_eq, contains, Map, lookup, insert,
  Result, ok, err,
}
use semantic_operator.Prelude.Strings.{split_at_byte}
use semantic_operator.Errors.{Error}
use semantic_operator.Api.{
  ConnectionSpec, DialectExpression, Expression, Dimension, Field, Dataset, Relationship, Metric,
  RelationshipJoin, RowFilter, RolePolicy, GovernanceSpec, ViewSpec, SemanticModelSpec, select,
  find_field, role,
}
use semantic_operator.Governance.Claims.{Part, validatable_predicate}
use semantic_operator.Expr.{FieldRef}
use semantic_operator.Expr.Bytes.{is_space, drop_while}
use semantic_operator.Expr.Metric.{AggTerm, MetricExpr, denominator_refs, unique, parse}
use semantic_operator.Expr.Predicate.{Failure, parse_predicate}
use Cycles.{Marks, Stop, cycle, out_of_fuel, find_cycle}

-- One constructor for each call of `add`, with the values that its message names.
pub data Problem : Type 0 where
  model_unnamed no_connection no_datasets : Problem
  dataset_unnamed : ℕ → Problem
  dataset_duplicate dataset_no_source : Text → Problem
  field_unnamed : Text → ℕ → Problem
  field_duplicate field_no_expression : Text → Text → Problem
  relationship_unnamed : ℕ → Problem
  relationship_duplicate relationship_columns : Text → Problem
  relationship_from relationship_to : Text → Text → Problem
  relationship_cycle : List Text → Problem
  metric_unnamed : ℕ → Problem
  metric_duplicate metric_no_expression : Text → Problem
  metric_invalid : Text → Error → Problem
  metric_dataset metric_no_primary_key : Text → Text → Problem
  metric_field : Text → Text → Text → Problem
  provider_ref : Text → Problem
  role_unnamed : ℕ → Problem
  role_duplicate : Text → Problem
  role_deny_field role_filter_dataset role_filter_empty : Text → Text → Problem
  role_filter_template : Text → Text → Error → Problem
  role_filter_invalid : Text → Text → Failure → Problem
  default_role_unknown : Text → Problem
  view_unnamed : ℕ → Problem
  view_duplicate view_no_metric : Text → Problem
  view_metric view_dimension view_not_dimension view_role : Text → Text → Problem
  view_field : Text → Text → Text → Problem
  join_unknown join_duplicate join_type : ℕ → Text → Problem
  unfinished : Problem

-- `if bad { add(...) }`
unfoldable pub add_if : Bool → Problem → List Problem
add_if bad problem = if bad then problem ∷ [] else []

unfoldable pub is_none : {A : Type 0} → Option A → Bool
is_none none = true
is_none (some a) = false

-- `seen[name] = true`, where the round has not been left before.
unfoldable pub mark_named : Text → List Text → List Text
mark_named name seen = if is_nil name then seen else name ∷ seen

-- The keys that a loop over names leaves in its set.
unfoldable pub all_named : List Text → List Text → List Text
unfolding mark_named
all_named [] seen = seen
all_named (name ∷ names) seen = all_named names (mark_named name seen)

unfoldable pub field_problems : Text → ℕ → List Text → Field → List Problem
unfolding add_if is_none contains select
field_problems dataset j seen f =
    if is_nil f.name
    then field_unnamed dataset j ∷ []
    else add_if (contains seen f.name) (field_duplicate dataset f.name)
      ++ add_if (is_none (select f.expression)) (field_no_expression dataset f.name)

unfoldable pub fields_problems : Text → ℕ → List Text → List Field → List Problem
unfolding field_problems mark_named
fields_problems dataset j seen [] = []
fields_problems dataset j seen (f ∷ fs) =
    field_problems dataset j seen f ++ fields_problems dataset (suc j) (mark_named f.name seen) fs

-- The map `datasets` after one round, where a dataset without a name or with a name that is taken
-- is passed over.
unfoldable pub register : Dataset → Map Dataset → Map Dataset
unfolding lookup is_none
register d datasets =
    if is_nil d.name || not (is_none (lookup datasets d.name))
    then datasets
    else insert d.name d datasets

unfoldable pub register_all : List Dataset → Map Dataset → Map Dataset
unfolding register
register_all [] datasets = datasets
register_all (d ∷ ds) datasets = register_all ds (register d datasets)

unfoldable pub dataset_problems : ℕ → Map Dataset → Dataset → List Problem
unfolding lookup is_none add_if fields_problems
dataset_problems i datasets d =
    if is_nil d.name
    then dataset_unnamed i ∷ []
    else if not (is_none (lookup datasets d.name))
    then dataset_duplicate d.name ∷ []
    else add_if (is_nil d.source) (dataset_no_source d.name) ++ fields_problems d.name 0 [] d.fields

unfoldable pub datasets_problems : ℕ → Map Dataset → List Dataset → List Problem
unfolding dataset_problems register
datasets_problems i datasets [] = []
datasets_problems i datasets (d ∷ ds) =
    dataset_problems i datasets d ++ datasets_problems (suc i) (register d datasets) ds

unfoldable pub relationship_name_problems : ℕ → List Text → Text → List Problem
unfolding add_if contains
relationship_name_problems i seen name =
    if is_nil name
    then relationship_unnamed i ∷ []
    else add_if (contains seen name) (relationship_duplicate name)

unfoldable pub relationship_problems : Map Dataset → ℕ → List Text → Relationship → List Problem
unfolding relationship_name_problems lookup is_none add_if
relationship_problems datasets i seen r =
    relationship_name_problems i seen r.name
    ++ add_if (is_none (lookup datasets r.from)) (relationship_from r.name r.from)
    ++ add_if (is_none (lookup datasets r.to)) (relationship_to r.name r.to)
    ++ add_if (length r.from_columns == 0 || not (length r.from_columns == length r.to_columns))
        (relationship_columns r.name)

-- The name is marked even where it is empty.
unfoldable pub relationships_problems :
    Map Dataset → ℕ → List Text → List Relationship → List Problem
unfolding relationship_problems
relationships_problems datasets i seen [] = []
relationships_problems datasets i seen (r ∷ rs) =
    relationship_problems datasets i seen r
    ++ relationships_problems datasets (suc i) (r.name ∷ seen) rs

unfoldable pub edges_of : List Relationship → List (Text × Text)
edges_of [] = []
edges_of (r ∷ rs) = (r.from, r.to) ∷ edges_of rs

unfoldable pub cycle_problems : Result Stop Marks → List Problem
cycle_problems (ok s) = []
cycle_problems (err (cycle c)) = relationship_cycle c ∷ []
cycle_problems (err out_of_fuel) = unfinished ∷ []

-- `splitRef`
unfoldable pub split_field_ref : Text → Option (Text × Text)
unfolding split_at_byte
split_field_ref s = elim (split_at_byte b'.' s) [
  | none ↦ none
  | some (dataset, name) ↦ if is_nil dataset || is_nil name then none else some (dataset, name)
]
