-- ===== src/Ossie/Validate/Tests.antt =====
-- Runs of the validation, and instances of its theorems.
use semantic_operator.Prelude.{
  Text, false, List, [], ◌∷◌, map, none, some, codes, ok, refl, ◌≡◌, All,
}
use semantic_operator.Prelude.Lists.{Elem-map, Elem-map_inv}
use semantic_operator.Prelude.{lookup, traverse, text_eq, contains, any, all}
use semantic_operator.Prelude.Sorting.{sort_by}
use semantic_operator.Prelude.Strings.{split_at_byte, to_upper, has_prefix, text_le}
use semantic_operator.Expr.{
  ref_string, scan_refs, scan_pieces, scan_piece, pieces, next_piece, word_piece, opens_call,
  read_literal,
}
use semantic_operator.Expr.Bytes.{
  is_digit, is_ident_start, is_ident_char, is_space, take_while, drop_while, is_keyword,
}
use semantic_operator.Expr.Metric.{
  parse, parse_term, parse_rest, parse_denom, parse_nullif, make_term, balanced_argument,
  read_balanced, read_ident, skip_space, skip_number, consume, strip_distinct, is_space_at,
  trim_space, trim_right, is_blank, unique,
}
use semantic_operator.Ossie.Cycles.{find_cycle}
use semantic_operator.Api.{
  Expression, Dataset, Field, SemanticModelSpec, ViewSpec, Relationship, select, first_dialect,
  find_dialect, find_field, find_role, role,
}
use semantic_operator.Governance.Claims.{Part, plain, claim, validatable_predicate, sorted_unique}
use semantic_operator.Expr.Predicate.{parse_predicate}
use semantic_operator.Planner.{CompiledModel}
use semantic_operator.Planner.Compile.{compile, resolve_source, locate, split_first}
use semantic_operator.Ossie.{relationship_cycle, join_unknown}
use semantic_operator.Ossie.Cycles.Acyclic.{IsKeyOrder}
use semantic_operator.Ossie.Validate.{validate_spec}
use semantic_operator.Ossie.Validate.Valid.{HasPlace, validate_spec-compile}

abbrev in_order : List (Text × Text) → List Text
in_order edges = map (λ (e : Text × Text). e.0) edges

in_order-IsKeyOrder : (edges : List (Text × Text)) → IsKeyOrder edges (in_order edges)
in_order-IsKeyOrder edges n = (
  λ m. let ((a, b), l, e) = Elem-map_inv (λ (e : Text × Text). e.0) n edges m in (b, rw e l),
  λ (m, l). Elem-map (λ (e : Text × Text). e.0) (n, m) edges l,
)

-- A template with one claim, behind a dollar sign.
abbrev after_dollar : Text → List Part
after_dollar s = elim (split_at_byte b'$' s) [
  | none ↦ plain s ∷ []
  | some (l, r) ↦ plain l ∷ claim r ∷ []
]

abbrev ansi : Text → Expression
ansi body = record { dialect = codes "ANSI_SQL"; expression = body } ∷ []

abbrev dimension : Text → Field
dimension name = record {
  name = name;
  expression = ansi name;
  dimension = some (record { is_time = false });
}

abbrev dataset : Text → Text → Dataset
dataset name column = record {
  name = name;
  source = name;
  primary_key = [];
  fields = dimension column ∷ [];
}

abbrev view : ViewSpec
view = record {
  name = codes "v";
  metrics = codes "total" ∷ [];
  dimensions = codes "u.city" ∷ [];
  filters = [];
  time_grain = [];
  role = codes "analyst";
}

abbrev link : Text → Text → Text → Relationship
link name from to = record {
  name = name;
  from = from;
  to = to;
  from_columns = codes "k" ∷ [];
  to_columns = codes "k" ∷ [];
}

abbrev model : List Relationship → SemanticModelSpec
model relationships = record {
  connection = record { catalog = codes "c"; database = codes "d"; view_database = [] };
  ossie = record {
    name = codes "shop";
    datasets = dataset (codes "o") (codes "amount") ∷ dataset (codes "u") (codes "city") ∷ [];
    relationships = relationships;
    metrics = record { name = codes "total"; expression = ansi (codes "SUM(o.amount)") } ∷ [];
  };
  governance = some (record {
    default_role = codes "analyst";
    roles =
        record {
          name = codes "analyst";
          allow_metrics = [];
          deny_fields = codes "u.city" ∷ [];
          row_filters = record { dataset = codes "u"; predicate = codes "city = $city" } ∷ [];
        }
        ∷ [];
    external = some (codes "opa-1");
  });
  views = view ∷ [];
  joins = record { relationship = codes "ou"; type = codes "LEFT" } ∷ [];
}

abbrev spec : SemanticModelSpec
spec = model (link (codes "ou") (codes "o") (codes "u") ∷ [])

evaluation : Unit {0}
unfolding validate_spec select first_dialect find_dialect find_field find_role role parse parse_term
    parse_rest parse_denom parse_nullif make_term balanced_argument read_balanced read_ident
    skip_space skip_number consume strip_distinct is_space_at trim_space trim_right is_blank
    scan_refs scan_pieces scan_piece pieces next_piece word_piece opens_call read_literal is_digit
    is_ident_start is_ident_char is_space take_while drop_while is_keyword ref_string to_upper
    has_prefix split_at_byte text_eq contains any all lookup traverse parse_predicate sorted_unique
    sort_by text_le validatable_predicate find_cycle unique
evaluation = tt

no_problem : validate_spec after_dollar in_order spec ≡ []
unfolding evaluation
no_problem = refl

-- Two relationships that lead back, and a join type for one that is not there.
ring_problems :
    validate_spec after_dollar in_order (
      model
        (link (codes "x") (codes "o") (codes "u") ∷ link (codes "y") (codes "u") (codes "o") ∷ []))
    ≡ relationship_cycle (codes "o" ∷ codes "u" ∷ codes "o" ∷ []) ∷ join_unknown 0 (codes "ou") ∷ []
unfolding evaluation
ring_problems = refl

abbrev version : SemanticModelSpec → Text
version s = s.ossie.name

spec_places : All (HasPlace spec.connection) spec.ossie.datasets
unfolding resolve_source locate split_first
spec_places =
    (((codes "c", codes "d", codes "o"), refl), (((codes "c", codes "d", codes "u"), refl), tt))

validate_spec-compile_example :
    (cm : CompiledModel) × (compile version spec (codes "ns") (codes "cr") ≡ ok cm)
validate_spec-compile_example =
    validate_spec-compile after_dollar in_order version spec (codes "ns") (codes "cr")
      in_order-IsKeyOrder no_problem spec_places
