-- ===== src/Planner/Compile/Tests.antt =====
-- A run of `Compile`, and an instance of its theorem.
use semantic_operator.Prelude.{
  Text, false, [], ◌∷◌, none, some, codes, lookup, traverse, text_eq, contains, ok, err, ◌≡◌, refl,
  any,
}
use semantic_operator.Prelude.Strings.{to_upper, has_prefix}
use semantic_operator.Errors.{bad_source}
use semantic_operator.Api.{
  SemanticModelSpec, Expression, ConnectionSpec, select, first_dialect, find_dialect,
}
use semantic_operator.Expr.{
  FieldRef, ref_string, scan_refs, scan_pieces, scan_piece, pieces, next_piece, word_piece,
  opens_call, read_literal,
}
use semantic_operator.Expr.Bytes.{
  is_digit, is_ident_start, is_ident_char, is_space, take_while, drop_while, is_keyword,
}
use semantic_operator.Expr.Metric.{
  parse, parse_term, parse_rest, parse_denom, parse_nullif, make_term, balanced_argument,
  read_balanced, read_ident, skip_space, skip_number, consume, strip_distinct, is_space_at,
  trim_space, trim_right, is_blank,
}
use semantic_operator.Planner.{CompiledMetric, CompiledModel}
use semantic_operator.Planner.Compile.{
  compile, compile_dataset, compile_field, compile_metric, compile_relationship, resolve_source,
  locate, split_first, selected, index_by, join_types, type_or_inner,
}
use semantic_operator.Planner.Compile.Compiled.{IsCompiled, compile-IsCompiled}

evaluation : Unit {0}
unfolding compile compile_dataset compile_field compile_metric compile_relationship resolve_source
    locate split_first selected index_by join_types type_or_inner select first_dialect find_dialect
    parse parse_term parse_rest parse_denom parse_nullif make_term balanced_argument read_balanced
    read_ident skip_space skip_number consume strip_distinct is_space_at trim_space trim_right
    is_blank scan_refs scan_pieces scan_piece pieces next_piece word_piece opens_call read_literal
    is_digit is_ident_start is_ident_char is_space take_while drop_while is_keyword ref_string
    to_upper has_prefix text_eq contains any lookup traverse
evaluation = tt

abbrev ansi : Text → Expression
ansi body = record { dialect = codes "ANSI_SQL"; expression = body } ∷ []

abbrev connection : ConnectionSpec
connection = record { catalog = codes "c"; database = codes "d"; view_database = [] }

abbrev spec : SemanticModelSpec
spec = record {
  connection = connection;
  ossie = record {
    name = codes "shop";
    datasets =
        record {
          name = codes "o";
          source = codes "raw.orders";
          primary_key = [];
          fields =
              record { name = codes "amount"; expression = ansi (codes "amt"); dimension = none }
              ∷ [];
        }
        ∷ [];
    relationships = [];
    metrics = record { name = codes "total"; expression = ansi (codes "SUM(o.amount)") } ∷ [];
  };
  governance = none;
  views = [];
  joins = [];
}

abbrev version : SemanticModelSpec → Text
version s = s.ossie.name

abbrev amount : FieldRef
amount = record { dataset = codes "o"; field = codes "amount" }

abbrev total : CompiledMetric
total = record {
  name = codes "total";
  raw = codes "SUM(o.amount)";
  expr = record {
    numerator = record {
      func = codes "SUM";
      distinct = false;
      scalar = codes "o.amount";
      refs = amount ∷ [];
    };
    denominator = none;
  };
}

abbrev shop : CompiledModel
shop = record {
  name = codes "shop";
  version = codes "shop";
  namespace = codes "ns";
  resource = codes "cr";
  connection = connection;
  datasets =
      (
        codes "o",
        record {
          name = codes "o";
          catalog = codes "c";
          database = codes "raw";
          table = codes "orders";
          primary_key = [];
          fields =
              (
                codes "amount",
                record {
                  name = codes "amount";
                  expr = codes "amt";
                  is_dimension = false;
                  is_time = false;
                },
              )
              ∷ [];
          field_order = codes "amount" ∷ [];
        },
      )
      ∷ [];
  dataset_order = codes "o" ∷ [];
  relationships = [];
  metrics = (codes "total", total) ∷ [];
  metric_order = codes "total" ∷ [];
  governance = none;
}

compile_run : compile version spec (codes "ns") (codes "cr") ≡ ok shop
unfolding evaluation
compile_run = refl

four_parts : resolve_source (codes "a.b.c.d") connection ≡ err (bad_source (codes "a.b.c.d"))
unfolding evaluation
four_parts = refl

total_found : lookup shop.metrics (codes "total") ≡ some total
unfolding evaluation
total_found = refl

compile-IsCompiled_example : IsCompiled spec (codes "total") total
compile-IsCompiled_example =
    compile-IsCompiled version spec (codes "ns") (codes "cr") shop (codes "total") total compile_run
      total_found
