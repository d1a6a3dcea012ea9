-- ===== src/Emitter/Trino.antt =====
-- internal/emitter/trino: the Trino dialect.
use semantic_operator.Prelude.{Text, ◌++◌, codes, Result}
use semantic_operator.Errors.{Error}
use semantic_operator.Emitter.{Value, Dialect, quoted, dotted, literal_with, date_trunc}

unfoldable pub quote_ident : Text → Text
quote_ident ident = quoted b'"' ident

unfoldable pub qualify_table : Text → Text → Text → Text
qualify_table catalog database table = dotted quote_ident catalog database table

unfoldable pub literal : Value → Result Error Text
literal v = literal_with (quoted b'\'') (λ t. codes "TIMESTAMP '" ++ t ++ codes "'") v

unfoldable pub null_safe_eq : Text → Text → Text
null_safe_eq a b = a ++ codes " IS NOT DISTINCT FROM " ++ b

unfoldable pub create_schema : Text → Text
create_schema s = codes "CREATE SCHEMA IF NOT EXISTS " ++ s

abbrev pub trino : Dialect
trino = record {
  name = codes "trino";
  quote_ident = quote_ident;
  qualify_table = qualify_table;
  literal = literal;
  date_trunc = date_trunc;
  null_safe_eq = null_safe_eq;
  create_schema = create_schema;
}
