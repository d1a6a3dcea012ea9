-- ===== src/Emitter/Starrocks.antt =====
-- internal/emitter/starrocks: the StarRocks dialect.
use semantic_operator.Prelude.{Text, ◌∷◌, ◌++◌, codes, [], Result}
use semantic_operator.Prelude.Strings.{replace_byte}
use semantic_operator.Errors.{Error}
use semantic_operator.Emitter.{Value, Dialect, quoted, dotted, literal_with, date_trunc}

unfoldable pub quote_ident : Text → Text
quote_ident ident = quoted b'`' ident

unfoldable pub qualify_table : Text → Text → Text → Text
qualify_table catalog database table = dotted quote_ident catalog database table

-- Backslashes are doubled before the quotes are.
unfoldable pub literal : Value → Result Error Text
literal v =
    literal_with (λ s. quoted b'\'' (replace_byte b'\\' (b'\\' ∷ b'\\' ∷ []) s))
      (λ t. codes "'" ++ t ++ codes "'") v

unfoldable pub null_safe_eq : Text → Text → Text
null_safe_eq a b = a ++ codes " <=> " ++ b

unfoldable pub create_schema : Text → Text
create_schema s = codes "CREATE DATABASE IF NOT EXISTS " ++ s

abbrev pub starrocks : Dialect
starrocks = record {
  name = codes "starrocks";
  quote_ident = quote_ident;
  qualify_table = qualify_table;
  literal = literal;
  date_trunc = date_trunc;
  null_safe_eq = null_safe_eq;
  create_schema = create_schema;
}
