-- ===== src/Emitter/Tests.antt =====
-- Runs of the dialects, and instances of their theorems on hostile text.
use semantic_operator.Prelude.{Text, codes, ◌++◌, [], ◌≡◌, refl, ok, some}
use semantic_operator.Prelude.Strings.{replace_byte}
use semantic_operator.Emitter.{string, quoted, literal_with, decimal, decimal_digits, dotted}
use semantic_operator.Emitter.Trino
use semantic_operator.Emitter.Starrocks
use semantic_operator.Emitter.Reader.{read_from, no_escapes, backslash}
use semantic_operator.Emitter.Quoting.{trino_reads, starrocks_reads}

abbrev hostile : Text
hostile = codes "\\' OR `1`=\"1"

decimal_run : decimal 1205 ≡ codes "1205"
unfolding decimal_digits
decimal_run = refl

table_run :
    Trino.qualify_table (codes "a") (codes "b\"c") (codes "d") ≡ codes "\"a\".\"b\"\"c\".\"d\""
unfolding Trino.qualify_table Trino.quote_ident dotted quoted replace_byte
table_run = refl

trino_literal : Trino.literal (string hostile) ≡ ok (codes "'\\'' OR `1`=\"1'")
unfolding Trino.literal literal_with quoted replace_byte
trino_literal = refl

starrocks_literal : Starrocks.literal (string hostile) ≡ ok (codes "'\\\\'' OR `1`=\"1'")
unfolding Starrocks.literal literal_with quoted replace_byte
starrocks_literal = refl

trino_reads_example :
    (read_from no_escapes b'"' (Trino.quote_ident hostile ++ codes ".x")
      ≡ some (hostile, codes ".x"))
    × (read_from no_escapes b'\'' (codes "'\\'' OR `1`=\"1'" ++ codes ".x")
        ≡ some (hostile, codes ".x"))
trino_reads_example =
    trino_reads hostile (codes ".x") (codes "'\\'' OR `1`=\"1'") refl refl trino_literal

starrocks_reads_example :
    (read_from no_escapes b'`' (Starrocks.quote_ident hostile ++ []) ≡ some (hostile, []))
    × (read_from backslash b'\'' (codes "'\\\\'' OR `1`=\"1'" ++ []) ≡ some (hostile, []))
starrocks_reads_example =
    starrocks_reads hostile [] (codes "'\\\\'' OR `1`=\"1'") tt tt starrocks_literal
