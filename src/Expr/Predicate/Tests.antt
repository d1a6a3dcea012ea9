-- ===== src/Expr/Predicate/Tests.antt =====
-- Runs of the predicate parser, and instances of its theorems.
use semantic_operator.Prelude.{
  Text, List, [], ◌∷◌, codes, ok, err, ◌≡◌, ◌≢◌, ◌↔◌, true, false, refl, text_eq,
}
use semantic_operator.Prelude.Strings.{text_le}
use semantic_operator.Prelude.Sorting.{sort_by}
use semantic_operator.Governance.Claims.{sorted_unique}
use semantic_operator.Expr.Bytes.{is_ident_char, is_keyword}
use semantic_operator.Expr.Predicate.{
  Token, expected_literal, semicolon, comment, unterminated, function_call, trailing_input,
  out_of_fuel, tokenize, parse_predicate,
}
use semantic_operator.Expr.Predicate.Bounded.{is_bounded}
use semantic_operator.Expr.Predicate.Accepted.{IsParse, parse_predicate-eq-ok_iff}
use semantic_operator.Expr.Predicate.Outside.{parse_predicate-is_bounded, parse_predicate_ends}

abbrev sample : Text
sample = codes "NOT (b <= -1.5 OR a IN ('x;', TRUE)) and b is not null"

evaluation : Unit {0}
unfolding parse_predicate is_ident_char text_eq is_keyword sorted_unique sort_by text_le
evaluation = tt

sample_columns : parse_predicate sample ≡ ok (codes "a" ∷ codes "b" ∷ [])
unfolding evaluation
sample_columns = refl

subquery_fails : parse_predicate (codes "id IN (SELECT id FROM t)") ≡ err expected_literal
unfolding evaluation
subquery_fails = refl

call_fails : parse_predicate (codes "sleep(10) = 1") ≡ err function_call
unfolding evaluation
call_fails = refl

comment_fails : parse_predicate (codes "a = 1 -- and b = 2") ≡ err comment
unfolding evaluation
comment_fails = refl

two_statements_fail : parse_predicate (codes "a = 1; b") ≡ err semicolon
unfolding evaluation
two_statements_fail = refl

trailing_fails : parse_predicate (codes "a = 1 b = 2") ≡ err trailing_input
unfolding evaluation
trailing_fails = refl

open_quote_fails : parse_predicate (codes "a = 'x''") ≡ err unterminated
unfolding evaluation
open_quote_fails = refl

parse_predicate-eq-ok_iff_example :
    (parse_predicate sample ≡ ok (codes "a" ∷ codes "b" ∷ []))
    ↔ ((ts : List Token) × (tokenize sample ≡ ok ts) × IsParse ts (codes "a" ∷ codes "b" ∷ []))
parse_predicate-eq-ok_iff_example = parse_predicate-eq-ok_iff sample (codes "a" ∷ codes "b" ∷ [])

parse_predicate-is_bounded_example : is_bounded false sample ≡ true
parse_predicate-is_bounded_example =
    parse_predicate-is_bounded sample (codes "a" ∷ codes "b" ∷ []) sample_columns

parse_predicate_ends_example : parse_predicate sample ≢ err out_of_fuel
parse_predicate_ends_example = parse_predicate_ends sample
