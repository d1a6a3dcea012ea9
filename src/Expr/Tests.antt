-- ===== src/Expr/Tests.antt =====
-- Runs and instances of the theorems on expressions.
use semantic_operator.Prelude.{
  Text, true, false, List, [], ◌∷◌, some, codes, ◌≡◌, ◌↔◌, inl, inr, refl, Elem, ok, err, text_eq,
  contains,
}
use semantic_operator.Prelude.Strings.{to_upper, has_prefix}
use semantic_operator.Errors.{bare_identifier}
use semantic_operator.Expr.{
  FieldRef, ref_string, reference, pieces, pieces_of, scan_refs, scan_pieces, scan_piece,
  rewrite_refs, render_pieces, render_piece, next_piece, word_piece, opens_call, read_literal,
}
use semantic_operator.Expr.Bytes.{
  is_digit, is_ident_start, is_ident_char, is_space, take_while, drop_while, is_keyword,
}
use semantic_operator.Expr.Scan.{rewrite_refs_self}
use semantic_operator.Expr.References.{scan_refs-exact, rewrite_refs_agree}
use semantic_operator.Expr.Metric.{
  MetricExpr, parse, parse_term, parse_rest, parse_denom, parse_nullif, make_term,
  balanced_argument, read_balanced, read_ident, skip_space, skip_number, consume, strip_distinct,
  is_space_at, trim_space, trim_right, is_blank,
}
use semantic_operator.Expr.WellFormed.{IsMetric, parse-IsTerm}

abbrev scalar : Text
scalar = codes "coalesce(o.net, 'x.y') - o.tax"

abbrev net : FieldRef
net = record { dataset = codes "o"; field = codes "net" }

abbrev tax : FieldRef
tax = record { dataset = codes "o"; field = codes "tax" }

abbrev refs : List FieldRef
refs = net ∷ tax ∷ []

abbrev named : FieldRef → Text
named r = elim (text_eq r.field (codes "net")) [ true ↦ codes "t0.n" | false ↦ ref_string r ]

abbrev other : FieldRef → Text
other r = elim (text_eq r.dataset (codes "o")) [ true ↦ named r | false ↦ [] ]

scan_run : scan_refs scalar ≡ ok refs
unfolding scan_refs pieces scan_pieces scan_piece next_piece word_piece opens_call read_literal
    is_digit is_ident_start is_ident_char is_space take_while drop_while is_keyword to_upper
    contains text_eq ref_string
scan_run = refl

rewrite_run : rewrite_refs scalar named ≡ codes "coalesce(t0.n, 'x.y') - o.tax"
unfolding rewrite_refs render_pieces render_piece pieces next_piece word_piece opens_call
    read_literal is_digit is_ident_start is_ident_char is_space take_while drop_while is_keyword
    to_upper contains text_eq ref_string
rewrite_run = refl

bare_run : scan_refs (codes "o.net + tax") ≡ err (bare_identifier (codes "tax"))
unfolding scan_refs pieces scan_pieces scan_piece next_piece word_piece opens_call read_literal
    is_digit is_ident_start is_ident_char is_space take_while drop_while is_keyword to_upper
    contains text_eq ref_string
bare_run = refl

rewrite_refs_self_example : rewrite_refs scalar ref_string ≡ scalar
rewrite_refs_self_example = rewrite_refs_self scalar

scan_refs-exact_example : Elem net refs ↔ Elem (reference net) (pieces_of scalar)
scan_refs-exact_example = scan_refs-exact scalar refs net scan_run

same_names : (r : FieldRef) → Elem r refs → named r ≡ other r
unfolding text_eq
same_names r (inl e) = rw e refl
same_names r (inr (inl e)) = rw e refl
same_names r (inr (inr e)) = absurd e

rewrite_refs_agree_example : rewrite_refs scalar named ≡ rewrite_refs scalar other
rewrite_refs_agree_example = rewrite_refs_agree scalar refs named other scan_run same_names

abbrev rate : MetricExpr
rate = record {
  numerator = record {
    func = codes "SUM";
    distinct = false;
    scalar = codes "o.net";
    refs = net ∷ [];
  };
  denominator =
      some
        (record { func = codes "COUNT"; distinct = true; scalar = codes "o.tax"; refs = tax ∷ [] });
}

abbrev rate_text : Text
rate_text = codes "sum(o.net) / NULLIF(COUNT(distinct o.tax), 0)"

parse_run : parse rate_text ≡ ok rate
unfolding parse parse_term parse_rest parse_denom parse_nullif make_term balanced_argument
    read_balanced read_ident skip_space skip_number consume strip_distinct is_space_at trim_space
    trim_right is_blank has_prefix scan_refs pieces scan_pieces scan_piece next_piece word_piece
    opens_call read_literal is_digit is_ident_start is_ident_char is_space take_while drop_while
    is_keyword to_upper contains text_eq ref_string
parse_run = refl

parse-IsTerm_example : IsMetric rate
parse-IsTerm_example = parse-IsTerm rate_text rate parse_run
