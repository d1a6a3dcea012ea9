-- ===== src/Expr/WellFormed.antt =====
-- internal/planner/expr/expr.go, `Parse`: what the planner relies on in a parsed metric.
use semantic_operator.Prelude.{
  Text, Bool, false, not, ◌&&◌, List, [], some, codes, is_nil, text_eq, text_eq_iff, contains,
  contains_iff, Elem, Result, ok, >>=-eq-ok, fail_if-eq-ok, ok_injective, ap, ◌==◌, ◌≡◌, ◌≢◌, arith,
  ◌∷◌, Bool-cases, inl, inr,
}
use mathlib.Core.Path.{subst}
use mathlib.Core.Option.{some-injective}
use semantic_operator.Prelude.Strings.{to_upper}
use semantic_operator.Errors.{Error}
use semantic_operator.Expr.{FieldRef, scan_refs}
use semantic_operator.Expr.Metric.{
  AggTerm, MetricExpr, agg_funcs, make_term, parse_term, parse_nullif, parse_denom, parse_rest,
  parse, skip_space, skip_number, read_ident, consume, balanced_argument, strip_distinct,
  trim_space,
}

-- A certified aggregate of a scalar that is not empty, whose references are those of a scan; only
-- `*` has none.
pub record IsTerm (t : AggTerm) : Type 0 where
  pub certified : Elem t.func agg_funcs
  pub not_empty : t.scalar ≢ []
  pub scanned : scan_refs t.scalar ≡ ok t.refs
  pub only_star : t.refs ≡ [] → t.scalar ≡ codes "*"

make_term-IsTerm :
    (fn : Text) (distinct : Bool) (inner : Text) (t : AggTerm)
    → Elem fn agg_funcs
    → make_term fn distinct inner ≡ ok t
    → IsTerm t
unfolding make_term
make_term-IsTerm fn distinct inner t m e =
    let (not_nil, e1) = fail_if-eq-ok (is_nil inner) _ _ e in
    let (refs, scan, e2) = >>=-eq-ok (scan_refs inner) _ e1 in
    let (star, e3) = fail_if-eq-ok (is_nil refs && not (text_eq inner (codes "*"))) _ _ e2 in
    of_parts refs not_nil scan star (ok_injective _ t e3)
  where
    of_parts :
        (refs : List FieldRef)
        → is_nil inner ≡ false
        → scan_refs inner ≡ ok refs
        → (is_nil refs && not (text_eq inner (codes "*"))) ≡ false
        → record { func = fn; distinct = distinct; scalar = inner; refs = refs } ≡ t
        → IsTerm t
    of_parts refs not_nil scan star e = rw (← e) (record {
      certified = m;
      not_empty = λ n. cc (rw n at not_nil);
      scanned = scan;
      only_star = λ n. (text_eq_iff inner (codes "*")).0 (ground arith);
    })

same-IsTerm :
    (u : AggTerm) (after : Text) (t : AggTerm) (rest : Text)
    → ◌≡◌ {A = Result Error (AggTerm × Text)} (ok (u, after)) (ok (t, rest))
    → IsTerm u
    → IsTerm t
same-IsTerm u after t rest e h = subst IsTerm (ap (λ p. p.0) (ok_injective _ _ e)) h

parse_term-IsTerm : (s : Text) (t : AggTerm) (rest : Text) → parse_term s ≡ ok (t, rest) → IsTerm t
unfolding parse_term
parse_term-IsTerm s t rest e =
    let ident = read_ident (skip_space s) in
    let fn = to_upper ident.0 in
    let (known, e1) = fail_if-eq-ok (not (contains agg_funcs fn)) _ _ e in
    let (open_at, _, e2) = >>=-eq-ok (consume b'(' (skip_space ident.1)) _ e1 in
    let (arg, _, e3) = >>=-eq-ok (balanced_argument open_at) _ e2 in
    let inner = strip_distinct (trim_space arg.0) in
    let (u, made, e4) = >>=-eq-ok (make_term fn inner.0 inner.1) _ e3 in
    same-IsTerm u arg.1 t rest e4
      (make_term-IsTerm fn inner.0 inner.1 u ((contains_iff agg_funcs fn).0 (ground arith)) made)

parse_nullif-IsTerm :
    (s : Text) (t : AggTerm) (rest : Text) → parse_nullif s ≡ ok (t, rest) → IsTerm t
unfolding parse_nullif
parse_nullif-IsTerm s t rest e =
    let (open_at, _, e1) = >>=-eq-ok (consume b'(' (skip_space s)) _ e in
    let (u, parsed, e2) = >>=-eq-ok (parse_term open_at) _ e1 in
    let (number_at, _, e3) = >>=-eq-ok (consume b',' (skip_space u.1)) _ e2 in
    let (after, _, e4) =
      >>=-eq-ok (consume b')' (skip_space (skip_number (skip_space number_at)))) _ e3 in
    same-IsTerm u.0 after t rest e4 (parse_term-IsTerm open_at u.0 u.1 parsed)

parse_denom-IsTerm :
    (s : Text) (t : AggTerm) (rest : Text) → parse_denom s ≡ ok (t, rest) → IsTerm t
unfolding parse_denom
parse_denom-IsTerm s t rest e =
    elim (Bool-cases (text_eq (to_upper (read_ident (skip_space s)).0) (codes "NULLIF"))) [
      | inl y ↦ parse_nullif-IsTerm (read_ident (skip_space s)).1 t rest (rw y at e)
      | inr n ↦ parse_term-IsTerm (skip_space s) t rest (rw n at e)
    ]

abbrev pub IsMetric : MetricExpr → Type 0
IsMetric m = IsTerm m.numerator × ((d : AggTerm) → m.denominator ≡ some d → IsTerm d)

parse_rest-IsTerm :
    (after : Text) (num : AggTerm) (m : MetricExpr)
    → IsTerm num
    → parse_rest num after ≡ ok m
    → IsMetric m
unfolding parse_rest
parse_rest-IsTerm [] num m h e = subst IsMetric (ok_injective _ m e) (h, λ d n. cc)
parse_rest-IsTerm (c ∷ after) num m h e =
    let (_, e1) = fail_if-eq-ok (not (c == b'/')) _ _ e in
    let (den, parsed, e2) = >>=-eq-ok (parse_denom after) _ e1 in
    let (_, e3) = fail_if-eq-ok (not (is_nil (skip_space den.1))) _ _ e2 in
    let t = parse_denom-IsTerm after den.0 den.1 parsed in
    subst IsMetric (ok_injective _ m e3) (h, λ d n. subst IsTerm (some-injective _ _ n) t)

-- The terms of a parsed metric: every term is a certified aggregate of a scalar that is not empty,
-- with exactly the references of a scan, and only `*` goes without a reference.
pub parse-IsTerm : (s : Text) (m : MetricExpr) → parse s ≡ ok m → IsMetric m
unfolding parse
parse-IsTerm s m e =
    let (num, parsed, e1) = >>=-eq-ok (parse_term s) _ e in
    parse_rest-IsTerm (skip_space num.1) num.0 m (parse_term-IsTerm s num.0 num.1 parsed) e1
