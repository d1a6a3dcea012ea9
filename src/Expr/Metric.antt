-- ===== src/Expr/Metric.antt =====
-- The metric grammar of expr.go. A parser position is the text from there on; error offsets are
-- left out.
use semantic_operator.Prelude.{
  Text, ℕ, ◌+◌, ◌-◌, Bool, true, false, not, ◌&&◌, ◌||◌, List, [], ◌∷◌, ◌++◌, map, Option, none,
  some, codes, if◌then◌else◌, ◌==◌, ltb, leb, is_nil, length, get_elem?, text_eq, contains, Result,
  ok, err, ◌>>=◌, ◌>>◌, fail_if,
}
use semantic_operator.Prelude.Lists.{drop}
use semantic_operator.Prelude.Strings.{to_upper, has_prefix}
use semantic_operator.Prelude.Sorting.{sort_by}
use semantic_operator.Errors.{
  Error, expected_aggregate, expected_byte, unexpected_byte, unbalanced, trailing_input,
  empty_argument, no_reference,
}
use semantic_operator.Expr.{FieldRef, scan_refs}
use semantic_operator.Expr.Bytes.{is_ident_char, is_space, is_digit, take_while, drop_while}

pub record AggTerm : Type 0 where
  pub func : Text
  pub distinct : Bool
  pub scalar : Text
  pub refs : List FieldRef

pub record MetricExpr : Type 0 where
  pub numerator : AggTerm
  pub denominator : Option AggTerm

abbrev pub denominator_refs : Option AggTerm → List FieldRef
denominator_refs none = []
denominator_refs (some t) = t.refs

-- The keys of a set that is filled in a loop.
unfoldable pub unique : List Text → List Text → List Text
unique seen [] = seen
unique seen (d ∷ ds) = unique (if contains seen d then seen else seen ++ d ∷ []) ds

-- `MetricExpr.Datasets`
unfoldable pub datasets : MetricExpr → List Text
unfolding unique
datasets m =
    sort_by (λ d. d)
      (unique []
        (map (λ (r : FieldRef). r.dataset) (m.numerator.refs ++ denominator_refs m.denominator)))

abbrev pub agg_funcs : List Text
agg_funcs = codes "SUM" ∷ codes "COUNT" ∷ codes "AVG" ∷ codes "MIN" ∷ codes "MAX" ∷ []

unfoldable pub skip_space : Text → Text
skip_space s = drop_while is_space s

-- `readIdent`: the identifier and the rest.
unfoldable pub read_ident : Text → Text × Text
unfolding skip_space
read_ident s = (take_while is_ident_char (skip_space s), drop_while is_ident_char (skip_space s))

unfoldable pub consume : ℕ → Text → Result Error Text
consume b [] = err (expected_byte b)
consume b (c ∷ s) = if c == b then ok s else err (expected_byte b)

-- `readNumber` only moves the position.
unfoldable pub skip_number : Text → Text
skip_number s = drop_while (λ c. is_digit c || c == b'.' || c == b'-') s

-- `readBalanced`: the flag says that the position is inside a string literal.
unfoldable pub read_balanced : Bool → ℕ → Text → Option (Text × Text)
read_balanced quoted depth [] = none
read_balanced quoted depth (c ∷ s) =
    let quoted' = if c == b'\'' then not quoted else quoted in
    let depth' =
      if quoted
      then depth
      else if c == b'('
      then depth + 1
      else if c == b')'
      then depth - 1
      else depth in
    let rest = read_balanced quoted' depth' s in
    if not quoted && c == b')' && depth == 1
    then some ([], s)
    else elim rest [ none ↦ none | some (inner, after) ↦ some (c ∷ inner, after) ]

-- ASCII white space, as `strings.TrimSpace` takes it off.
unfoldable pub is_blank : ℕ → Bool
is_blank c = leb 9 c && leb c 13 || c == 32

unfoldable pub trim_right : Text → Text
trim_right [] = []
trim_right (c ∷ s) = let rest = trim_right s in if is_nil rest && is_blank c then [] else c ∷ rest

unfoldable pub trim_space : Text → Text
unfolding trim_right is_blank
trim_space s = trim_right (drop_while is_blank s)

-- A `DISTINCT` before white space, and the scalar behind it.
unfoldable pub is_space_at : ℕ → Text → Bool
is_space_at i s = elim (get_elem? s i) [ none ↦ false | some c ↦ is_space c ]

unfoldable pub strip_distinct : Text → Bool × Text
unfolding is_space_at
strip_distinct inner =
    if has_prefix (to_upper inner) (codes "DISTINCT") && ltb 8 (length inner) && is_space_at 8 inner
    then (true, trim_space (drop 8 inner))
    else (false, inner)

-- The end of `parseTerm`, on the trimmed argument.
unfoldable pub make_term : Text → Bool → Text → Result Error AggTerm
make_term fn distinct inner = do
  fail_if (is_nil inner) (empty_argument fn)
  refs ← scan_refs inner
  fail_if (is_nil refs && not (text_eq inner (codes "*"))) (no_reference inner)
  ok (record { func = fn; distinct = distinct; scalar = inner; refs = refs })

unfoldable pub balanced_argument : Text → Result Error (Text × Text)
balanced_argument s = elim (read_balanced false 1 s) [ none ↦ err unbalanced | some r ↦ ok r ]

-- `parseTerm`
unfoldable pub parse_term : Text → Result Error (AggTerm × Text)
parse_term s = do
  let ident = read_ident (skip_space s)
  let fn = to_upper ident.0
  fail_if (not (contains agg_funcs fn)) (expected_aggregate fn)
  open_at ← consume b'(' (skip_space ident.1)
  arg ← balanced_argument open_at
  let inner = strip_distinct (trim_space arg.0)
  t ← make_term fn inner.0 inner.1
  ok (t, arg.1)

-- The `NULLIF` branch of `parseDenom`, behind the word.
unfoldable pub parse_nullif : Text → Result Error (AggTerm × Text)
parse_nullif s = do
  open_at ← consume b'(' (skip_space s)
  t ← parse_term open_at
  number_at ← consume b',' (skip_space t.1)
  rest ← consume b')' (skip_space (skip_number (skip_space number_at)))
  ok (t.0, rest)

unfoldable pub parse_denom : Text → Result Error (AggTerm × Text)
parse_denom s =
    let ident = read_ident (skip_space s) in
    if text_eq (to_upper ident.0) (codes "NULLIF")
    then parse_nullif ident.1
    else parse_term (skip_space s)

-- What follows the numerator in `Parse`.
unfoldable pub parse_rest : AggTerm → Text → Result Error MetricExpr
parse_rest num [] = ok (record { numerator = num; denominator = none })
parse_rest num (c ∷ s) = do
  fail_if (not (c == b'/')) (unexpected_byte c)
  den ← parse_denom s
  fail_if (not (is_nil (skip_space den.1))) trailing_input
  ok (record { numerator = num; denominator = some den.0 })

-- `Parse`
unfoldable pub parse : Text → Result Error MetricExpr
parse s = do num ← parse_term s; parse_rest num.0 (skip_space num.1)
