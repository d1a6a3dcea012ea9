-- ===== src/Expr/Predicate/Complete.antt =====
-- What is in the grammar of predicates, the parser reads to its end.
use semantic_operator.Prelude.{
  Text, ℕ, zero, suc, ◌≤◌, true, false, List, [], ◌∷◌, ◌++◌, codes, length, ◌≡◌, inl, inr, refl,
  ◌∙◌, arith, text_eq, text_eq_iff, contains, Bool-cases, append_assoc, ok,
}
use semantic_operator.Prelude.Strings.{to_upper}
use semantic_operator.Prelude.Lists.{any}
use semantic_operator.Expr.Bytes.{is_keyword}
use semantic_operator.Expr.Predicate.{
  Token, ident, quoted, number, op, left_paren, right_paren, comma, Parser, at_kw, skip_kw,
  is_literal, parse_literal, parse_string_literal, list_loop, parse_in_list, parse_null,
  parse_negated, parse_keyword, parse_condition, at_open, parse_comparison, parse_close,
  parse_primary, parse_not, parse_while, parse_chain, parse_and, parse_or,
}
use semantic_operator.Expr.Predicate.Grammar.{
  IsLiteral, Listed, list_end, list_item, Matching, in_list, like, Condition, compared, matching,
  not_matching, is_null, is_not_null, Joiner, conj, disj, keyword, Phrase, primary, negation, chain,
  more, operand, Derives, comparison, nested, plain, negated, chained, joined, ended,
  operand-shorter,
}

IsLiteral-is_literal : (t : Token) → IsLiteral t → is_literal t ≡ true
unfolding is_literal at_kw
IsLiteral-is_literal (quoted v) h = refl
IsLiteral-is_literal (number v) h = refl
IsLiteral-is_literal (ident w) h = ground (
  arith,
  text_eq_iff (to_upper w) (codes "TRUE"),
  text_eq_iff (to_upper w) (codes "FALSE"),
  text_eq_iff (to_upper w) (codes "NULL"),
)
IsLiteral-is_literal (op v) h = absurd h
IsLiteral-is_literal left_paren h = absurd h
IsLiteral-is_literal right_paren h = absurd h
IsLiteral-is_literal comma h = absurd h

list_loop-eq : {ts us : List Token} → Listed ts us → list_loop ts ≡ ok us
unfolding list_loop
list_loop-eq list_end = refl
list_loop-eq (list_item {t} l h) = rw (IsLiteral-is_literal t l, list_loop) (list_loop-eq h)

at_kw-eq : (kw w : Text) (ts : List Token) → to_upper w ≡ kw → at_kw kw (ident w ∷ ts) ≡ true
unfolding at_kw
at_kw-eq kw w ts e = (text_eq_iff (to_upper w) kw).1 e

parse_in_list-eq :
    (t : Token) {ts us : List Token}
    → IsLiteral t
    → Listed ts us
    → parse_in_list (left_paren ∷ t ∷ ts) ≡ ok us
unfolding parse_in_list parse_literal
parse_in_list-eq t l h =
    rw (IsLiteral-is_literal t l, parse_in_list, parse_literal) (list_loop-eq h)

parse_negated-eq : {ts us : List Token} → Matching ts us → parse_negated ts ≡ ok us
unfolding parse_negated at_kw text_eq parse_string_literal
parse_negated-eq (in_list {w} {t} e l h) = rw (e, parse_negated, at_kw) (parse_in_list-eq t l h)
parse_negated-eq (like e) = rw (e, parse_negated, at_kw) (rw (e, at_kw) refl)

parse_condition-Matching : {ts us : List Token} → Matching ts us → parse_condition ts ≡ ok us
unfolding parse_condition parse_keyword text_eq parse_string_literal
parse_condition-Matching (in_list {w} {t} e l h) =
    rw (e, parse_condition, parse_keyword) (parse_in_list-eq t l h)
parse_condition-Matching (like e) = rw (e, parse_condition, parse_keyword) refl

parse_null-eq :
    (w : Text) (ts : List Token) → to_upper w ≡ codes "NULL" → parse_null (ident w ∷ ts) ≡ ok ts
unfolding parse_null at_kw text_eq
parse_null-eq w ts e = rw (e, parse_null, at_kw) refl

skip_kw-skips : (kw w : Text) (ts : List Token) → to_upper w ≡ kw → skip_kw kw (ident w ∷ ts) ≡ ts
unfolding skip_kw
skip_kw-skips kw w ts e = rw (at_kw-eq kw w ts e, skip_kw) refl

skip_kw-keeps :
    (kw w : Text) (ts : List Token)
    → text_eq (to_upper w) kw ≡ false
    → skip_kw kw (ident w ∷ ts) ≡ ident w ∷ ts
unfolding skip_kw at_kw
skip_kw-keeps kw w ts e = rw (e, skip_kw, at_kw) refl

parse_condition-eq : {ts us : List Token} → Condition ts us → parse_condition ts ≡ ok us
unfolding parse_condition parse_literal parse_keyword text_eq
parse_condition-eq (compared {t} l) =
    rw (IsLiteral-is_literal t l, parse_condition, parse_literal) refl
parse_condition-eq (matching m) = parse_condition-Matching m
parse_condition-eq (not_matching e m) = rw (e, parse_condition, parse_keyword) (parse_negated-eq m)
parse_condition-eq (is_null {w} {ts} e k) =
    rw (e, parse_condition, parse_keyword)
      (rw (skip_kw-keeps (codes "NOT") w ts (rw k refl)) (parse_null-eq w ts k))
parse_condition-eq (is_not_null {n} {w} {ts} e q k) =
    rw (e, parse_condition, parse_keyword)
      (rw (skip_kw-skips (codes "NOT") n (ident w ∷ ts) q) (parse_null-eq w ts k))

Condition-at_open : {ts us : List Token} → Condition ts us → at_open ts ≡ false
unfolding at_open
Condition-at_open (compared l) = refl
Condition-at_open (matching (in_list e l h)) = refl
Condition-at_open (matching (like e)) = refl
Condition-at_open (not_matching e m) = refl
Condition-at_open (is_null e h) = refl
Condition-at_open (is_not_null e k h) = refl

is_keyword-not : (w : Text) → is_keyword w ≡ false → text_eq (to_upper w) (codes "NOT") ≡ false
unfolding is_keyword contains any text_eq
is_keyword-not w k = elim (Bool-cases (text_eq (to_upper w) (codes "NOT"))) [
  | inl e ↦ absurd (true_ne_false (rw ((text_eq_iff (to_upper w) (codes "NOT")).0 e) at k))
  | inr e ↦ e
]
  where
    true_ne_false : true ≡ false → ⊥
    true_ne_false h = cc

-- No phrase can go on with the tokens that follow.
abbrev Ends : Phrase → List Token → Type 0
Ends primary us = Unit
Ends negation us = Unit
Ends (chain conj) us = at_kw (codes "AND") us ≡ false
Ends (more conj) us = at_kw (codes "AND") us ≡ false
Ends (chain disj) us = (at_kw (codes "AND") us ≡ false) × (at_kw (codes "OR") us ≡ false)
Ends (more disj) us = (at_kw (codes "AND") us ≡ false) × (at_kw (codes "OR") us ≡ false)

Ends-more : (j : Joiner) (us : List Token) → Ends (chain j) us → Ends (more j) us
Ends-more conj us h = h
Ends-more disj us h = h

Ends-at_kw : (j : Joiner) (us : List Token) → Ends (more j) us → at_kw (keyword j) us ≡ false
Ends-at_kw conj us h = h
Ends-at_kw disj us h = h.1

Ends-operand :
    (j : Joiner) {us vs : List Token} {ds : List Text}
    → Derives (more j) us vs ds
    → Ends (more j) vs
    → Ends (operand j) us
unfolding at_kw text_eq
Ends-operand conj d h = tt
Ends-operand disj ended h = h.0
Ends-operand disj (joined e d m) h = rw (e, at_kw) refl

unfoldable item : ℕ → Joiner → Parser
item n conj = parse_not (parse_or n)
item n disj = parse_and (parse_or n)

abbrev reader : ℕ → Phrase → Parser
reader n primary = parse_primary (parse_or n)
reader n negation = parse_not (parse_or n)
reader n (chain j) = parse_chain (keyword j) (item n j)
reader n (more j) = λ ts. parse_while (keyword j) (item n j) (length ts) ts

abbrev IsRead : ℕ → Phrase → List Token → List Token → List Text → List Text → Type 0
IsRead n (more j) ts us cs columns =
    (m : ℕ)
    → length ts ≤ m
    → parse_while (keyword j) (item n j) m ts columns ≡ ok (us, cs ++ columns)
IsRead n p ts us cs columns = reader n p ts columns ≡ ok (us, cs ++ columns)

parse_not-plain :
    (n : ℕ) {ts us : List Token} {cs : List Text} (columns : List Text)
    → Derives primary ts us cs
    → parse_not (parse_or n) ts columns ≡ parse_primary (parse_or n) ts columns
unfolding parse_not
parse_not-plain n columns (comparison {w} {ts} k c) =
    rw (skip_kw-keeps (codes "NOT") w ts (is_keyword-not w k)) refl
parse_not-plain n columns (nested d) = refl

reader-operand :
    (n : ℕ) (j : Joiner) (ts us : List Token) (cs columns : List Text)
    → IsRead n (operand j) ts us cs columns
    → item n j ts columns ≡ ok (us, cs ++ columns)
unfolding item parse_and
reader-operand n conj ts us cs columns h = h
reader-operand n disj ts us cs columns h = h

module _ (kw : Text) (f : Parser) (columns : List Text) where
  parse_while-stops :
      (m : ℕ) (ts : List Token)
      → at_kw kw ts ≡ false
      → parse_while kw f m ts columns ≡ ok (ts, columns)
  unfolding parse_while
  parse_while-stops zero ts e = rw (e, parse_while) refl
  parse_while-stops (suc m) ts e = rw (e, parse_while) refl

  parse_while-goes :
      (m : ℕ) (w : Text) {ts us : List Token} {cs : List Text}
      → to_upper w ≡ kw
      → suc (length ts) ≤ m
      → f ts columns ≡ ok (us, cs)
      → (k : ℕ) × (length ts ≤ k)
        × (parse_while kw f m (ident w ∷ ts) columns ≡ parse_while kw f k us cs)
  unfolding parse_while
  parse_while-goes zero w q l e = absurd (omega arith)
  parse_while-goes (suc k) w {ts} q l e =
      (k, omega arith, rw (at_kw-eq kw w ts q, parse_while) (rw e refl))

Derives-IsRead :
    (n : ℕ) {p : Phrase} {ts us : List Token} {cs : List Text} (columns : List Text)
    → Derives p ts us cs
    → length ts ≤ n
    → Ends p us
    → IsRead n p ts us cs columns
unfolding parse_primary parse_not parse_chain parse_close parse_comparison parse_or item at_kw
Derives-IsRead n columns (comparison {w} {ts} k c) h e =
    rw (k, Condition-at_open c, parse_condition-eq c, parse_comparison) refl
Derives-IsRead zero columns (nested d) h e = absurd (omega arith)
Derives-IsRead (suc n) columns (nested {ts} {us} {cs} d) h e =
    rw (Derives-IsRead n columns d (omega arith) (refl, refl), parse_or) refl
Derives-IsRead n columns (plain d) h e =
    parse_not-plain n columns d ∙ Derives-IsRead n columns d h tt
Derives-IsRead n columns (negated {w} {ts} q d) h e =
    rw (skip_kw-skips (codes "NOT") w ts q, parse_not) (Derives-IsRead n columns d (omega arith) tt)
Derives-IsRead n columns (chained {j} {ts} {us} {vs} {cs} {ds} d m) h e =
    let head =
      reader-operand n j ts us cs columns
        (Derives-IsRead n columns d h (Ends-operand j m (Ends-more j vs e))) in
    rw (head, parse_chain, append_assoc)
      (Derives-IsRead n (cs ++ columns) m (omega (arith, operand-shorter j d)) (Ends-more j vs e)
        (length us) (omega arith))
Derives-IsRead n columns (joined {j} {w} {ts} {us} {vs} {cs} {ds} q d m) h e =
    let head =
      reader-operand n j ts us cs columns
        (Derives-IsRead n columns d (omega arith) (Ends-operand j m e)) in
    λ k l.
      let (i, b, t) = parse_while-goes (keyword j) (item n j) columns k w q l head in
      t
      ∙ rw append_assoc (
          Derives-IsRead n (cs ++ columns) m (omega (arith, operand-shorter j d)) e i
            (omega (arith, operand-shorter j d)))
Derives-IsRead n columns (ended {j} {ts}) h e =
    λ k l. parse_while-stops (keyword j) (item n j) columns k ts (Ends-at_kw j ts e)

-- The parser reads a whole predicate to the end.
pub parse_or-eq :
    (n : ℕ) {ts : List Token} {cs : List Text}
    → Derives (chain disj) ts [] cs
    → length ts ≤ n
    → parse_or (suc n) ts [] ≡ ok ([], cs ++ [])
unfolding parse_or item at_kw
parse_or-eq n d h = Derives-IsRead n [] d h (refl, refl)
