-- ===== src/Expr/Predicate/Accepted.antt =====
-- `ParsePredicate` as a whole.
use semantic_operator.Prelude.{
  Text, suc, true, false, List, [], ◌∷◌, ◌++◌, length, is_nil, ◌≡◌, ◌↔◌, refl, arith, ok, ◌>>◌,
  fail_if, append-nil, >>=-eq-ok,
}
use semantic_operator.Prelude.Ensures.{holds, rejected, Ensures->>=, Ensures-fail_if, Ensures-ok}
use semantic_operator.Governance.Claims.{sorted_unique}
use semantic_operator.Expr.Predicate.{Token, Failure, parse_tokens, parse_predicate, tokenize}
use semantic_operator.Expr.Predicate.Grammar.{
  Joiner, operand, Phrase, chain, more, conj, disj, Derives, comparison, nested, plain, negated,
  chained, joined, ended,
}
use semantic_operator.Expr.Predicate.Sound.{Gives, parse_or-IsReader}
use semantic_operator.Expr.Predicate.Complete.{parse_or-eq}

-- A parse of all the tokens, and the columns that it gives.
abbrev pub IsParse : List Token → List Text → Type 0
IsParse ts names = (cs : List Text) × Derives (chain disj) ts [] cs × (names ≡ sorted_unique cs)

pub parse_tokens-Gives : (ts : List Token) → Gives (IsParse ts) (parse_tokens ts)
unfolding parse_tokens
parse_tokens-Gives ts =
    Ensures->>= (parse_or-IsReader (suc (length ts)) ts [] (omega arith))
      λ (rest, columns) (cs, d, e). at_end rest columns cs d e
  where
    at_end :
        (rest : List Token) (columns cs : List Text)
        → Derives (chain disj) ts rest cs
        → columns ≡ cs ++ []
        → Gives (IsParse ts) (do
          fail_if (elim rest [ [] ↦ false | _ ∷ _ ↦ true ]) Failure.trailing_input
          fail_if (is_nil columns) Failure.no_column
          ok (sorted_unique columns))
    at_end [] columns cs d e =
        Ensures-fail_if (is_nil columns) _ (cc) λ _. holds (cs, d, rw (e, append-nil cs) refl)
    at_end (t ∷ rest) columns cs d e = rejected (cc)

abbrev HasColumns : Phrase → List Text → Type 0
HasColumns (more j) cs = Unit
HasColumns p cs = is_nil cs ≡ false

is_nil-append : {A : Type 0} (xs ys : List A) → is_nil ys ≡ false → is_nil (xs ++ ys) ≡ false
is_nil-append [] ys h = h
is_nil-append (x ∷ xs) ys h = refl

HasColumns-operand : (j : Joiner) (cs : List Text) → HasColumns (operand j) cs → is_nil cs ≡ false
HasColumns-operand conj cs h = h
HasColumns-operand disj cs h = h

Derives-HasColumns :
    {p : Phrase} {ts us : List Token} {cs : List Text} → Derives p ts us cs → HasColumns p cs
Derives-HasColumns (comparison k c) = refl
Derives-HasColumns (nested d) = Derives-HasColumns d
Derives-HasColumns (plain d) = Derives-HasColumns d
Derives-HasColumns (negated e d) = Derives-HasColumns d
Derives-HasColumns (chained {j} {cs} {ds} d m) =
    is_nil-append ds cs (HasColumns-operand j cs (Derives-HasColumns d))
Derives-HasColumns (joined e d m) = tt
Derives-HasColumns ended = tt

IsParse-parse_tokens :
    (ts : List Token) (names : List Text) → IsParse ts names → parse_tokens ts ≡ ok names
unfolding parse_tokens
IsParse-parse_tokens ts names (cs, d, e) =
    rw
      (
        parse_or-eq (length ts) d (omega arith),
        append-nil cs,
        Derives-HasColumns d,
        e,
        parse_tokens,
      )
      refl

-- `ParsePredicate` accepts a text exactly if it splits into tokens that form a predicate of the
-- grammar from the first to the last, and it returns the columns of that predicate, sorted.
pub parse_predicate-eq-ok_iff :
    (s : Text) (names : List Text)
    → (parse_predicate s ≡ ok names) ↔ ((ts : List Token) × (tokenize s ≡ ok ts) × IsParse ts names)
unfolding parse_predicate
parse_predicate-eq-ok_iff s names = (
  λ e.
      let (ts, t, p) = >>=-eq-ok (tokenize s) parse_tokens e in
      (ts, t, Ensures-ok names (parse_tokens-Gives ts) p),
  λ (ts, t, p). rw (t, parse_predicate) (IsParse-parse_tokens ts names p),
)
