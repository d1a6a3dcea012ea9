-- ===== src/Expr/Predicate/Grammar.antt =====
-- The grammar in the comment of `ParsePredicate`, as a relation between the tokens before and after
-- a phrase and the columns in it, the last first.
use semantic_operator.Prelude.{
  Text, ◌<◌, ◌≤◌, false, List, [], ◌∷◌, ◌++◌, codes, length, ◌≡◌, ◌⊎◌, arith,
}
use semantic_operator.Prelude.Strings.{to_upper}
use semantic_operator.Expr.Bytes.{is_keyword}
use semantic_operator.Expr.Predicate.{
  Token, ident, quoted, number, op, left_paren, right_paren, comma,
}

abbrev pub IsLiteral : Token → Type 0
IsLiteral (quoted v) = Unit
IsLiteral (number v) = Unit
IsLiteral (ident w) =
    (to_upper w ≡ codes "TRUE") ⊎ ((to_upper w ≡ codes "FALSE") ⊎ (to_upper w ≡ codes "NULL"))
IsLiteral _ = ⊥

-- The rest of a list of literals, with its parenthesis.
pub data Listed : List Token → List Token → Type 0 where
  list_end : {ts : List Token} → Listed (right_paren ∷ ts) ts
  list_item :
      {t : Token} {ts us : List Token} → IsLiteral t → Listed ts us → Listed (comma ∷ t ∷ ts) us

-- `IN` or `LIKE` with what it compares with.
pub data Matching : List Token → List Token → Type 0 where
  in_list :
      {w : Text} {t : Token} {ts us : List Token}
      → to_upper w ≡ codes "IN"
      → IsLiteral t
      → Listed ts us
      → Matching (ident w ∷ left_paren ∷ t ∷ ts) us
  like :
      {w v : Text} {ts : List Token}
      → to_upper w ≡ codes "LIKE"
      → Matching (ident w ∷ quoted v ∷ ts) ts

-- What follows the column of a comparison.
pub data Condition : List Token → List Token → Type 0 where
  compared : {o : Text} {t : Token} {ts : List Token} → IsLiteral t → Condition (op o ∷ t ∷ ts) ts
  matching : {ts us : List Token} → Matching ts us → Condition ts us
  not_matching :
      {w : Text} {ts us : List Token}
      → to_upper w ≡ codes "NOT"
      → Matching ts us
      → Condition (ident w ∷ ts) us
  is_null :
      {v w : Text} {ts : List Token}
      → to_upper v ≡ codes "IS"
      → to_upper w ≡ codes "NULL"
      → Condition (ident v ∷ ident w ∷ ts) ts
  is_not_null :
      {v n w : Text} {ts : List Token}
      → to_upper v ≡ codes "IS"
      → to_upper n ≡ codes "NOT"
      → to_upper w ≡ codes "NULL"
      → Condition (ident v ∷ ident n ∷ ident w ∷ ts) ts

pub data Joiner : Type 0 where
  conj disj : Joiner

abbrev pub keyword : Joiner → Text
keyword conj = codes "AND"
keyword disj = codes "OR"

-- `chain conj` is `and` of the comment and `chain disj` is `or`; `more` is the repeated part.
pub data Phrase : Type 0 where
  primary negation : Phrase
  chain more : Joiner → Phrase

abbrev pub operand : Joiner → Phrase
operand conj = negation
operand disj = chain conj

pub data Derives : Phrase → List Token → List Token → List Text → Type 0 where
  comparison :
      {w : Text} {ts us : List Token}
      → is_keyword w ≡ false
      → Condition ts us
      → Derives primary (ident w ∷ ts) us (w ∷ [])
  nested :
      {ts us : List Token} {cs : List Text}
      → Derives (chain disj) ts (right_paren ∷ us) cs
      → Derives primary (left_paren ∷ ts) us cs
  plain :
      {ts us : List Token} {cs : List Text} → Derives primary ts us cs → Derives negation ts us cs
  negated :
      {w : Text} {ts us : List Token} {cs : List Text}
      → to_upper w ≡ codes "NOT"
      → Derives primary ts us cs
      → Derives negation (ident w ∷ ts) us cs
  chained :
      {j : Joiner} {ts us vs : List Token} {cs ds : List Text}
      → Derives (operand j) ts us cs
      → Derives (more j) us vs ds
      → Derives (chain j) ts vs (ds ++ cs)
  joined :
      {j : Joiner} {w : Text} {ts us vs : List Token} {cs ds : List Text}
      → to_upper w ≡ keyword j
      → Derives (operand j) ts us cs
      → Derives (more j) us vs ds
      → Derives (more j) (ident w ∷ ts) vs (ds ++ cs)
  ended : {j : Joiner} {ts : List Token} → Derives (more j) ts ts []

Listed-shorter : {ts us : List Token} → Listed ts us → length us < length ts
Listed-shorter list_end = omega arith
Listed-shorter (list_item l h) = omega (arith, Listed-shorter h)

Matching-shorter : {ts us : List Token} → Matching ts us → length us < length ts
Matching-shorter (in_list e l h) = omega (arith, Listed-shorter h)
Matching-shorter (like e) = omega arith

Condition-shorter : {ts us : List Token} → Condition ts us → length us < length ts
Condition-shorter (compared l) = omega arith
Condition-shorter (matching m) = Matching-shorter m
Condition-shorter (not_matching e m) = omega (arith, Matching-shorter m)
Condition-shorter (is_null e h) = omega arith
Condition-shorter (is_not_null e k h) = omega arith

-- How much of the tokens a phrase takes: at least one, but for the repeated part.
abbrev pub Takes : Phrase → List Token → List Token → Type 0
Takes (more j) ts us = length us ≤ length ts
Takes primary ts us = length us < length ts
Takes negation ts us = length us < length ts
Takes (chain j) ts us = length us < length ts

Takes-operand : (j : Joiner) (ts us : List Token) → Takes (operand j) ts us → length us < length ts
Takes-operand conj ts us h = h
Takes-operand disj ts us h = h

pub Derives-Takes :
    {p : Phrase} {ts us : List Token} {cs : List Text} → Derives p ts us cs → Takes p ts us
Derives-Takes (comparison k c) = omega (arith, Condition-shorter c)
Derives-Takes (nested d) = omega (arith, Derives-Takes d)
Derives-Takes (plain d) = Derives-Takes d
Derives-Takes (negated e d) = omega (arith, Derives-Takes d)
Derives-Takes (chained {j} {ts} {us} d m) =
    omega (arith, Takes-operand j ts us (Derives-Takes d), Derives-Takes m)
Derives-Takes (joined {j} {ts} {us} e d m) =
    omega (arith, Takes-operand j ts us (Derives-Takes d), Derives-Takes m)
Derives-Takes ended = omega arith

pub operand-shorter :
    (j : Joiner) {ts us : List Token} {cs : List Text}
    → Derives (operand j) ts us cs
    → length us < length ts
operand-shorter j {ts} {us} d = Takes-operand j ts us (Derives-Takes d)
