-- ===== src/Expr/Predicate/Sound.antt =====
-- What the parser of predicates accepts is in the grammar, and its fuel suffices.
use semantic_operator.Prelude.{
  Text, ℕ, zero, suc, ◌<◌, ◌≤◌, true, List, [], ◌∷◌, ◌++◌, codes, length, ◌≡◌, ◌≢◌, inl, inr, refl,
  ap, arith, text_eq, text_eq_iff, Bool-cases, append_assoc, Result,
}
use semantic_operator.Prelude.Ensures.{
  Ensures, holds, rejected, Ensures->>=, Ensures-fail_if, Ensures-weaken, Ensures-if,
}
use semantic_operator.Prelude.Strings.{to_upper}
use semantic_operator.Expr.Bytes.{is_keyword}
use semantic_operator.Expr.Predicate.{
  Token, ident, quoted, number, op, left_paren, right_paren, comma, Failure, out_of_fuel, Parser,
  tail, at_kw, skip_kw, is_literal, parse_literal, parse_string_literal, list_loop, parse_in_list,
  parse_null, parse_negated, parse_keyword, parse_condition, at_open, parse_comparison, parse_close,
  parse_primary, parse_not, parse_while, parse_chain, parse_and, parse_or,
}
use semantic_operator.Expr.Predicate.Grammar.{
  IsLiteral, Listed, list_end, list_item, Matching, in_list, like, Condition, compared, matching,
  not_matching, is_null, is_not_null, Joiner, conj, disj, keyword, Phrase, primary, negation, chain,
  more, operand, Derives, comparison, nested, plain, negated, chained, joined, ended,
  operand-shorter,
}

-- The run kept within its fuel, and `P` holds of its value if it has one.
abbrev pub Gives : {A : Type 0} → (A → Type 0) → Result Failure A → Type 0
Gives P r = Ensures (λ e. e ≢ out_of_fuel) P r

pub at_kw-ident :
    (kw : Text) (ts : List Token)
    → at_kw kw ts ≡ true
    → (w : Text) × (to_upper w ≡ kw) × (ts ≡ ident w ∷ tail ts)
unfolding at_kw
at_kw-ident kw (ident w ∷ ts) h = (w, (text_eq_iff (to_upper w) kw).0 h, refl)
at_kw-ident kw [] h = cc
at_kw-ident kw (quoted v ∷ ts) h = cc
at_kw-ident kw (number v ∷ ts) h = cc
at_kw-ident kw (op v ∷ ts) h = cc
at_kw-ident kw (left_paren ∷ ts) h = cc
at_kw-ident kw (right_paren ∷ ts) h = cc
at_kw-ident kw (comma ∷ ts) h = cc

is_literal-IsLiteral : (t : Token) → is_literal t ≡ true → IsLiteral t
unfolding is_literal at_kw
is_literal-IsLiteral (quoted v) h = tt
is_literal-IsLiteral (number v) h = tt
is_literal-IsLiteral (ident w) h = ground (
  arith,
  text_eq_iff (to_upper w) (codes "TRUE"),
  text_eq_iff (to_upper w) (codes "FALSE"),
  text_eq_iff (to_upper w) (codes "NULL"),
)
is_literal-IsLiteral (op v) h = cc
is_literal-IsLiteral left_paren h = cc
is_literal-IsLiteral right_paren h = cc
is_literal-IsLiteral comma h = cc

parse_literal-Gives :
    (ts : List Token) → Gives (λ us. (t : Token) × IsLiteral t × (ts ≡ t ∷ us)) (parse_literal ts)
unfolding parse_literal
parse_literal-Gives [] = rejected (cc)
parse_literal-Gives (t ∷ ts) = elim (Bool-cases (is_literal t)) [
  | inl e ↦ rw (e, parse_literal) (holds (t, is_literal-IsLiteral t e, refl))
  | inr e ↦ rw (e, parse_literal) (rejected (cc))
]

list_loop-Gives : (ts : List Token) → Gives (Listed ts) (list_loop ts)
unfolding list_loop
list_loop-Gives (right_paren ∷ ts) = holds list_end
list_loop-Gives (comma ∷ []) = rejected (cc)
list_loop-Gives (comma ∷ t ∷ ts) = elim (Bool-cases (is_literal t)) [
  | inl e ↦
      rw (e, list_loop)
        (Ensures-weaken (λ _. list_item (is_literal-IsLiteral t e)) (list_loop-Gives ts))
  | inr e ↦ rw (e, list_loop) (rejected (cc))
]
list_loop-Gives _ = rejected (cc)

parse_in_list-Gives :
    (w : Text) (ts : List Token)
    → to_upper w ≡ codes "IN"
    → Gives (Matching (ident w ∷ ts)) (parse_in_list ts)
unfolding parse_in_list
parse_in_list-Gives w (left_paren ∷ ts) e =
    Ensures->>= (parse_literal-Gives ts)
      λ us (t, l, p). rw p (Ensures-weaken (λ _. in_list e l) (list_loop-Gives us))
parse_in_list-Gives w _ e = rejected (cc)

parse_string_literal-Gives :
    (w : Text) (ts : List Token)
    → to_upper w ≡ codes "LIKE"
    → Gives (Matching (ident w ∷ ts)) (parse_string_literal ts)
unfolding parse_string_literal
parse_string_literal-Gives w (quoted v ∷ ts) e = holds (like e)
parse_string_literal-Gives w _ e = rejected (cc)

parse_null-Gives :
    (ts : List Token)
    → Gives (λ us. (w : Text) × (to_upper w ≡ codes "NULL") × (ts ≡ ident w ∷ us)) (parse_null ts)
unfolding parse_null
parse_null-Gives ts = elim (Bool-cases (at_kw (codes "NULL") ts)) [
  | inl e ↦ rw (e, parse_null) (holds (at_kw-ident (codes "NULL") ts e))
  | inr e ↦ rw (e, parse_null) (rejected (cc))
]

parse_is-Gives :
    (v : Text) (ts : List Token)
    → to_upper v ≡ codes "IS"
    → Gives (Condition (ident v ∷ ts)) (parse_null (skip_kw (codes "NOT") ts))
unfolding skip_kw
parse_is-Gives v ts is = elim (Bool-cases (at_kw (codes "NOT") ts)) [
  | inl e ↦
      let (n, q, p) = at_kw-ident (codes "NOT") ts e in
      rw (e, skip_kw)
        (Ensures-weaken (λ us (w, k, r). rw (p, r) (is_not_null is q k))
          (parse_null-Gives (tail ts)))
  | inr e ↦
      rw (e, skip_kw) (Ensures-weaken (λ us (w, k, r). rw r (is_null is k)) (parse_null-Gives ts))
]

parse_negated-Gives :
    (v : Text) (ts : List Token)
    → to_upper v ≡ codes "NOT"
    → Gives (Condition (ident v ∷ ts)) (parse_negated ts)
unfolding parse_negated
parse_negated-Gives v ts not = elim (Bool-cases (at_kw (codes "IN") ts)) [
  | inl e ↦
      let (w, q, p) = at_kw-ident (codes "IN") ts e in
      rw (e, parse_negated)
        (Ensures-weaken (λ us m. rw p (not_matching not m)) (parse_in_list-Gives w (tail ts) q))
  | inr d ↦ elim (Bool-cases (at_kw (codes "LIKE") ts)) [
    | inl e ↦
        let (w, q, p) = at_kw-ident (codes "LIKE") ts e in
        rw (d, e, parse_negated)
          (Ensures-weaken (λ us m. rw p (not_matching not m))
            (parse_string_literal-Gives w (tail ts) q))
    | inr e ↦ rw (d, e, parse_negated) (rejected (cc))
  ]
]

parse_keyword-Gives :
    (w : Text) (ts : List Token) → Gives (Condition (ident w ∷ ts)) (parse_keyword (to_upper w) ts)
unfolding parse_keyword
parse_keyword-Gives w ts =
    Ensures-if (text_eq (to_upper w) (codes "IN"))
      (λ e. Ensures-weaken (λ _. matching) (parse_in_list-Gives w ts ((text_eq_iff _ _).0 e)))
      λ _.
        Ensures-if (text_eq (to_upper w) (codes "LIKE"))
          (λ e.
            Ensures-weaken (λ _. matching)
              (parse_string_literal-Gives w ts ((text_eq_iff _ _).0 e)))
          λ _.
            Ensures-if (text_eq (to_upper w) (codes "IS"))
              (λ e. parse_is-Gives w ts ((text_eq_iff _ _).0 e))
              λ _.
                Ensures-if (text_eq (to_upper w) (codes "NOT"))
                  (λ e. parse_negated-Gives w ts ((text_eq_iff _ _).0 e)) λ _. rejected (cc)

parse_condition-Gives : (ts : List Token) → Gives (Condition ts) (parse_condition ts)
unfolding parse_condition
parse_condition-Gives (op o ∷ ts) =
    Ensures-weaken (λ us (t, l, p). rw p (compared l)) (parse_literal-Gives ts)
parse_condition-Gives (ident w ∷ ts) = parse_keyword-Gives w ts
parse_condition-Gives _ = rejected (cc)

-- What a run that reads a phrase adds to the columns.
abbrev pub Reads : Phrase → List Token → List Text → List Token × List Text → Type 0
Reads p ts columns r = (cs : List Text) × Derives p ts r.0 cs × (r.1 ≡ cs ++ columns)

parse_comparison-Gives :
    (ts : List Token) (columns : List Text)
    → Gives (Reads primary ts columns) (parse_comparison ts columns)
unfolding parse_comparison
parse_comparison-Gives (ident w ∷ ts) columns = Ensures-fail_if (is_keyword w) _ (cc) λ k.
    Ensures-fail_if (at_open ts) _ (cc)
      λ _. Ensures->>= (parse_condition-Gives ts) λ us c. holds (w ∷ [], comparison k c, refl)
parse_comparison-Gives _ columns = rejected (cc)

-- A parser that reads a phrase of any text of fewer than `n` tokens.
abbrev pub IsReader : ℕ → Phrase → Parser → Type 0
IsReader n p parser =
    (ts : List Token) (columns : List Text)
    → length ts < n
    → Gives (Reads p ts columns) (parser ts columns)

module _ (n : ℕ) where
  parse_close-Gives :
      (ts us : List Token) (cs columns : List Text)
      → Derives (chain disj) ts us cs
      → Gives (Reads primary (left_paren ∷ ts) columns) (parse_close us (cs ++ columns))
  unfolding parse_close
  parse_close-Gives ts (right_paren ∷ us) cs columns d = holds (cs, nested d, refl)
  parse_close-Gives ts _ cs columns d = rejected (cc)

  parse_primary-IsReader :
      (recurse : Parser)
      → IsReader n (chain disj) recurse
      → IsReader (suc n) primary (parse_primary recurse)
  unfolding parse_primary
  parse_primary-IsReader recurse r (left_paren ∷ ts) columns h =
      Ensures->>= (r ts columns (omega arith))
        λ (us, ds) (cs, d, e). rw e (parse_close-Gives ts us cs columns d)
  parse_primary-IsReader recurse r ts columns h = parse_comparison-Gives ts columns

  parse_not-IsReader :
      (recurse : Parser)
      → IsReader n (chain disj) recurse
      → IsReader (suc n) negation (parse_not recurse)
  unfolding parse_not skip_kw
  parse_not-IsReader recurse r ts columns h = elim (Bool-cases (at_kw (codes "NOT") ts)) [
    | inl e ↦
        let (w, q, p) = at_kw-ident (codes "NOT") ts e in
        rw (e, parse_not, skip_kw)
          (Ensures-weaken (λ _ (cs, d, k). (cs, rw p (negated q d), k))
            (parse_primary-IsReader recurse r (tail ts) columns (omega (arith, h, ap length p))))
    | inr e ↦
        rw (e, parse_not, skip_kw)
          (Ensures-weaken (λ _ (cs, d, k). (cs, plain d, k))
            (parse_primary-IsReader recurse r ts columns h))
  ]

  module _ (j : Joiner) (item : Parser) (reads : IsReader n (operand j) item) where
    parse_while-Gives :
        (m : ℕ) (ts : List Token) (columns : List Text)
        → length ts ≤ m
        → length ts < n
        → Gives (Reads (more j) ts columns) (parse_while (keyword j) item m ts columns)
    unfolding parse_while
    parse_while-Gives zero [] columns h k = holds ([], ended, refl)
    parse_while-Gives zero (t ∷ ts) columns h k = absurd (omega arith)
    parse_while-Gives (suc m) ts columns h k = elim (Bool-cases (at_kw (keyword j) ts)) [
      | inr e ↦ rw (e, parse_while) (holds ([], ended, refl))
      | inl e ↦
          let (w, q, p) = at_kw-ident (keyword j) ts e in
          rw (e, parse_while)
            (Ensures->>= (reads (tail ts) columns (omega (arith, ap length p)))
              λ (us, ds) (cs, d, l).
                Ensures-weaken
                  (λ _ (bs, b, o). (bs ++ cs, rw p (joined q d b), simp (o, l, append_assoc)))
                  (parse_while-Gives m us ds (omega (arith, ap length p, operand-shorter j d))
                    (omega (arith, ap length p, operand-shorter j d))))
    ]

    parse_chain-IsReader : IsReader n (chain j) (parse_chain (keyword j) item)
    unfolding parse_chain
    parse_chain-IsReader ts columns h = Ensures->>= (reads ts columns h) λ (us, ds) (cs, d, l).
        Ensures-weaken (λ _ (bs, b, o). (bs ++ cs, chained d b, simp (o, l, append_assoc)))
          (parse_while-Gives (length us) us ds (omega arith) (omega (arith, operand-shorter j d)))

-- Enough fuel for the parentheses that are left.
pub parse_or-IsReader : (n : ℕ) → IsReader n (chain disj) (parse_or n)
unfolding parse_or parse_and
parse_or-IsReader zero ts columns h = absurd (omega arith)
parse_or-IsReader (suc n) ts columns h =
    parse_chain-IsReader (suc n) disj (parse_and (parse_or n))
      (parse_chain-IsReader (suc n) conj (parse_not (parse_or n))
        (parse_not-IsReader n (parse_or n) (parse_or-IsReader n)))
      ts columns h
