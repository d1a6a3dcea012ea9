-- ===== src/Expr/Predicate.antt =====
-- internal/planner/expr/predicate.go: the tokenizer and the parser of row-filter predicates. The
-- tokens end with the list, where the source has a token `eof`; a loop is a recursion on fuel.

pub mod Grammar
pub mod Sound
pub mod Complete
pub mod Accepted
pub mod Bounded
pub mod Outside
mod Tests
use semantic_operator.Prelude.{
  Text, ℕ, zero, suc, Bool, true, false, ◌&&◌, ◌||◌, List, [], ◌∷◌, ◌++◌, Option, none, some, codes,
  if◌then◌else◌, ◌==◌, is_nil, length, text_eq, Result, ok, err, ◌>>=◌, ◌>>◌, fail_if,
}
use semantic_operator.Prelude.Strings.{to_upper}
use semantic_operator.Governance.Claims.{sorted_unique}
use semantic_operator.Expr.Bytes.{
  is_ident_char, is_ident_start, is_digit, take_while, drop_while, is_keyword,
}

pub data Token : Type 0 where
  ident quoted number op : Text → Token
  left_paren right_paren comma : Token

-- The messages of the tokenizer and of the parser.
pub data Failure : Type 0 where
  semicolon comment unterminated lone_bang bad_number : Failure
  bad_byte : ℕ → Failure
  expected_close expected_literal expected_string expected_open expected_null : Failure
  expected_column expected_comparison expected_in_or_like function_call : Failure
  trailing_input no_column : Failure
  out_of_fuel : Failure

unfoldable pub is_white : ℕ → Bool
is_white c = c == 32 || c == 9 || c == 10 || c == 13

-- `i+1 < len(s) && s[i+1] == b`
unfoldable pub starts_with : ℕ → Text → Bool
starts_with b [] = false
starts_with b (c ∷ s) = c == b

abbrev pub tail : {A : Type 0} → List A → List A
tail [] = []
tail (x ∷ xs) = xs

unfoldable pub prepend : ℕ → Option (Text × Text) → Option (Text × Text)
prepend c none = none
prepend c (some (l, r)) = some (c ∷ l, r)

-- The loop over a string literal after its quote: its value, and what follows the closing quote.
unfoldable pub scan_string : Text → Option (Text × Text)
unfolding prepend
scan_string [] = none
scan_string (c ∷ []) = if c == 39 then some ([], []) else none
scan_string (c ∷ d ∷ s) = elim (c == 39) [
  | false ↦ prepend c (scan_string (d ∷ s))
  | true ↦ elim (d == 39) [ true ↦ prepend 39 (scan_string s) | false ↦ some ([], d ∷ s) ]
]

-- The digits after a point.
unfoldable pub scan_fraction : Text → Text → Result Failure (Text × Text)
unfolding take_while drop_while starts_with
scan_fraction whole s =
    let digits = take_while is_digit s in
    let rest = drop_while is_digit s in
    do
      fail_if (is_nil digits) bad_number
      fail_if (starts_with b'.' rest) bad_number
      ok (whole ++ b'.' ∷ digits, rest)

-- `scanNumber` after the sign.
unfoldable pub scan_digits : Text → Text → Result Failure (Text × Text)
unfolding take_while drop_while scan_fraction starts_with
scan_digits sign s =
    let digits = take_while is_digit s in
    let rest = drop_while is_digit s in
    do
      fail_if (is_nil digits) bad_number
      elim (starts_with b'.' rest) [
        | true ↦ scan_fraction (sign ++ digits) (tail rest)
        | false ↦ ok (sign ++ digits, rest)
      ]

unfoldable pub scan_number : ℕ → Text → Result Failure (Text × Text)
unfolding scan_digits
scan_number c s = elim (c == b'-') [
  | true ↦ scan_digits (b'-' ∷ []) s
  | false ↦ scan_digits [] (c ∷ s)
]

abbrev pub one : {A : Type 0} → A → Text → Result Failure (List A × Text)
one t rest = ok (t ∷ [], rest)

-- The cases of the switch from the string literal on.
unfoldable pub scan_word : ℕ → Text → Result Failure (List Token × Text)
unfolding is_digit is_ident_start take_while drop_while
scan_word c s = elim (is_ident_start c) [
  | true ↦ one (ident (take_while is_ident_char (c ∷ s))) (drop_while is_ident_char (c ∷ s))
  | false ↦ err (bad_byte c)
]

unfoldable pub starts_number : ℕ → Text → Bool
starts_number c [] = is_digit c
starts_number c (d ∷ s) = is_digit c || c == b'-' && is_digit d

unfoldable pub scan_other : ℕ → Text → Result Failure (List Token × Text)
unfolding starts_number scan_number scan_word
scan_other c s = elim (starts_number c s) [
  | true ↦ do (v, rest) ← scan_number c s; one (number v) rest
  | false ↦ scan_word c s
]

unfoldable pub scan_op : ℕ → Text → Result Failure (List Token × Text)
unfolding starts_with scan_other
scan_op c s =
    if c == b'='
    then one (op (codes "=")) s
    else if c == b'!' && starts_with b'=' s
    then one (op (codes "!=")) (tail s)
    else if c == b'!'
    then err lone_bang
    else if c == b'<' && starts_with b'=' s
    then one (op (codes "<=")) (tail s)
    else if c == b'<' && starts_with b'>' s
    then one (op (codes "<>")) (tail s)
    else if c == b'<'
    then one (op (codes "<")) s
    else if c == b'>' && starts_with b'=' s
    then one (op (codes ">=")) (tail s)
    else if c == b'>'
    then one (op (codes ">")) s
    else scan_other c s

unfoldable pub scan_quoted : Text → Result Failure (List Token × Text)
unfolding scan_string
scan_quoted s = elim (scan_string s) [
  | none ↦ err unterminated
  | some (v, rest) ↦ one (quoted v) rest
]

-- One round of the loop of `tokenizePredicate` at the byte `c`: the tokens it appends, and the rest.
unfoldable pub scan_token : ℕ → Text → Result Failure (List Token × Text)
unfolding is_white starts_with scan_quoted scan_op
scan_token c s =
    if is_white c
    then ok ([], s)
    else if c == b';'
    then err semicolon
    else if c == b'-' && starts_with b'-' s
    then err comment
    else if c == b'/' && starts_with b'*' s
    then err comment
    else if c == b'('
    then one left_paren s
    else if c == b')'
    then one right_paren s
    else if c == b','
    then one comma s
    else if c == 39
    then scan_quoted s
    else scan_op c s

unfoldable pub tokenize_loop : ℕ → Text → Result Failure (List Token)
unfolding scan_token
tokenize_loop n [] = ok []
tokenize_loop zero (c ∷ s) = err out_of_fuel
tokenize_loop (suc n) (c ∷ s) = do
  (ts, rest) ← scan_token c s
  more ← tokenize_loop n rest
  ok (ts ++ more)

unfoldable pub tokenize : Text → Result Failure (List Token)
unfolding tokenize_loop
tokenize s = tokenize_loop (length s) s

-- The state of the parser: the tokens that are left, and the columns seen, the last first.
abbrev pub Outcome : Type 0
Outcome = Result Failure (List Token × List Text)

abbrev pub Parser : Type 0
Parser = List Token → List Text → Outcome

-- `p.isKw(p.peek(), kw)`; identifiers are ASCII.
unfoldable pub at_kw : Text → List Token → Bool
unfolding to_upper
at_kw kw (ident w ∷ ts) = text_eq (to_upper w) kw
at_kw kw _ = false

unfoldable pub skip_kw : Text → List Token → List Token
unfolding at_kw
skip_kw kw ts = if at_kw kw ts then tail ts else ts

unfoldable pub is_literal : Token → Bool
unfolding at_kw
is_literal (quoted v) = true
is_literal (number v) = true
is_literal (ident w) =
    at_kw (codes "TRUE") (ident w ∷ [])
    || at_kw (codes "FALSE") (ident w ∷ [])
    || at_kw (codes "NULL") (ident w ∷ [])
is_literal _ = false

unfoldable pub parse_literal : List Token → Result Failure (List Token)
unfolding is_literal
parse_literal [] = err expected_literal
parse_literal (t ∷ ts) = elim (is_literal t) [ true ↦ ok ts | false ↦ err expected_literal ]

unfoldable pub parse_string_literal : List Token → Result Failure (List Token)
parse_string_literal (quoted v ∷ ts) = ok ts
parse_string_literal _ = err expected_string

-- The loop of `parseInList` and the closing parenthesis.
unfoldable pub list_loop : List Token → Result Failure (List Token)
unfolding is_literal
list_loop (right_paren ∷ ts) = ok ts
list_loop (comma ∷ []) = err expected_literal
list_loop (comma ∷ t ∷ ts) = elim (is_literal t) [
  | true ↦ list_loop ts
  | false ↦ err expected_literal
]
list_loop _ = err expected_close

unfoldable pub parse_in_list : List Token → Result Failure (List Token)
unfolding parse_literal list_loop
parse_in_list (left_paren ∷ ts) = do rest ← parse_literal ts; list_loop rest
parse_in_list _ = err expected_open

unfoldable pub parse_null : List Token → Result Failure (List Token)
unfolding at_kw
parse_null ts = elim (at_kw (codes "NULL") ts) [ true ↦ ok (tail ts) | false ↦ err expected_null ]

-- After `col NOT`.
unfoldable pub parse_negated : List Token → Result Failure (List Token)
unfolding at_kw parse_in_list parse_string_literal
parse_negated ts = elim (at_kw (codes "IN") ts) [
  | true ↦ parse_in_list (tail ts)
  | false ↦ elim (at_kw (codes "LIKE") ts) [
    | true ↦ parse_string_literal (tail ts)
    | false ↦ err expected_in_or_like
  ]
]

-- The keyword cases of the switch of `parseComparison`.
unfoldable pub parse_keyword : Text → List Token → Result Failure (List Token)
unfolding to_upper parse_in_list parse_string_literal parse_null skip_kw parse_negated
parse_keyword k ts =
    if text_eq k (codes "IN")
    then parse_in_list ts
    else if text_eq k (codes "LIKE")
    then parse_string_literal ts
    else if text_eq k (codes "IS")
    then parse_null (skip_kw (codes "NOT") ts)
    else if text_eq k (codes "NOT")
    then parse_negated ts
    else err expected_comparison

unfoldable pub parse_condition : List Token → Result Failure (List Token)
unfolding parse_literal parse_keyword
parse_condition (op o ∷ ts) = parse_literal ts
parse_condition (ident k ∷ ts) = parse_keyword (to_upper k) ts
parse_condition _ = err expected_comparison

unfoldable pub at_open : List Token → Bool
at_open (left_paren ∷ ts) = true
at_open _ = false

unfoldable pub parse_comparison : Parser
unfolding at_open parse_condition
parse_comparison (ident w ∷ ts) columns = do
  fail_if (is_keyword w) expected_column
  fail_if (at_open ts) function_call
  rest ← parse_condition ts
  ok (rest, w ∷ columns)
parse_comparison _ columns = err expected_column

unfoldable pub parse_close : Parser
parse_close (right_paren ∷ ts) columns = ok (ts, columns)
parse_close _ columns = err expected_close

-- `parsePrimary`, with `parseOr` as an argument.
unfoldable pub parse_primary : Parser → Parser
unfolding parse_close parse_comparison
parse_primary recurse (left_paren ∷ ts) columns = do
  (us, cs) ← recurse ts columns
  parse_close us cs
parse_primary recurse ts columns = parse_comparison ts columns

unfoldable pub parse_not : Parser → Parser
unfolding skip_kw parse_primary
parse_not recurse ts columns = parse_primary recurse (skip_kw (codes "NOT") ts) columns

-- The loop of `parseOr` and of `parseAnd`.
unfoldable pub parse_while : Text → Parser → ℕ → Parser
unfolding at_kw
parse_while kw item zero ts columns = elim (at_kw kw ts) [
  | true ↦ err out_of_fuel
  | false ↦ ok (ts, columns)
]
parse_while kw item (suc n) ts columns = elim (at_kw kw ts) [
  | false ↦ ok (ts, columns)
  | true ↦ do (us, cs) ← item (tail ts) columns; parse_while kw item n us cs
]

unfoldable pub parse_chain : Text → Parser → Parser
unfolding parse_while
parse_chain kw item ts columns = do
  (us, cs) ← item ts columns
  parse_while kw item (length us) us cs

unfoldable pub parse_and : Parser → Parser
unfolding parse_chain parse_not
parse_and recurse = parse_chain (codes "AND") (parse_not recurse)

-- `parseOr`; the fuel bounds the depth of the parentheses.
unfoldable pub parse_or : ℕ → Parser
unfolding parse_chain parse_and
parse_or zero ts columns = err out_of_fuel
parse_or (suc n) ts columns = parse_chain (codes "OR") (parse_and (parse_or n)) ts columns

unfoldable pub parse_tokens : List Token → Result Failure (List Text)
unfolding parse_or
parse_tokens ts = do
  (rest, columns) ← parse_or (suc (length ts)) ts []
  fail_if (elim rest [ [] ↦ false | _ ∷ _ ↦ true ]) trailing_input
  fail_if (is_nil columns) no_column
  ok (sorted_unique columns)

unfoldable pub parse_predicate : Text → Result Failure (List Text)
unfolding tokenize parse_tokens
parse_predicate s = do ts ← tokenize s; parse_tokens ts
