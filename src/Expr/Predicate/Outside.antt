-- ===== src/Expr/Predicate/Outside.antt =====
-- The bytes of a predicate outside its string literals, and the fuel of the tokenizer.
use semantic_operator.Prelude.{
  Text, ℕ, zero, suc, ◌≤◌, Bool, true, false, ◌&&◌, List, [], ◌∷◌, length, if◌then◌else◌, ◌==◌,
  ==_iff, ◌≡◌, ◌≢◌, inl, inr, refl, ap, sym, ◌∙◌, arith, Bool-cases, Option-cases, Result, ok, err,
}
use mathlib.Core.Path.{subst}
use semantic_operator.Prelude.Ensures.{
  holds, rejected, Ensures->>=, Ensures-if, Ensures-weaken, Ensures-ok, Ensures-err,
}
use semantic_operator.Expr.Bytes.{is_ident_char, is_ident_start, drop_while, ident_start-char}
use semantic_operator.Expr.Predicate.{
  Token, Failure, out_of_fuel, is_white, starts_with, tail, scan_string, scan_number, scan_word,
  starts_number, scan_other, scan_op, scan_quoted, scan_token, tokenize_loop, tokenize,
  parse_predicate,
}
use semantic_operator.Expr.Predicate.Sound.{Gives}
use semantic_operator.Expr.Predicate.Accepted.{parse_tokens-Gives}
use semantic_operator.Expr.Predicate.Bounded.{is_bounded}
use semantic_operator.Expr.Predicate.Bounded.{
  is_bounded-quote, scan_string-is_bounded, is_bounded-simple, Leaves-drop_while,
  is_ident_char-IsSimple, is_white-IsSimple, starts_with-tail, scan_digits-Gives, is_bounded-minus,
  Leaves, IsSimple,
}

-- What one round of the loop leaves.
abbrev Scans : {A : Type 0} → ℕ → Text → A × Text → Type 0
Scans c s r =
    (length r.1 ≤ length s) × (is_bounded false r.1 ≡ true → is_bounded false (c ∷ s) ≡ true)

scan_number-Gives : (c : ℕ) (s : Text) → Gives (Scans {A = Text} c s) (scan_number c s)
unfolding scan_number
scan_number-Gives c s = elim (Bool-cases (c == b'-')) [
  | inl e ↦
      rw (e, scan_number)
        (Ensures-weaken (λ r (d, l, k). (omega arith, λ b. is_bounded-minus c s e d ∙ k.1 b))
          (scan_digits-Gives (b'-' ∷ []) s))
  | inr e ↦
      rw (e, scan_number)
        (Ensures-weaken (λ r (d, l, k). (omega arith, k.1)) (scan_digits-Gives [] (c ∷ s)))
]

Scans-simple :
    (c : ℕ) (s rest : Text) → IsSimple c → Leaves s rest → Scans {A = List Token} c s ([], rest)
Scans-simple c s rest simple (l, b) = (l, λ h. rw (is_bounded-simple c s simple) (b h))

scan_word-Gives : (c : ℕ) (s : Text) → Gives (Scans c s) (scan_word c s)
unfolding scan_word drop_while
scan_word-Gives c s = elim (Bool-cases (is_ident_start c)) [
  | inr e ↦ rw (e, scan_word) (rejected (cc))
  | inl e ↦
      let w = ident_start-char c e in
      rw (e, w, scan_word, drop_while)
        (holds (
          Scans-simple c s (drop_while is_ident_char s) (is_ident_char-IsSimple c w)
            (Leaves-drop_while is_ident_char s is_ident_char-IsSimple)))
]

scan_other-Gives : (c : ℕ) (s : Text) → Gives (Scans c s) (scan_other c s)
unfolding scan_other
scan_other-Gives c s = elim (Bool-cases (starts_number c s)) [
  | inr e ↦ rw (e, scan_other) (scan_word-Gives c s)
  | inl e ↦ rw (e, scan_other) (Ensures->>= (scan_number-Gives c s) λ r h. holds h)
]

at_byte : (c k : ℕ) → IsSimple k → c == k ≡ true → IsSimple c
at_byte c k h e = subst IsSimple (sym ((==_iff c k).0 e)) h

short_op : (c : ℕ) (s : Text) (t : Token) → IsSimple c → Gives (Scans c s) (ok (t ∷ [], s))
short_op c s t simple = holds (Scans-simple c s s simple (omega arith, λ b. b))

long_op :
    (c d : ℕ) (s : Text) (t : Token)
    → IsSimple c
    → IsSimple d
    → starts_with d s ≡ true
    → Gives (Scans c s) (ok (t ∷ [], tail s))
long_op c d s t simple second e =
    let p = starts_with-tail d s e in
    holds (
      Scans-simple c s (tail s) simple (
        omega (arith, ap length p),
        λ b. ap (is_bounded false) p ∙ is_bounded-simple d (tail s) second ∙ b,
      ))

&&-eq-true : (a b : Bool) → (a && b) ≡ true → (a ≡ true) × (b ≡ true)
&&-eq-true a b h = ground arith

op_bytes :
    IsSimple b'='
    × IsSimple b'!'
    × IsSimple b'<'
    × IsSimple b'>'
    × IsSimple b'('
    × IsSimple b')'
    × IsSimple b','
unfolding is_white is_ident_char
op_bytes = (
  (refl, refl, refl),
  (refl, refl, refl),
  (refl, refl, refl),
  (refl, refl, refl),
  (refl, refl, refl),
  (refl, refl, refl),
  (refl, refl, refl),
)

-- An operator of two bytes, and one of one byte.
two_bytes :
    (c k l : ℕ) (s : Text) (t : Token) {other : Result Failure (List Token × Text)}
    → IsSimple k
    → IsSimple l
    → Gives (Scans c s) other
    → Gives (Scans c s) (if c == k && starts_with l s then ok (t ∷ [], tail s) else other)
two_bytes c k l s t hk hl h =
    Ensures-if (c == k && starts_with l s)
      (λ e.
        let (a, b) = &&-eq-true (c == k) (starts_with l s) e in
        long_op c l s t (at_byte c k hk a) hl b)
      (λ _. h)

one_byte :
    (c k : ℕ) (s : Text) (t : Token) {other : Result Failure (List Token × Text)}
    → IsSimple k
    → Gives (Scans c s) other
    → Gives (Scans c s) (if c == k then ok (t ∷ [], s) else other)
one_byte c k s t hk h = Ensures-if (c == k) (λ e. short_op c s t (at_byte c k hk e)) (λ _. h)

refuses :
    (c : ℕ) (s : Text) (bad : Bool) (e : Failure) {other : Result Failure (List Token × Text)}
    → e ≢ out_of_fuel
    → Gives (Scans c s) other
    → Gives (Scans c s) (if bad then err e else other)
refuses c s bad e n h = Ensures-if bad (λ _. rejected n) (λ _. h)

scan_op-Gives : (c : ℕ) (s : Text) → Gives (Scans c s) (scan_op c s)
unfolding scan_op
scan_op-Gives c s =
    let (equal, bang, less, more, _, _, _) = op_bytes in
    one_byte c b'=' s _ equal (
      two_bytes c b'!' b'=' s _ bang equal (
        refuses c s _ _ (cc) (
          two_bytes c b'<' b'=' s _ less equal (
            two_bytes c b'<' b'>' s _ less more (
              one_byte c b'<' s _ less (
                two_bytes c b'>' b'=' s _ more equal
                  (one_byte c b'>' s _ more (scan_other-Gives c s))))))))

scan_quoted-Gives : (c : ℕ) (s : Text) → c == 39 ≡ true → Gives (Scans c s) (scan_quoted s)
unfolding scan_quoted
scan_quoted-Gives c s q = elim (Option-cases (scan_string s)) [
  | inl e ↦ rw (e, scan_quoted) (rejected (cc))
  | inr ((v, rest), e) ↦
      rw (e, scan_quoted)
        (let (l, b) = scan_string-is_bounded s v rest e in
          holds (l, λ h. is_bounded-quote false c s q ∙ b h))
]

refusals : (Failure.semicolon ≢ out_of_fuel) × (Failure.comment ≢ out_of_fuel)
refusals = (cc, cc)

scan_token-Gives : (c : ℕ) (s : Text) → Gives (Scans c s) (scan_token c s)
unfolding scan_token
scan_token-Gives c s =
    let (_, _, _, _, left, right, comma) = op_bytes in
    Ensures-if (is_white c)
      (λ e. holds (Scans-simple c s s (is_white-IsSimple c e) (omega arith, λ b. b)))
      λ _. refuses c s _ _ refusals.0 (
        refuses c s _ _ refusals.1 (
          refuses c s _ _ refusals.1 (
            one_byte c b'(' s _ left (
              one_byte c b')' s _ right (
                one_byte c b',' s _ comma
                  (Ensures-if (c == 39) (scan_quoted-Gives c s) (λ _. scan_op-Gives c s)))))))

tokenize_loop-Gives :
    (n : ℕ) (s : Text) → length s ≤ n → Gives (λ _. is_bounded false s ≡ true) (tokenize_loop n s)
unfolding tokenize_loop is_bounded
tokenize_loop-Gives n [] h = holds refl
tokenize_loop-Gives zero (c ∷ s) h = absurd (omega arith)
tokenize_loop-Gives (suc n) (c ∷ s) h = Ensures->>= (scan_token-Gives c s) λ (ts, rest) (l, b).
    Ensures->>= (tokenize_loop-Gives n rest (omega arith)) λ more r. holds (b r)

parse_predicate-Gives : (s : Text) → Gives (λ _. is_bounded false s ≡ true) (parse_predicate s)
unfolding parse_predicate tokenize
parse_predicate-Gives s =
    Ensures->>= (tokenize_loop-Gives (length s) s (omega arith))
      λ ts b. Ensures-weaken (λ _ _. b) (parse_tokens-Gives ts)

-- In a text that `ParsePredicate` accepts, read with the string literals of standard SQL (a quote
-- opens and closes one, a doubled quote stands for itself, and a backslash is an ordinary byte, as
-- Trino reads), every literal is closed, and outside the literals there is nothing but white space,
-- identifiers, numbers, and the bytes `(),=!<>-.`, where a minus stands before a digit. It says
-- nothing of an engine that reads a backslash in a literal as an escape, as StarRocks does.
pub parse_predicate-is_bounded :
    (s : Text) (names : List Text) → parse_predicate s ≡ ok names → is_bounded false s ≡ true
parse_predicate-is_bounded s names e = Ensures-ok names (parse_predicate-Gives s) e

-- The tokenizer and the parser end within their fuel on every text.
pub parse_predicate_ends : (s : Text) → parse_predicate s ≢ err out_of_fuel
parse_predicate_ends s e = Ensures-err out_of_fuel (parse_predicate-Gives s) e refl
