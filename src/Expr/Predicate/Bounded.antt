-- ===== src/Expr/Predicate/Bounded.antt =====
-- A reader of predicates with the literals of standard SQL, which knows only quotes, and the runs of
-- bytes that the tokenizer takes.
use semantic_operator.Prelude.{
  Text, ℕ, ◌<◌, ◌≤◌, Bool, true, false, not, ◌&&◌, ◌||◌, [], ◌∷◌, ◌++◌, Option, none, some, length,
  is_nil, if◌then◌else◌, ◌==◌, ==_iff, ◌≡◌, inl, inr, refl, ap, sym, ◌∙◌, arith, Bool-cases,
}
use mathlib.Core.Path.{subst}
use semantic_operator.Prelude.Ensures.{holds, Ensures-fail_if, Ensures-weaken}
use semantic_operator.Expr.Bytes.{
  is_digit, is_ident_char, take_while, drop_while, length-drop_while,
}
use semantic_operator.Expr.Predicate.{
  is_white, starts_with, tail, scan_string, prepend, scan_fraction, scan_digits,
}
use semantic_operator.Expr.Predicate.Sound.{Gives}

-- What may stand outside a string literal: white space, identifiers, numbers, and `(),=!<>-.`.
abbrev pub is_plain : ℕ → Bool
is_plain c =
    is_white c
    || is_ident_char c
    || c == b'('
    || c == b')'
    || c == b','
    || c == b'='
    || c == b'!'
    || c == b'<'
    || c == b'>'
    || c == b'-'
    || c == b'.'

unfoldable pub starts_digit : Text → Bool
starts_digit [] = false
starts_digit (c ∷ s) = is_digit c

-- A reader that knows only quotes: every quote enters or leaves a literal, a literal is closed
-- before the text ends, and outside the literals a byte is plain, and a minus stands before a digit.
unfoldable pub is_bounded : Bool → Text → Bool
unfolding starts_digit is_white is_ident_char
is_bounded true [] = false
is_bounded false [] = true
is_bounded true (c ∷ s) =
    let within = is_bounded true s in
    let out = is_bounded false s in if c == 39 then out else within
is_bounded false (c ∷ s) =
    let within = is_bounded true s in
    let out = is_bounded false s in
    if c == 39 then within else is_plain c && (if c == b'-' then starts_digit s else true) && out

pub prepend-some :
    (c : ℕ) (o : Option (Text × Text)) (v rest : Text)
    → prepend c o ≡ some (v, rest)
    → (l : Text) × (o ≡ some (l, rest))
unfolding prepend
prepend-some c none v rest e = cc
prepend-some c (some (l, r)) v rest e = (l, cc)

pub second_eq :
    (l r v rest : Text) → ◌≡◌ {A = Option (Text × Text)} (some (l, r)) (some (v, rest)) → r ≡ rest
second_eq l r v rest e = cc

pub is_bounded-quote :
    (q : Bool) (c : ℕ) (s : Text) → c == 39 ≡ true → is_bounded q (c ∷ s) ≡ is_bounded (not q) s
unfolding is_bounded
is_bounded-quote true c s e = rw (e, is_bounded) refl
is_bounded-quote false c s e = rw (e, is_bounded) refl

pub scan_string-is_bounded :
    (s v rest : Text)
    → scan_string s ≡ some (v, rest)
    → (length rest ≤ length s) × (is_bounded false rest ≡ true → is_bounded true s ≡ true)
unfolding scan_string is_bounded
scan_string-is_bounded [] v rest e = cc
scan_string-is_bounded (c ∷ []) v rest e = elim (Bool-cases (c == 39)) [
  | inl q ↦ ground arith
  | inr q ↦ ground arith
]
scan_string-is_bounded (c ∷ d ∷ s) v rest e = elim (Bool-cases (c == 39)) [
  | inr q ↦
      let (l, t) = prepend-some c (scan_string (d ∷ s)) v rest (rw (q, scan_string) at e) in
      let (h, i) = scan_string-is_bounded (d ∷ s) l rest t in
      (omega arith, λ b. rw (q, is_bounded) (i b))
  | inl q ↦ elim (Bool-cases (d == 39)) [
    | inl r ↦
        let (l, t) = prepend-some 39 (scan_string s) v rest (rw (q, r, scan_string) at e) in
        let (h, i) = scan_string-is_bounded s l rest t in
        (omega arith, λ b. rw (q, r, is_bounded) (i b))
    | inr r ↦
        let same = second_eq [] (d ∷ s) v rest (rw (q, r, scan_string) at e) in
        (
          omega (arith, ap length same),
          λ b.
              is_bounded-quote true c (d ∷ s) q
              ∙ subst (λ t. is_bounded false t ≡ true) (sym same) b,
        )
  ]
]

-- The text `rest` is what is left of `s` after some bytes that a bounded text may have.
abbrev pub Leaves : Text → Text → Type 0
Leaves s rest =
    (length rest ≤ length s) × (is_bounded false rest ≡ true → is_bounded false s ≡ true)

-- A byte that is neither a quote nor a minus.
abbrev pub IsSimple : ℕ → Type 0
IsSimple c = (is_plain c ≡ true) × (c == 39 ≡ false) × (c == b'-' ≡ false)

pub is_bounded-simple :
    (c : ℕ) (s : Text) → IsSimple c → is_bounded false (c ∷ s) ≡ is_bounded false s
unfolding is_bounded
is_bounded-simple c s (p, q, m) = rw (p, q, m, is_bounded) refl

pub Leaves-simple : (c : ℕ) (s rest : Text) → IsSimple c → Leaves s rest → Leaves (c ∷ s) rest
Leaves-simple c s rest simple (l, b) = (omega arith, λ h. rw (is_bounded-simple c s simple) (b h))

pub Leaves-trans : (s t u : Text) → Leaves s t → Leaves t u → Leaves s u
Leaves-trans s t u (l, b) (k, d) = (omega arith, λ h. b (d h))

pub Leaves-drop_while :
    (p : ℕ → Bool) (s : Text) → ((c : ℕ) → p c ≡ true → IsSimple c) → Leaves s (drop_while p s)
unfolding drop_while
Leaves-drop_while p [] h = (omega arith, λ b. b)
Leaves-drop_while p (c ∷ s) h = elim (Bool-cases (p c)) [
  | inl e ↦
      rw (e, drop_while) (Leaves-simple c s (drop_while p s) (h c e) (Leaves-drop_while p s h))
  | inr e ↦ rw (e, drop_while) (omega arith, λ b. b)
]

pub is_digit-IsSimple : (c : ℕ) → is_digit c ≡ true → IsSimple c
unfolding is_digit is_white is_ident_char
is_digit-IsSimple c h = ground arith

pub is_ident_char-IsSimple : (c : ℕ) → is_ident_char c ≡ true → IsSimple c
unfolding is_white is_ident_char
is_ident_char-IsSimple c h = ground arith

pub is_white-IsSimple : (c : ℕ) → is_white c ≡ true → IsSimple c
unfolding is_white is_ident_char
is_white-IsSimple c h = ground arith

pub is_plain-dot : IsSimple b'.'
unfolding is_white is_ident_char
is_plain-dot = (refl, refl, refl)

pub starts_with-tail : (b : ℕ) (s : Text) → starts_with b s ≡ true → s ≡ b ∷ tail s
unfolding starts_with
starts_with-tail b [] h = cc
starts_with-tail b (c ∷ s) h = ground arith

-- A run of digits that is not empty.
pub digits-first :
    (s : Text)
    → is_nil (take_while is_digit s) ≡ false
    → (starts_digit s ≡ true) × (length (drop_while is_digit s) < length s)
unfolding take_while drop_while starts_digit
digits-first [] h = cc
digits-first (c ∷ s) h = elim (Bool-cases (is_digit c)) [
  | inl e ↦ (e, rw (e, drop_while) (omega (arith, length-drop_while is_digit s)))
  | inr e ↦ cc (rw (e, take_while) at h)
]

pub scan_fraction-Gives : (whole s : Text) → Gives (λ r. Leaves s r.1) (scan_fraction whole s)
unfolding scan_fraction
scan_fraction-Gives whole s = Ensures-fail_if (is_nil (take_while is_digit s)) _ (cc) λ _.
    Ensures-fail_if (starts_with b'.' (drop_while is_digit s)) _ (cc)
      λ _. holds (Leaves-drop_while is_digit s is_digit-IsSimple)

pub scan_digits-Gives :
    (sign s : Text)
    → Gives
        (λ r. (starts_digit s ≡ true) × (length r.1 < length s) × Leaves s r.1)
        (scan_digits sign s)
unfolding scan_digits
scan_digits-Gives sign s = Ensures-fail_if (is_nil (take_while is_digit s)) _ (cc) λ some_digit.
    let (d, l) = digits-first s some_digit in
    let rest = drop_while is_digit s in
    let run = Leaves-drop_while is_digit s is_digit-IsSimple in
    elim (Bool-cases (starts_with b'.' rest)) [
      | inr e ↦ rw e (holds (d, l, run))
      | inl e ↦
          let p = starts_with-tail b'.' rest e in
          rw e (
            Ensures-weaken
              (λ (v, u) k. (
                d,
                omega (arith, k.0, ap length p),
                Leaves-trans s rest u run (rw p (Leaves-simple b'.' (tail rest) u is_plain-dot k)),
              ))
              (scan_fraction-Gives (sign ++ take_while is_digit s) (tail rest)))
    ]

pub is_bounded-minus :
    (c : ℕ) (s : Text)
    → c == b'-' ≡ true
    → starts_digit s ≡ true
    → is_bounded false (c ∷ s) ≡ is_bounded false s
unfolding is_bounded is_white is_ident_char
is_bounded-minus c s e d = rw ((==_iff c b'-').0 e, d) refl
