-- ===== src/Emitter/Quoting.antt =====
-- internal/emitter: reading back what the dialects quote.
use semantic_operator.Prelude.{
  ok_injective, ℕ, Text, true, false, [], ◌∷◌, ◌++◌, append_assoc, some, ◌==◌, ◌≡◌, refl, ap, ◌∙◌,
  arith, ok, Bool-cases, List-cases, Bool, inl, inr,
}
use semantic_operator.Prelude.Strings.{replace_byte}
use semantic_operator.Emitter.{quoted, literal_with, string}
use semantic_operator.Emitter.Trino
use semantic_operator.Emitter.Starrocks
use semantic_operator.Emitter.Reader.{
  inside, behind_quote, read_quoted, read_from, no_escapes, backslash, unescape, found,
}

-- What may follow a closing quote: anything but that quote.
abbrev pub Follows : ℕ → Text → Type 0
Follows q [] = Unit {0}
Follows q (c ∷ s) = (c == q) ≡ false

module _ (escapes : ℕ → Bool) (q : ℕ) (rest : Text) (h : Follows q rest) where
  closes : read_quoted escapes q behind_quote rest ≡ some ([], rest)
  unfolding read_quoted
  closes = elim (List-cases rest) [ inl e ↦ rw e refl | inr (c, s, e) ↦ rw e (rw (rw e at h)) ]

same_byte : (c q : ℕ) → (c == q) ≡ true → c ≡ q
same_byte c q e = ground arith

byte_eq_refl : (q : ℕ) → (q == q) ≡ true
byte_eq_refl q = ground arith

module _ (q : ℕ) (rest : Text) (h : Follows q rest) where
  reads_doubled :
      (s : Text)
      → read_quoted no_escapes q inside (replace_byte q (q ∷ q ∷ []) s ++ q ∷ rest) ≡ some (s, rest)
  unfolding read_quoted replace_byte found
  reads_doubled [] = rw (byte_eq_refl q) (closes no_escapes q rest h)
  reads_doubled (c ∷ s) = elim (Bool-cases (c == q)) [
    | inl e ↦ rw (same_byte c q e, byte_eq_refl q, reads_doubled s) (rw (byte_eq_refl q) refl)
    | inr e ↦ rw (e, reads_doubled s) (rw e refl)
  ]

module _ (rest : Text) (h : Follows b'\'' rest) where
  reads_escaped :
      (s : Text)
      → read_quoted backslash b'\'' inside (
          replace_byte b'\'' (b'\'' ∷ b'\'' ∷ []) (replace_byte b'\\' (b'\\' ∷ b'\\' ∷ []) s)
          ++ b'\'' ∷ rest)
        ≡ some (s, rest)
  unfolding read_quoted replace_byte found unescape
  reads_escaped [] = closes backslash b'\'' rest h
  reads_escaped (c ∷ s) = elim (Bool-cases (c == b'\\')) [
    | inl e ↦ rw (same_byte c b'\\' e) (rw (reads_escaped s) refl)
    | inr e ↦ elim (Bool-cases (c == b'\'')) [
      | inl f ↦ rw (same_byte c b'\'' f) (rw (reads_escaped s) refl)
      | inr f ↦ rw (e, f, e, reads_escaped s) (rw f refl)
    ]
  ]

reads_quoted :
    (q : ℕ) (s rest : Text)
    → Follows q rest
    → read_from no_escapes q (quoted q s ++ rest) ≡ some (s, rest)
unfolding read_from quoted
reads_quoted q s rest h = rw (byte_eq_refl q) (
    ap (read_quoted no_escapes q inside)
      (append_assoc (replace_byte q (q ∷ q ∷ []) s) (q ∷ []) rest)
    ∙ reads_doubled q rest h s)

-- Trino reads a quoted identifier and a quoted string back: whatever bytes the text holds, it
-- cannot end early, and what follows the closing quote is left over.
pub trino_reads :
    (s rest lit : Text)
    → Follows b'"' rest
    → Follows b'\'' rest
    → Trino.literal (string s) ≡ ok lit
    → (read_from no_escapes b'"' (Trino.quote_ident s ++ rest) ≡ some (s, rest))
      × (read_from no_escapes b'\'' (lit ++ rest) ≡ some (s, rest))
unfolding Trino.quote_ident Trino.literal literal_with
trino_reads s rest lit h k e =
    (reads_quoted b'"' s rest h, rw (← ok_injective _ lit e) (reads_quoted b'\'' s rest k))

-- StarRocks reads a quoted identifier back by the standard rule, and a quoted string by the rule of
-- MySQL, in which a backslash escapes.
pub starrocks_reads :
    (s rest lit : Text)
    → Follows b'`' rest
    → Follows b'\'' rest
    → Starrocks.literal (string s) ≡ ok lit
    → (read_from no_escapes b'`' (Starrocks.quote_ident s ++ rest) ≡ some (s, rest))
      × (read_from backslash b'\'' (lit ++ rest) ≡ some (s, rest))
unfolding Starrocks.quote_ident Starrocks.literal literal_with read_from quoted
starrocks_reads s rest lit h k e = (
  reads_quoted b'`' s rest h,
  rw (← ok_injective _ lit e) (
      ap (read_quoted backslash b'\'' inside) (
        append_assoc
          (replace_byte b'\'' (b'\'' ∷ b'\'' ∷ []) (replace_byte b'\\' (b'\\' ∷ b'\\' ∷ []) s))
          (b'\'' ∷ []) rest)
      ∙ reads_escaped rest k s),
)
