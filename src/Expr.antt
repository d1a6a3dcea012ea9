-- ===== src/Expr.antt =====
-- internal/planner/expr/expr.go: the references of scalar expressions, their rewriting, and the
-- metric grammar. A loop over byte positions is a recursion on the rest of the text, on fuel where
-- it skips ahead; the texts are ASCII where `strings.ToUpper` and `strings.TrimSpace` are called.
pub mod Bytes
pub mod Scan
pub mod References
pub mod Metric
pub mod WellFormed
pub mod Predicate
pub mod Datasets
mod Tests
use semantic_operator.Prelude.{
  Text, ℕ, zero, suc, ◌+◌, ◌-◌, Bool, true, false, not, ◌&&◌, ◌||◌, List, [], ◌∷◌, ◌++◌, map,
  Option, none, some, codes, if◌then◌else◌, ◌==◌, is_nil, length, text_eq, contains, Result, ok,
  err, ◌>>=◌, ◌>>◌, fail_if,
}
use semantic_operator.Prelude.Strings.{to_upper, has_prefix, join}
use semantic_operator.Errors.{Error, bare_identifier}
use Bytes.{is_ident_char, is_ident_start, is_space, is_digit, take_while, drop_while, is_keyword}

pub record FieldRef : Type 0 where
  pub dataset : Text
  pub field : Text

-- `FieldRef.String`
unfoldable pub ref_string : FieldRef → Text
ref_string r = r.dataset ++ b'.' ∷ r.field

-- What one round of the loops of `ScanRefs` and `RewriteRefs` consumes: a string literal, a byte, a
-- dataset.field reference, or a bare word, with the flag whether `(` follows it after white space.
pub data Piece : Type 0 where
  literal : Text → Piece
  byte : ℕ → Piece
  reference : FieldRef → Piece
  word : Text → Bool → Piece

-- The loop that skips a string literal, from behind its opening quote: the text up to and with the
-- closing quote, and the rest.
unfoldable pub read_literal : Text → Text × Text
read_literal [] = ([], [])
read_literal (c ∷ s) =
    let (body, rest) = read_literal s in if c == b'\'' then (c ∷ [], s) else (c ∷ body, rest)

unfoldable pub opens_call : Text → Bool
opens_call s = elim (drop_while is_space s) [ [] ↦ false | c ∷ _ ↦ c == b'(' ]

-- The branch of a round on a word, given what follows it.
unfoldable pub word_piece : Text → Text → Piece × Text
word_piece w (dot ∷ c ∷ s) =
    if dot == b'.' && is_ident_start c
    then (
      reference (record { dataset = w; field = take_while is_ident_char (c ∷ s) }),
      drop_while is_ident_char (c ∷ s),
    )
    else (word w (opens_call (dot ∷ c ∷ s)), dot ∷ c ∷ s)
word_piece w rest = (word w (opens_call rest), rest)

unfoldable pub next_piece : ℕ → Text → Piece × Text
unfolding word_piece
next_piece c s =
    if c == b'\''
    then (literal (c ∷ (read_literal s).0), (read_literal s).1)
    else if not (is_ident_start c)
    then (byte c, s)
    else word_piece (take_while is_ident_char (c ∷ s)) (drop_while is_ident_char (c ∷ s))

-- The rounds of either loop. Each consumes a byte, so the length of the text is fuel enough.
unfoldable pub pieces : ℕ → Text → List Piece
pieces zero s = []
pieces (suc fuel) [] = []
pieces (suc fuel) (c ∷ s) = let (p, rest) = next_piece c s in p ∷ pieces fuel rest

abbrev pub pieces_of : Text → List Piece
pieces_of s = pieces (length s) s

-- One round of `ScanRefs`; `seen` holds exactly the strings of the references found so far.
unfoldable pub scan_piece : List FieldRef → Piece → Result Error (List FieldRef)
scan_piece refs (literal _) = ok refs
scan_piece refs (byte _) = ok refs
scan_piece refs (reference r) =
    ok (if contains (map ref_string refs) (ref_string r) then refs else refs ++ r ∷ [])
scan_piece refs (word w call) = if call || is_keyword w then ok refs else err (bare_identifier w)

unfoldable pub scan_pieces : List FieldRef → List Piece → Result Error (List FieldRef)
scan_pieces refs [] = ok refs
scan_pieces refs (p ∷ ps) = do more ← scan_piece refs p; scan_pieces more ps

-- `ScanRefs`
unfoldable pub scan_refs : Text → Result Error (List FieldRef)
scan_refs scalar = scan_pieces [] (pieces_of scalar)

-- What a round of `RewriteRefs` writes.
unfoldable pub render_piece : (FieldRef → Text) → Piece → Text
render_piece repl (literal s) = s
render_piece repl (byte c) = c ∷ []
render_piece repl (reference r) = repl r
render_piece repl (word w _) = w

unfoldable pub render_pieces : (FieldRef → Text) → List Piece → Text
render_pieces repl [] = []
render_pieces repl (p ∷ ps) = render_piece repl p ++ render_pieces repl ps

-- `RewriteRefs`
unfoldable pub rewrite_refs : Text → (FieldRef → Text) → Text
rewrite_refs scalar repl = render_pieces repl (pieces_of scalar)

unfoldable pub is_numeric : Text → Bool
is_numeric [] = false
is_numeric (c ∷ []) = is_digit c
is_numeric (c ∷ d ∷ s) = is_digit c && is_numeric (d ∷ s)

-- What one round of `QualifyBareColumns` writes, and the rest of the text.
unfoldable pub qualify_word : Text → (Text → Text) → Text → Text → Text × Text
qualify_word alias quote w rest =
    if starts_dot rest
    then (w ++ b'.' ∷ [], after_dot rest)
    else if opens_call rest || is_keyword w || is_numeric w
    then (w, rest)
    else (alias ++ b'.' ∷ quote w, rest)
  where
    starts_dot : Text → Bool
    starts_dot [] = false
    starts_dot (c ∷ s) = c == b'.'

    after_dot : Text → Text
    after_dot [] = []
    after_dot (c ∷ s) = s

unfoldable pub qualify_next : Text → (Text → Text) → ℕ → Text → Text × Text
unfolding qualify_word
qualify_next alias quote c s =
    if c == b'\''
    then (c ∷ (read_literal s).0, (read_literal s).1)
    else if not (is_ident_start c)
    then (c ∷ [], s)
    else qualify_word alias quote (take_while is_ident_char (c ∷ s))
        (drop_while is_ident_char (c ∷ s))

unfoldable pub qualify_loop : Text → (Text → Text) → ℕ → Text → Text
qualify_loop alias quote zero s = []
qualify_loop alias quote (suc fuel) [] = []
qualify_loop alias quote (suc fuel) (c ∷ s) =
    let (out, rest) = qualify_next alias quote c s in out ++ qualify_loop alias quote fuel rest

-- `QualifyBareColumns`
unfoldable pub qualify_bare_columns : Text → Text → (Text → Text) → Text
qualify_bare_columns scalar alias quote = qualify_loop alias quote (length scalar) scalar
