-- ===== src/Emitter/Reader.antt =====
-- How a SQL engine reads what the dialects quote: an independent description of the two lexical
-- rules, standard SQL and MySQL.
use semantic_operator.Prelude.{ℕ, Text, Bool, [], ◌∷◌, Option, none, some, if◌then◌else◌, ◌==◌}

-- Where the reader stands: in the text, behind a quote that may close it or be the first of two, or
-- behind a backslash.
pub data Position : Type 0 where
  inside behind_quote behind_backslash : Position

unfoldable pub found : ℕ → Option (Text × Text) → Option (Text × Text)
found c none = none
found c (some (s, rest)) = some (c ∷ s, rest)

-- What the byte behind a backslash means to MySQL.
unfoldable pub unescape : ℕ → ℕ
unescape c =
    if c == b'n'
    then 10
    else if c == b't'
    then 9
    else if c == b'r'
    then 13
    else if c == b'b'
    then 8
    else if c == b'0'
    then 0
    else if c == b'Z'
    then 26
    else c

-- From behind the opening quote `q`: the text that is meant, and what follows the closing quote. A
-- doubled quote stands for one; a byte that passes `escapes` starts an escape.
unfoldable pub read_quoted : (ℕ → Bool) → ℕ → Position → Text → Option (Text × Text)
unfolding found unescape
read_quoted escapes q inside [] = none
read_quoted escapes q behind_quote [] = some ([], [])
read_quoted escapes q behind_backslash [] = none
read_quoted escapes q inside (c ∷ s) =
    let escaped = read_quoted escapes q behind_backslash s in
    let closed = read_quoted escapes q behind_quote s in
    let next = read_quoted escapes q inside s in
    if escapes c then escaped else if c == q then closed else found c next
read_quoted escapes q behind_quote (c ∷ s) =
    let next = read_quoted escapes q inside s in if c == q then found q next else some ([], c ∷ s)
read_quoted escapes q behind_backslash (c ∷ s) =
    let next = read_quoted escapes q inside s in found (unescape c) next

-- A quoted text from its opening quote on.
unfoldable pub read_from : (ℕ → Bool) → ℕ → Text → Option (Text × Text)
unfolding read_quoted
read_from escapes q [] = none
read_from escapes q (c ∷ s) = if c == q then read_quoted escapes q inside s else none

abbrev pub no_escapes : ℕ → Bool
no_escapes c = Bool.false

abbrev pub backslash : ℕ → Bool
backslash c = c == b'\\'
