-- ===== src/Expr/Bytes.antt =====
-- The byte classes of expr.go, and the loops that read a run of bytes of one class.
use semantic_operator.Prelude.{
  Text, ℕ, ◌≤◌, Bool, true, ◌&&◌, ◌||◌, List, [], ◌∷◌, ◌++◌, codes, if◌then◌else◌, ◌==◌, leb,
  contains, length, ◌≡◌, refl, arith,
}
use semantic_operator.Prelude.Strings.{to_upper}

unfoldable pub is_digit : ℕ → Bool
is_digit c = leb b'0' c && leb c b'9'

unfoldable pub is_ident_start : ℕ → Bool
is_ident_start c = c == b'_' || leb b'a' c && leb c b'z' || leb b'A' c && leb c b'Z'

unfoldable pub is_ident_char : ℕ → Bool
unfolding is_digit
is_ident_char c = c == b'_' || leb b'a' c && leb c b'z' || leb b'A' c && leb c b'Z' || is_digit c

-- `unicode.IsSpace` of a byte.
unfoldable pub is_space : ℕ → Bool
is_space c = leb 9 c && leb c 13 || c == 32 || c == 0x85 || c == 0xa0

unfoldable pub take_while : (ℕ → Bool) → Text → Text
take_while p [] = []
take_while p (c ∷ s) = let rest = take_while p s in if p c then c ∷ rest else []

unfoldable pub drop_while : (ℕ → Bool) → Text → Text
drop_while p [] = []
drop_while p (c ∷ s) = let rest = drop_while p s in if p c then rest else c ∷ s

abbrev pub sql_keywords : List Text
sql_keywords =
    codes "AND"
    ∷ codes "OR"
    ∷ codes "NOT"
    ∷ codes "NULL"
    ∷ codes "CASE"
    ∷ codes "WHEN"
    ∷ codes "THEN"
    ∷ codes "ELSE"
    ∷ codes "END"
    ∷ codes "IN"
    ∷ codes "IS"
    ∷ codes "LIKE"
    ∷ codes "BETWEEN"
    ∷ codes "DISTINCT"
    ∷ codes "TRUE"
    ∷ codes "FALSE"
    ∷ codes "INTERVAL"
    ∷ codes "AS"
    ∷ codes "DIV"
    ∷ codes "MOD"
    ∷ []

-- `sqlKeywords[strings.ToUpper(word)]`
unfoldable pub is_keyword : Text → Bool
unfolding to_upper contains
is_keyword w = contains sql_keywords (to_upper w)

pub take-drop_while : (p : ℕ → Bool) (s : Text) → take_while p s ++ drop_while p s ≡ s
unfolding take_while drop_while
take-drop_while p [] = refl
take-drop_while p (c ∷ s) = ground (arith, take-drop_while p s)

pub length-drop_while : (p : ℕ → Bool) (s : Text) → length (drop_while p s) ≤ length s
unfolding drop_while
length-drop_while p [] = omega arith
length-drop_while p (c ∷ s) = ground (arith, length-drop_while p s)

pub ident_start-char : (c : ℕ) → is_ident_start c ≡ true → is_ident_char c ≡ true
unfolding is_ident_start is_ident_char
ident_start-char c h = ground arith
