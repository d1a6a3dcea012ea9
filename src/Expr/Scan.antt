-- ===== src/Expr/Scan.antt =====
-- internal/planner/expr/expr.go: `RewriteRefs` over the pieces of a scalar.
use semantic_operator.Prelude.{
  Text, ℕ, zero, suc, ◌≤◌, true, ◌&&◌, List, [], ◌∷◌, ◌++◌, append_assoc, ◌==◌, length, ◌≡◌, refl,
  ap, ◌∙◌, arith, Bool-cases, inl, inr, Elem,
}
use semantic_operator.Expr.{
  FieldRef, ref_string, Piece, reference, read_literal, word_piece, next_piece, pieces,
  render_piece, render_pieces, rewrite_refs,
}
use semantic_operator.Expr.Bytes.{
  is_ident_start, is_ident_char, take_while, drop_while, take-drop_while, length-drop_while,
  ident_start-char,
}

read_literal-append : (s : Text) → (read_literal s).0 ++ (read_literal s).1 ≡ s
unfolding read_literal
read_literal-append [] = refl
read_literal-append (c ∷ s) = ground (arith, read_literal-append s)

length-read_literal : (s : Text) → length (read_literal s).1 ≤ length s
unfolding read_literal
length-read_literal [] = omega arith
length-read_literal (c ∷ s) = ground (arith, length-read_literal s)

word_piece_renders :
    (w rest : Text)
    → render_piece ref_string (word_piece w rest).0 ++ (word_piece w rest).1 ≡ w ++ rest
unfolding word_piece render_piece ref_string
word_piece_renders w [] = refl
word_piece_renders w (d ∷ []) = refl
word_piece_renders w (d ∷ c ∷ s) = elim (Bool-cases (d == b'.' && is_ident_start c)) [
  | inl e ↦ rw e (
      append_assoc w (b'.' ∷ take_while is_ident_char (c ∷ s)) (drop_while is_ident_char (c ∷ s))
      ∙ rw (take-drop_while is_ident_char (c ∷ s)) (ap (λ k. w ++ k ∷ c ∷ s) (dot e)))
  | inr e ↦ rw e
]
  where
    dot : (d == b'.' && is_ident_start c) ≡ true → b'.' ≡ d
    dot e = ground arith

length-word_piece : (w rest : Text) → length (word_piece w rest).1 ≤ length rest
unfolding word_piece
length-word_piece w [] = omega arith
length-word_piece w (d ∷ []) = omega arith
length-word_piece w (d ∷ c ∷ s) = ground (arith, length-drop_while is_ident_char (c ∷ s))

-- A round writes back what it consumed, and consumes a byte at least.
next_piece_renders :
    (c : ℕ) (s : Text) → render_piece ref_string (next_piece c s).0 ++ (next_piece c s).1 ≡ c ∷ s
unfolding next_piece render_piece
next_piece_renders c s = elim (Bool-cases (c == b'\'')) [
  | inl quoted ↦ rw quoted (ap (◌∷◌ c) (read_literal-append s))
  | inr plain ↦ elim (Bool-cases (is_ident_start c)) [
    | inl start ↦
        rw (plain, start)
          (word_piece_renders (take_while is_ident_char (c ∷ s)) (drop_while is_ident_char (c ∷ s))
            ∙ take-drop_while is_ident_char (c ∷ s))
    | inr other ↦ rw (plain, other)
  ]
]

length-next_piece : (c : ℕ) (s : Text) → length (next_piece c s).1 ≤ length s
unfolding next_piece
length-next_piece c s = ground (
  arith,
  length-read_literal s,
  length-word_piece (take_while is_ident_char (c ∷ s)) (drop_while is_ident_char (c ∷ s)),
  drops,
)
  where
    drops : is_ident_start c ≡ true → length (drop_while is_ident_char (c ∷ s)) ≤ length s
    drops h = unfold drop_while in rw (ident_start-char c h) (length-drop_while is_ident_char s)

pieces_render :
    (fuel : ℕ) (s : Text) → length s ≤ fuel → render_pieces ref_string (pieces fuel s) ≡ s
unfolding pieces render_pieces
pieces_render zero [] h = refl
pieces_render zero (c ∷ s) h = absurd (omega arith)
pieces_render (suc fuel) [] h = refl
pieces_render (suc fuel) (c ∷ s) h =
    rw (pieces_render fuel (next_piece c s).1 (omega (arith, length-next_piece c s)))
      (next_piece_renders c s)

-- Rewriting every reference to its own string gives the text back: `RewriteRefs` loses, adds and
-- reorders nothing.
pub rewrite_refs_self : (scalar : Text) → rewrite_refs scalar ref_string ≡ scalar
unfolding rewrite_refs
rewrite_refs_self scalar = pieces_render (length scalar) scalar (omega arith)

-- Two replacements agree on the references of the pieces.
abbrev pub Agree : (FieldRef → Text) → (FieldRef → Text) → List Piece → Type 0
Agree f g ps = (r : FieldRef) → Elem (reference r) ps → f r ≡ g r

pub render_pieces-Agree :
    (f g : FieldRef → Text) (ps : List Piece)
    → Agree f g ps
    → render_pieces f ps ≡ render_pieces g ps
unfolding render_pieces render_piece
render_pieces-Agree f g [] h = refl
render_pieces-Agree f g (reference r ∷ ps) h =
    cc (h r (inl refl), render_pieces-Agree f g ps (λ k m. h k (inr m)))
render_pieces-Agree f g (p ∷ ps) h = cc (render_pieces-Agree f g ps (λ k m. h k (inr m)))
