-- ===== src/Expr/References.antt =====
-- internal/planner/expr/expr.go: the references that `ScanRefs` reports and `RewriteRefs` replaces.
use semantic_operator.Prelude.{
  Text, ℕ, zero, suc, true, false, ◌&&◌, List, [], ◌∷◌, ◌++◌, map, ◌==◌, contains_iff, length, ◌≡◌,
  ◌↔◌, ◌⊎◌, refl, sym, arith, Bool-cases, inl, inr, Elem, All, ok, >>=-eq-ok,
}
use semantic_operator.Prelude.Lists.{Elem-snoc, Elem-map_inv}
use semantic_operator.Expr.{
  FieldRef, ref_string, Piece, reference, word, word_piece, next_piece, pieces, pieces_of,
  scan_piece, scan_pieces, scan_refs, rewrite_refs,
}
use semantic_operator.Expr.Bytes.{is_ident_start, is_ident_char, take_while, drop_while}
use semantic_operator.Expr.Scan.{render_pieces-Agree}

-- The dataset of a reference is a word, without a dot, so the string determines the reference.
abbrev IsWord : Text → Type 0
IsWord w = All (λ c. is_ident_char c ≡ true) w

take_while-IsWord : (s : Text) → IsWord (take_while is_ident_char s)
unfolding take_while
take_while-IsWord [] = tt
take_while-IsWord (c ∷ s) = ground (arith, take_while-IsWord s)

dot-not-IsWord : is_ident_char b'.' ≡ false
unfolding is_ident_char
dot-not-IsWord = refl

split_dot :
    (v w s t : Text) → IsWord v → IsWord w → v ++ b'.' ∷ s ≡ w ++ b'.' ∷ t → (v ≡ w) × (s ≡ t)
split_dot [] [] s t p q e = ground arith
split_dot [] (c ∷ w) s t p q e = ground (arith, dot-not-IsWord)
split_dot (c ∷ v) [] s t p q e = ground (arith, dot-not-IsWord)
split_dot (c ∷ v) (d ∷ w) s t p q e = ground (arith, split_dot v w s t)

ref_string_injective :
    (q r : FieldRef) → IsWord q.dataset → IsWord r.dataset → ref_string q ≡ ref_string r → q ≡ r
unfolding ref_string
ref_string_injective q r p h e =
    let (d, f) = split_dot q.dataset r.dataset q.field r.field p h e in
    λ i. record { dataset = d i; field = f i }

word_piece-IsWord :
    (w rest : Text) (r : FieldRef)
    → IsWord w
    → (word_piece w rest).0 ≡ reference r
    → IsWord r.dataset
unfolding word_piece
word_piece-IsWord w [] r h e = cc
word_piece-IsWord w (d ∷ []) r h e = cc
word_piece-IsWord w (d ∷ c ∷ s) r h e = elim (Bool-cases (d == b'.' && is_ident_start c)) [
  | inl y ↦ rw (← reference_dataset _ r (rw y at e)) h
  | inr n ↦ cc (rw n at e)
]
  where
    reference_dataset : (q r : FieldRef) → reference q ≡ reference r → q.dataset ≡ r.dataset
    reference_dataset q r e = cc

next_piece-IsWord :
    (c : ℕ) (s : Text) (r : FieldRef) → (next_piece c s).0 ≡ reference r → IsWord r.dataset
unfolding next_piece
next_piece-IsWord c s r e = elim (Bool-cases (c == b'\'')) [
  | inl quoted ↦ cc (rw quoted at e)
  | inr plain ↦ elim (Bool-cases (is_ident_start c)) [
    | inl start ↦
        word_piece-IsWord (take_while is_ident_char (c ∷ s)) (drop_while is_ident_char (c ∷ s)) r
          (take_while-IsWord (c ∷ s)) (rw (plain, start) at e)
    | inr other ↦ cc (rw (plain, other) at e)
  ]
]

pieces-IsWord :
    (fuel : ℕ) (s : Text) (r : FieldRef) → Elem (reference r) (pieces fuel s) → IsWord r.dataset
unfolding pieces
pieces-IsWord zero s r m = absurd m
pieces-IsWord (suc fuel) [] r m = absurd m
pieces-IsWord (suc fuel) (c ∷ s) r (inl e) = next_piece-IsWord c s r (sym e)
pieces-IsWord (suc fuel) (c ∷ s) r (inr m) = pieces-IsWord fuel (next_piece c s).1 r m

-- One round adds the reference of its piece, if the string is new.
abbrev Reported : List FieldRef → List Piece → FieldRef → Type 0
Reported refs ps r = Elem r refs ⊎ Elem (reference r) ps

scan_piece_sound :
    (refs : List FieldRef) (p : Piece) (more : List FieldRef) (r : FieldRef)
    → scan_piece refs p ≡ ok more
    → Elem r more
    → Elem r refs ⊎ (reference r ≡ p)
unfolding scan_piece
scan_piece_sound refs (reference q) more r e m = ground (arith, Elem-snoc r q refs)
scan_piece_sound refs (word w call) more r e m = ground arith
scan_piece_sound refs p more r e m = ground arith

Elem-map-snoc :
    (x : Text) (q : FieldRef) (refs : List FieldRef)
    → Elem x (map ref_string (refs ++ q ∷ [])) ↔ (Elem x (map ref_string refs) ⊎ (x ≡ ref_string q))
Elem-map-snoc x q [] = ground arith
Elem-map-snoc x q (r ∷ refs) = ground (arith, Elem-map-snoc x q refs)

scan_piece_complete :
    (refs : List FieldRef) (p : Piece) (more : List FieldRef) (r : FieldRef)
    → scan_piece refs p ≡ ok more
    → (Elem (ref_string r) (map ref_string refs) ⊎ (reference r ≡ p))
    → Elem (ref_string r) (map ref_string more)
unfolding scan_piece
scan_piece_complete refs (reference q) more r e m =
    ground (
      arith,
      contains_iff (map ref_string refs) (ref_string q),
      Elem-map-snoc (ref_string r) q refs,
    )
scan_piece_complete refs (word w call) more r e m = ground arith
scan_piece_complete refs p more r e m = ground arith

scan_pieces_sound :
    (refs : List FieldRef) (ps : List Piece) (found : List FieldRef) (r : FieldRef)
    → scan_pieces refs ps ≡ ok found
    → Elem r found
    → Reported refs ps r
unfolding scan_pieces
scan_pieces_sound refs [] found r e m = ground arith
scan_pieces_sound refs (p ∷ ps) found r e m =
    let (more, a, b) = >>=-eq-ok (scan_piece refs p) _ e in
    ground (arith, scan_pieces_sound more ps found r b m, scan_piece_sound refs p more r a)

scan_pieces_complete :
    (refs : List FieldRef) (ps : List Piece) (found : List FieldRef) (r : FieldRef)
    → scan_pieces refs ps ≡ ok found
    → (Elem (ref_string r) (map ref_string refs) ⊎ Elem (reference r) ps)
    → Elem (ref_string r) (map ref_string found)
unfolding scan_pieces
scan_pieces_complete refs [] found r e m = ground arith
scan_pieces_complete refs (p ∷ ps) found r e m =
    let (more, a, b) = >>=-eq-ok (scan_piece refs p) _ e in
    ground (arith, scan_pieces_complete more ps found r b, scan_piece_complete refs p more r a)

-- A successful scan reports exactly the references of the text's pieces.
pub scan_refs-exact :
    (scalar : Text) (refs : List FieldRef) (r : FieldRef)
    → scan_refs scalar ≡ ok refs
    → Elem r refs ↔ Elem (reference r) (pieces_of scalar)
unfolding scan_refs
scan_refs-exact scalar refs r e = (
  λ m. elim (scan_pieces_sound [] (pieces_of scalar) refs r e m) [ inl n ↦ absurd n | inr p ↦ p ],
  λ m.
      let (q, found, same) =
        Elem-map_inv ref_string (ref_string r) refs
          (scan_pieces_complete [] (pieces_of scalar) refs r e (inr m)) in
      rw (ref_string_injective r q (is_word r m) (is_word q (reported q found)) same) found,
)
  where
    is_word : (q : FieldRef) → Elem (reference q) (pieces_of scalar) → IsWord q.dataset
    is_word q m = pieces-IsWord (length scalar) scalar q m

    reported : (q : FieldRef) → Elem q refs → Elem (reference q) (pieces_of scalar)
    reported q m = elim (scan_pieces_sound [] (pieces_of scalar) refs q e m) [
      | inl n ↦ absurd n
      | inr p ↦ p
    ]

-- Where `ScanRefs` succeeds, `RewriteRefs` calls the replacement on the reported references only: two
-- replacements that agree on these give the same text.
pub rewrite_refs_agree :
    (scalar : Text) (refs : List FieldRef) (f g : FieldRef → Text)
    → scan_refs scalar ≡ ok refs
    → ((r : FieldRef) → Elem r refs → f r ≡ g r)
    → rewrite_refs scalar f ≡ rewrite_refs scalar g
unfolding rewrite_refs
rewrite_refs_agree scalar refs f g e h =
    render_pieces-Agree f g (pieces_of scalar) (λ r m. h r ((scan_refs-exact scalar refs r e).1 m))
