-- ===== src/Planner/Joins/Tree.antt =====
-- Join trees: every join starts at a dataset that is there, and adds one that is not.
use semantic_operator.Prelude.{
  Text, false, List, [], ◌∷◌, ◌++◌, map, keep, contains, contains_iff, ◌≡◌, ◌⊎◌, inl, inr, refl,
  Elem, Bool-cases,
}
use semantic_operator.Planner.{CompiledRelationship}

abbrev pub to_of : CompiledRelationship → Text
to_of rel = rel.to

-- A dataset is the root or the target of a join.
abbrev pub InTree : Text → List CompiledRelationship → Text → Type 0
InTree root rels ds = (ds ≡ root) ⊎ Elem ds (map to_of rels)

abbrev pub Ordered : List Text → List CompiledRelationship → Type 0
Ordered seen [] = Unit {0}
Ordered seen (rel ∷ rels) =
    Elem rel.from seen × (Elem rel.to seen → ⊥) × Ordered (rel.to ∷ seen) rels

abbrev pub IsJoinTree : Text → List CompiledRelationship → Type 0
IsJoinTree root rels = Ordered (root ∷ []) rels

pub Ordered-snoc :
    (seen : List Text) (rels : List CompiledRelationship) (rel : CompiledRelationship)
    → Ordered seen rels
    → Elem rel.from seen ⊎ Elem rel.from (map to_of rels)
    → (Elem rel.to seen → ⊥)
    → (Elem rel.to (map to_of rels) → ⊥)
    → Ordered seen (rels ++ rel ∷ [])
Ordered-snoc seen [] rel h (inl f) n k = (f, n, tt)
Ordered-snoc seen [] rel h (inr f) n k = absurd f
Ordered-snoc seen (r ∷ rels) rel (a, b, h) f n k = (
  a,
  b,
  Ordered-snoc (r.to ∷ seen) rels rel h (shift f) (λ m. elim m [ inl e ↦ k (inl e) | inr m ↦ n m ])
      (λ m. k (inr m)),
)
  where
    shift :
        Elem rel.from seen ⊎ Elem rel.from (map to_of (r ∷ rels))
        → Elem rel.from (r.to ∷ seen) ⊎ Elem rel.from (map to_of rels)
    shift (inl m) = inl (inr m)
    shift (inr (inl e)) = inl (inl e)
    shift (inr (inr m)) = inr m

-- What stands before a join in the tree holds its start.
Ordered-before :
    (seen : List Text) (xs ys : List CompiledRelationship) (rel : CompiledRelationship)
    → Ordered seen (xs ++ rel ∷ ys)
    → Elem rel.from seen ⊎ Elem rel.from (map to_of xs)
Ordered-before seen [] ys rel (a, b, h) = inl a
Ordered-before seen (x ∷ xs) ys rel (a, b, h) = elim (Ordered-before (x.to ∷ seen) xs ys rel h) [
  | inl (inl e) ↦ inr (inl e)
  | inl (inr m) ↦ inl m
  | inr m ↦ inr (inr m)
]

pub InTree-before :
    (root : Text) (xs ys : List CompiledRelationship) (rel : CompiledRelationship)
    → IsJoinTree root (xs ++ rel ∷ ys)
    → InTree root xs rel.from
InTree-before root xs ys rel h = elim (Ordered-before (root ∷ []) xs ys rel h) [
  | inl (inl e) ↦ inl e
  | inl (inr x) ↦ absurd x
  | inr m ↦ inr m
]

-- Pruning keeps a tree a tree, if with every join that stays the one that leads to it stays.
module _ (marked : List Text) (root : Text) where
  abbrev pub IsClosed : List CompiledRelationship → Type 0
  IsClosed rels =
      (rel : CompiledRelationship)
      → Elem rel rels
      → Elem rel.to marked
      → (rel.from ≡ root) ⊎ Elem rel.from marked

  pub Ordered-keep :
      (seen less : List Text) (rels : List CompiledRelationship)
      → Ordered seen rels
      → IsClosed rels
      → ((ds : Text) → Elem ds less → Elem ds seen)
      → ((ds : Text) → Elem ds seen → (ds ≡ root) ⊎ Elem ds marked → Elem ds less)
      → Elem root less
      → Ordered less (keep (λ rel. contains marked rel.to) rels)
  unfolding keep
  Ordered-keep seen less [] h c sub stays top = tt
  Ordered-keep seen less (rel ∷ rels) (a, b, h) c sub stays top =
      elim (Bool-cases (contains marked rel.to)) [
        | inl e ↦
            let m = (contains_iff marked rel.to).0 e in
            rw e (
              stays rel.from a (c rel (inl refl) m),
              λ k. b (sub rel.to k),
              Ordered-keep (rel.to ∷ seen) (rel.to ∷ less) rels h (λ r k. c r (inr k))
                  (λ ds k. elim k [ inl i ↦ inl i | inr k ↦ inr (sub ds k) ])
                  (λ ds k p. elim k [ inl i ↦ inl i | inr k ↦ inr (stays ds k p) ]) (inr top),
            )
        | inr e ↦ rw e (
            Ordered-keep (rel.to ∷ seen) less rels h (λ r k. c r (inr k)) (λ ds k. inr (sub ds k))
              (λ ds k p. elim k [ inl i ↦ dropped ds e i p | inr k ↦ stays ds k p ]) top)
      ]
    where
      dropped :
          (ds : Text)
          → contains marked rel.to ≡ false
          → ds ≡ rel.to
          → (ds ≡ root) ⊎ Elem ds marked
          → Elem ds less
      dropped ds e i (inl r) = rw r top
      dropped ds e i (inr m) = absurd (cc ((contains_iff marked rel.to).1 (rw (← i) m)))
