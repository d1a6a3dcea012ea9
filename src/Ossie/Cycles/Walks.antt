-- ===== src/Ossie/Cycles/Walks.antt =====
-- Walks in the graph of the relationships, and orders of its nodes in which every edge goes on.
use mathlib.Core.Path.{subst}
use semantic_operator.Prelude.{
  Text, List, [], ◌∷◌, ◌++◌, text_eq_iff, ◌≡◌, ◌↔◌, inl, inr, refl, ap, sym, arith, Elem,
}
use semantic_operator.Ossie.Cycles.{targets}

pub targets_iff :
    (edges : List (Text × Text)) (a b : Text) → Elem b (targets edges a) ↔ Elem (a, b) edges
unfolding targets
targets_iff [] a b = (λ m. m, λ m. m)
targets_iff ((c, d) ∷ edges) a b =
    ground (arith, targets_iff edges a b, text_eq_iff c a, pair_iff a b c d)
  where
    pair_iff : (a b c d : Text) → (◌≡◌ {A = Text × Text} (a, b) (c, d)) ↔ ((a ≡ c) × (b ≡ d))
    pair_iff a b c d = (
      λ e. (ap (λ (p : Text × Text). p.0) e, ap (λ (p : Text × Text). p.1) e),
      λ (e, f). rw (e, f) refl,
    )

module _ (edges : List (Text × Text)) where
  -- Some edges lead from the one node to the other.
  pub data Reaches : Text → Text → Type 0 where
    edge : {a b : Text} → Elem (a, b) edges → Reaches a b
    further : {a b c : Text} → Elem (a, b) edges → Reaches b c → Reaches a c

  abbrev pub IsWalk : List Text → Type 0
  IsWalk [] = Unit
  IsWalk (a ∷ []) = Unit
  IsWalk (a ∷ b ∷ p) = Elem (a, b) edges × IsWalk (b ∷ p)

  -- A walk that comes back to one of its nodes.
  abbrev pub IsCycle : List Text → Type 0
  IsCycle c = (p : List Text) × (m : Text) × (c ≡ p ++ m ∷ []) × Elem m p × IsWalk c

  pub IsWalk-snoc :
      (p : List Text) (a b : Text)
      → IsWalk (p ++ a ∷ [])
      → Elem (a, b) edges
      → IsWalk ((p ++ a ∷ []) ++ b ∷ [])
  IsWalk-snoc [] a b w e = (e, tt)
  IsWalk-snoc (x ∷ []) a b w e = (w.0, (e, tt))
  IsWalk-snoc (x ∷ y ∷ p) a b w e = (w.0, IsWalk-snoc (y ∷ p) a b w.1 e)

  -- Every edge from a node of the list goes to a later one, and no node stands twice.
  abbrev pub IsTopological : List Text → Type 0
  IsTopological [] = Unit
  IsTopological (n ∷ ns) =
      ((m : Text) → Elem m (targets edges n) → Elem m ns) × (Elem n ns → ⊥) × IsTopological ns

  IsTopological-closed :
      (ns : List Text) (a b : Text) → IsTopological ns → Elem a ns → Elem (a, b) edges → Elem b ns
  IsTopological-closed [] a b t m e = absurd m
  IsTopological-closed (n ∷ ns) a b t (inl q) e =
      inr (t.0 b ((targets_iff edges n b).1 (rw (sym q) e)))
  IsTopological-closed (n ∷ ns) a b t (inr m) e = inr (IsTopological-closed ns a b t.2 m e)

  IsTopological-Reaches :
      (ns : List Text) {a b : Text} → IsTopological ns → Elem a ns → Reaches a b → Elem b ns
  IsTopological-Reaches ns t m (edge {a} {b} e) = IsTopological-closed ns a b t m e
  IsTopological-Reaches ns t m (further {a} {b} e r) =
      IsTopological-Reaches ns t (IsTopological-closed ns a b t m e) r

  pub IsTopological-acyclic :
      (ns : List Text) (a : Text) → IsTopological ns → Elem a ns → Reaches a a → ⊥
  IsTopological-acyclic [] a t m r = absurd m
  IsTopological-acyclic (n ∷ ns) a t (inr m) r = IsTopological-acyclic ns a t.2 m r
  IsTopological-acyclic (n ∷ ns) a t (inl q) (edge {b} e) = t.1 (
      subst (λ x. Elem x ns) q
        (t.0 a ((targets_iff edges n a).1 (subst (λ x. Elem (x, a) edges) q e))))
  IsTopological-acyclic (n ∷ ns) a t (inl q) (further {b} e r) =
      let after = t.0 b ((targets_iff edges n b).1 (subst (λ x. Elem (x, b) edges) q e)) in
      t.1 (subst (λ x. Elem x ns) q (IsTopological-Reaches ns t.2 after r))
