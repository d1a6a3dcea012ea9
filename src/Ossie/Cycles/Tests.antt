-- ===== src/Ossie/Cycles/Tests.antt =====
-- Runs of the cycle search, and an instance of its theorem.
use semantic_operator.Prelude.{
  Text, List, [], ◌∷◌, codes, ok, err, ◌≡◌, ◌⊎◌, inl, inr, refl, ap, lookup, text_eq,
}
use semantic_operator.Ossie.Cycles.{Marks, black, gray, cycle, find_cycle}
use semantic_operator.Ossie.Cycles.Walks.{Reaches, IsCycle}
use semantic_operator.Ossie.Cycles.Acyclic.{IsKeyOrder, find_cycle_exact}

abbrev a : Text
a = codes "a"

abbrev b : Text
b = codes "b"

abbrev c : Text
c = codes "c"

-- `c` is reached twice.
abbrev diamond : List (Text × Text)
diamond = (a, b) ∷ (a, c) ∷ (b, c) ∷ []

abbrev ring : List (Text × Text)
ring = (a, b) ∷ (b, c) ∷ (c, b) ∷ []

ring_cycle : find_cycle ring (a ∷ b ∷ c ∷ []) ≡ err (cycle (a ∷ b ∷ c ∷ b ∷ []))
unfolding find_cycle lookup text_eq
ring_cycle = refl

diamond_marks :
    find_cycle diamond (b ∷ a ∷ [])
    ≡ ok (record {
      color = (a, black) ∷ (a, gray) ∷ (b, black) ∷ (c, black) ∷ (c, gray) ∷ (b, gray) ∷ [];
      path = [];
    })
unfolding find_cycle lookup text_eq
diamond_marks = refl

diamond-IsKeyOrder : IsKeyOrder diamond (b ∷ a ∷ [])
diamond-IsKeyOrder n = (
  λ m. elim m [
    | inl e ↦ (c, inr (inr (inl (rw e refl))))
    | inr (inl e) ↦ (b, inl (rw e refl))
    | inr (inr e) ↦ absurd e
  ],
  λ (m, e). elim e [
    | inl q ↦ inr (inl (ap (λ (p : Text × Text). p.0) q))
    | inr (inl q) ↦ inr (inl (ap (λ (p : Text × Text). p.0) q))
    | inr (inr (inl q)) ↦ inl (ap (λ (p : Text × Text). p.0) q)
    | inr (inr (inr q)) ↦ absurd q
  ],
)

find_cycle_exact_example :
    ((p : List Text) × (find_cycle diamond (b ∷ a ∷ []) ≡ err (cycle p)) × IsCycle diamond p)
    ⊎ ((s : Marks) × (find_cycle diamond (b ∷ a ∷ []) ≡ ok s)
        × ((n : Text) → Reaches diamond n n → ⊥))
find_cycle_exact_example = find_cycle_exact diamond (b ∷ a ∷ []) diamond-IsKeyOrder
