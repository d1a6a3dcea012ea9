-- ===== src/Ossie/Cycles/Acyclic.antt =====
-- `findCycle` as a whole.
use mathlib.Core.Path.{subst}
use semantic_operator.Prelude.{
  Text, ℕ, zero, suc, ◌<◌, ◌≤◌, List, [], ◌∷◌, ◌++◌, lookup, ◌≡◌, ◌≢◌, ◌↔◌, ◌⊎◌, inl, inr, refl, ap,
  sym, ◌∙◌, arith, Elem, length, Result, ok, err, Result-cases,
}
use semantic_operator.Prelude.Ensures.{
  Ensures, holds, rejected, Ensures->>=, Ensures-weaken, Ensures-ok, Ensures-err,
}
use semantic_operator.Ossie.Cycles.{
  white, gray, Marks, color_of, enter, leave, explore, depth_first, search_all, nodes, targets,
  Stop, cycle, out_of_fuel, find_cycle, drop_last,
}
use semantic_operator.Ossie.Cycles.Walks.{
  targets_iff, Reaches, edge, further, IsWalk, IsCycle, IsWalk-snoc, IsTopological-acyclic,
}
use semantic_operator.Ossie.Cycles.Marked.{
  Color-cases, whites, IsDarker, whites-IsDarker, whites-lt, whites-le, IsMarked, IsMarked-IsDarker,
  enter-IsMarked, leave-IsMarked, drop_last-snoc, color_of-insert_cases,
}

-- The order of the map's keys, whatever it is.
abbrev pub IsKeyOrder : List (Text × Text) → List Text → Type 0
IsKeyOrder edges order = (n : Text) → Elem n order ↔ ((m : Text) × Elem (n, m) edges)

module _ (edges : List (Text × Text)) where
  Elem-nodes :
      (es : List (Text × Text)) (a b : Text)
      → Elem (a, b) es
      → Elem a (nodes es) × Elem b (nodes es)
  Elem-nodes [] a b m = absurd m
  Elem-nodes ((c, d) ∷ es) a b (inl e) =
      (inl (ap (λ (p : Text × Text). p.0) e), inr (inl (ap (λ (p : Text × Text). p.1) e)))
  Elem-nodes ((c, d) ∷ es) a b (inr m) =
      let (l, r) = Elem-nodes es a b m in (inr (inr l), inr (inr r))

  -- The search stops only at a cycle.
  abbrev Stops : Stop → Type 0
  Stops (cycle c) = IsCycle edges c
  Stops out_of_fuel = ⊥

  -- What a search from `s` ends with: the same path, and more nodes done.
  abbrev Extends : Marks → List Text → List Text → Marks → Type 0
  Extends s done found t =
      (later : List Text) × IsMarked edges t later
      × (t.path ≡ s.path)
      × ((n : Text) → Elem n done → Elem n later)
      × ((n : Text) → Elem n found → Elem n later)

  -- A search from any white node, where there are at most `bound` white nodes.
  abbrev IsSearch : ℕ → (Text → Marks → Result Stop Marks) → Type 0
  IsSearch bound dfs =
      (n : Text) (s : Marks) (done : List Text)
      → IsMarked edges s done
      → color_of s.color n ≡ white
      → Elem n (nodes edges)
      → IsWalk edges (s.path ++ n ∷ [])
      → whites s.color (nodes edges) ≤ bound
      → Ensures Stops (Extends s done (n ∷ [])) (dfs n s)

  found_cons :
      (m : Text) (ms later : List Text)
      → Elem m later
      → ((n : Text) → Elem n ms → Elem n later)
      → (n : Text) → Elem n (m ∷ ms)
      → Elem n later
  found_cons m ms later h k n (inl e) = subst (λ x. Elem x later) (sym e) h
  found_cons m ms later h k n (inr l) = k n l

  explore-Extends :
      (bound : ℕ) (dfs : Text → Marks → Result Stop Marks)
      → IsSearch bound dfs
      → (ms : List Text) (s : Marks) (done : List Text) → IsMarked edges s done
      → ((m : Text) → Elem m ms → Elem m (nodes edges) × IsWalk edges (s.path ++ m ∷ []))
      → whites s.color (nodes edges) ≤ bound
      → Ensures Stops (Extends s done ms) (explore dfs ms s)
  unfolding explore
  explore-Extends bound dfs search [] s done i h w =
      holds (done, i, refl, λ n m. m, λ n m. absurd m)
  explore-Extends bound dfs search (m ∷ ms) s done i h w = elim (Color-cases (color_of s.color m)) [
    | inr (inl g) ↦
        rw (g, explore) (rejected (s.path, m, refl, (i.gray_path m).0 g, (h m (inl refl)).1))
    | inr (inr b) ↦
        rw (b, explore)
          (Ensures-weaken
            (λ t (later, j, p, old, new).
              (later, j, p, old, found_cons m ms later (old m ((i.black_done m).0 b)) new))
            (explore-Extends bound dfs search ms s done i (λ n l. h n (inr l)) w))
    | inl c ↦
        rw (c, explore)
          (Ensures->>= (search m s done i c (h m (inl refl)).0 (h m (inl refl)).1 w)
            λ t (later, j, p, old, new).
              Ensures-weaken
                (λ u (last, k, q, old2, new2). (
                  last,
                  k,
                  q ∙ p,
                  λ n l. old2 n (old n l),
                  found_cons m ms last (old2 m (new m (inl refl))) new2,
                ))
                (explore-Extends bound dfs search ms t later j (λ n l. rw p (h n (inr l)))
                  (omega (
                    arith,
                    whites-IsDarker s.color t.color (nodes edges)
                        (IsMarked-IsDarker edges s t done later i j p old),
                  ))))
  ]

  enter-IsDarker : (s : Marks) (n : Text) → IsDarker s.color (enter n s).color
  unfolding enter
  enter-IsDarker s n x w = elim (color_of-insert_cases s.color n x gray) [
    | inl (q, e) ↦ cc
    | inr (d, e) ↦ sym e ∙ w
  ]

  -- Entering a white node leaves fewer white nodes.
  enter-whites :
      (s : Marks) (n : Text)
      → color_of s.color n ≡ white
      → Elem n (nodes edges)
      → whites (enter n s).color (nodes edges) < whites s.color (nodes edges)
  unfolding enter
  enter-whites s n w m =
      whites-lt s.color (enter n s).color (nodes edges) n (enter-IsDarker s n) m w (λ e.
        elim (color_of-insert_cases s.color n n gray) [
          | inl (q, g) ↦ cc
          | inr (d, g) ↦ absurd (d refl)
        ])

  depth_first-IsSearch : (fuel : ℕ) → IsSearch fuel (depth_first edges fuel)
  unfolding depth_first enter leave
  depth_first-IsSearch zero n s done i c m w h = absurd (omega (arith, enter-whites s n c m))
  depth_first-IsSearch (suc fuel) n s done i c m w h =
      Ensures->>=
        (explore-Extends fuel (depth_first edges fuel) (depth_first-IsSearch fuel) (targets edges n)
          (enter n s) done (enter-IsMarked edges s done n c i) goes_on
          (omega (arith, enter-whites s n c m)))
        λ t (later, j, p, old, new). holds (
          n ∷ later,
          leave-IsMarked edges t s.path later n (on_path t p) fresh new j,
          back t (on_path t p),
          λ x l. inr (old x l),
          λ x l. elim l [ inl q ↦ inl q | inr e ↦ absurd e ],
        )
    where
      goes_on :
          (x : Text)
          → Elem x (targets edges n)
          → Elem x (nodes edges) × IsWalk edges ((enter n s).path ++ x ∷ [])
      goes_on x l =
          let e = (targets_iff edges n x).0 l in
          ((Elem-nodes edges n x e).1, IsWalk-snoc edges s.path n x w e)

      on_path : (t : Marks) → t.path ≡ (enter n s).path → t.path ≡ s.path ++ n ∷ []
      on_path t p = p

      fresh : Elem n s.path → ⊥
      fresh l = apart (sym c ∙ (i.gray_path n).1 l)
        where
          apart : white ≢ gray
          apart = cc

      back : (t : Marks) → t.path ≡ s.path ++ n ∷ [] → (leave n t).path ≡ s.path
      back t p = ap drop_last p ∙ drop_last-snoc s.path n

  search_all-Extends :
      (fuel : ℕ) (ns : List Text) (s : Marks) (done : List Text)
      → IsMarked edges s done
      → s.path ≡ []
      → ((n : Text) → Elem n ns → Elem n (nodes edges))
      → whites s.color (nodes edges) ≤ fuel
      → Ensures Stops (Extends s done ns) (search_all edges fuel ns s)
  unfolding search_all
  search_all-Extends fuel [] s done i e h w = holds (done, i, refl, λ n m. m, λ n m. absurd m)
  search_all-Extends fuel (m ∷ ms) s done i e h w = elim (Color-cases (color_of s.color m)) [
    | inr (inl g) ↦ absurd (subst (λ p. Elem m p) e ((i.gray_path m).0 g))
    | inr (inr b) ↦
        rw (b, search_all)
          (Ensures-weaken
            (λ t (later, j, p, old, new).
              (later, j, p, old, found_cons m ms later (old m ((i.black_done m).0 b)) new))
            (search_all-Extends fuel ms s done i e (λ n l. h n (inr l)) w))
    | inl c ↦
        rw (c, search_all)
          (Ensures->>= (depth_first-IsSearch fuel m s done i c (h m (inl refl)) (rw e tt) w)
            λ t (later, j, p, old, new).
              Ensures-weaken
                (λ u (last, k, q, old2, new2). (
                  last,
                  k,
                  q ∙ p,
                  λ n l. old2 n (old n l),
                  found_cons m ms last (old2 m (new m (inl refl))) new2,
                ))
                (search_all-Extends fuel ms t later j (p ∙ e) (λ n l. h n (inr l))
                  (omega (
                    arith,
                    whites-IsDarker s.color t.color (nodes edges)
                        (IsMarked-IsDarker edges s t done later i j p old),
                  ))))
  ]

  start-IsMarked : IsMarked edges (record { color = []; path = [] }) []
  unfolding color_of lookup
  start-IsMarked = record {
    gray_path = λ n. (λ e. cc, λ m. absurd m);
    black_done = λ n. (λ e. cc, λ m. absurd m);
    ordered = tt;
  }

  find_cycle-Ensures :
      (order : List Text)
      → IsKeyOrder edges order
      → Ensures Stops (λ t. (n : Text) → Reaches edges n n → ⊥) (find_cycle edges order)
  unfolding find_cycle
  find_cycle-Ensures order h =
      Ensures-weaken
        (λ t (later, j, p, old, new).
          λ n r. IsTopological-acyclic edges later n j.ordered (new n ((h n).1 (leaves n r))) r)
        (search_all-Extends (suc (length (nodes edges))) order (record { color = []; path = [] }) []
          start-IsMarked refl (λ n l. let (m, e) = (h n).0 l in (Elem-nodes edges n m e).0)
          (omega (arith, whites-le [] (nodes edges))))
    where
      leaves : (n : Text) {b : Text} → Reaches edges n b → (m : Text) × Elem (n, m) edges
      leaves n (edge {b} e) = (b, e)
      leaves n (further {b} e r) = (b, e)

-- `findCycle` ends, and it returns either a walk of the graph that comes back to one of its nodes,
-- or nothing, and then no node of the graph reaches itself. The order of the keys does not matter.
pub find_cycle_exact :
    (edges : List (Text × Text)) (order : List Text)
    → IsKeyOrder edges order
    → ((c : List Text) × (find_cycle edges order ≡ err (cycle c)) × IsCycle edges c)
      ⊎ ((s : Marks) × (find_cycle edges order ≡ ok s) × ((n : Text) → Reaches edges n n → ⊥))
find_cycle_exact edges order h = elim (Result-cases (find_cycle edges order)) [
  | inl (s, e) ↦ inr (s, e, Ensures-ok s (find_cycle-Ensures edges order h) e)
  | inr (cycle c, e) ↦ inl (c, e, Ensures-err (cycle c) (find_cycle-Ensures edges order h) e)
  | inr (out_of_fuel, e) ↦ absurd (Ensures-err out_of_fuel (find_cycle-Ensures edges order h) e)
]
