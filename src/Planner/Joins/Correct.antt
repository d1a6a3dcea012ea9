-- ===== src/Planner/Joins/Correct.antt =====
-- internal/planner/plan_sql.go: the results of `reach` and `joinTree`.
use semantic_operator.Prelude.{
  Text, Bool, List, [], ◌∷◌, ◌++◌, map, keep, length, append-nil, contains, contains_iff, none,
  some, Result, ok, err, ok_injective, ◌≡◌, ◌⊎◌, inl, inr, refl, sym, ap, ◌∙◌, arith, Elem,
  Bool-cases, Option-cases,
}
use mathlib.Core.Path.{subst}
use mathlib.Core.Option.{some-injective}
use semantic_operator.Prelude.Lists.{
  Elem-append, Elem-append_left, Elem-append_right, Elem-keep, Elem-map, Elem-map_inv,
}
use semantic_operator.Errors.{Error, no_join_path}
use semantic_operator.Planner.{CompiledModel, CompiledRelationship}
use semantic_operator.Planner.Joins.{
  Search, search_from, climb, needed, pruned, reach, first_root, candidates, join_tree,
}
use semantic_operator.Planner.Joins.Tree.{to_of, InTree, IsJoinTree, IsClosed, Ordered-keep}
use semantic_operator.Planner.Joins.Searching.{IsSound, search_from-IsSound}
use semantic_operator.Planner.Joins.Climbing.{Leads, IsClimb, climb-IsClimb}
use semantic_operator.Planner.Joins.Exhaustive.{search_from-Leads}

module _ (s : Search) (root : Text) where
  -- What the loop on the required datasets marks.
  record IsMarked (required marked : List Text) : Type 0 where
    inside : (ds : Text) → Elem ds marked → Elem ds (map to_of s.discovery)
    reached : (ds : Text) → Elem ds required → (ds ≡ root) ⊎ Elem ds marked
    closed : IsClosed marked root s.discovery
    leads :
        (joins : List CompiledRelationship)
        → ((rel : CompiledRelationship)
            → Elem rel s.discovery
            → Elem rel.to marked
            → Elem rel joins)
        → (ds : Text) → Elem ds marked
        → (goal : Text) × Elem goal required × Leads joins ds goal

  marks :
      (ds : Text) (required found marked : List Text) (h : IsJoinTree root s.discovery)
      → IsClimb s.discovery root h ds found
      → IsMarked required marked
      → IsMarked (ds ∷ required) (found ++ marked)
  marks ds required found marked h c m = record {
    inside =
        λ k j. elim (Elem-append k found marked j) [ inl i ↦ c.inside k i | inr i ↦ m.inside k i ];
    reached = λ k j. elim j [
      | inl e ↦ elim c.starts [
        | inl t ↦ inl (e ∙ t)
        | inr t ↦ inr (Elem-append_left k found marked (rw e t))
      ]
      | inr j ↦ elim (m.reached k j) [
        | inl t ↦ inl t
        | inr t ↦ inr (Elem-append_right k found marked t)
      ]
    ];
    closed = λ rel k j. elim (Elem-append rel.to found marked j) [
      | inl i ↦ elim (c.closed rel k i) [
        | inl t ↦ inl t
        | inr t ↦ inr (Elem-append_left rel.from found marked t)
      ]
      | inr i ↦ elim (m.closed rel k i) [
        | inl t ↦ inl t
        | inr t ↦ inr (Elem-append_right rel.from found marked t)
      ]
    ];
    leads = λ joins sub k j. elim (Elem-append k found marked j) [
      | inl i ↦ (
        ds,
        inl refl,
        c.leads joins (λ rel u v. sub rel u (Elem-append_left rel.to found marked v)) k i,
      )
      | inr i ↦
          let (goal, u, v) =
            m.leads joins (λ rel u v. sub rel u (Elem-append_right rel.to found marked v)) k i in
          (goal, inr u, v)
    ];
  }

module _ (rels : List CompiledRelationship) (root : Text) (s : Search)
    (h : IsSound rels root s) where
  needed-IsMarked :
      (required marked : List Text)
      → needed s root required ≡ some marked
      → IsMarked s root required marked
  unfolding needed
  needed-IsMarked [] marked e = subst (IsMarked s root []) (some-injective _ _ e) (record {
    inside = λ ds m. absurd m;
    reached = λ ds m. absurd m;
    closed = λ rel m k. absurd k;
    leads = λ joins sub ds m. absurd m;
  })
  needed-IsMarked (ds ∷ required) marked e = elim (Bool-cases (contains s.visited ds)) [
    | inl v ↦ elim (Option-cases (needed s root required)) [
      | inl n ↦ absurd (cc (rw (v, n) at e))
      | inr (more, m) ↦
          subst (IsMarked s root (ds ∷ required)) (some-injective _ _ (rw (v, m) at e)) (
            marks s root ds required (climb s.discovery root (length s.discovery) ds) more h.tree
              (climb-IsClimb s.discovery root h.tree (length s.discovery) s.discovery [] ds
                (sym (append-nil s.discovery)) ((h.visits ds).0 ((contains_iff s.visited ds).0 v))
                (omega arith))
              (needed-IsMarked required more m))
    ]
    | inr n ↦ absurd (cc (rw n at e))
  ]

  needed-none :
      (required : List Text)
      → needed s root required ≡ none
      → (ds : Text) × Elem ds required × (Elem ds s.visited → ⊥)
  unfolding needed
  needed-none [] e = absurd (cc e)
  needed-none (ds ∷ required) e = elim (Bool-cases (contains s.visited ds)) [
    | inl v ↦ elim (Option-cases (needed s root required)) [
      | inl n ↦ let (k, m, u) = needed-none required n in (k, inr m, u)
      | inr (more, m) ↦ absurd (cc (rw (v, m) at e))
    ]
    | inr n ↦ (ds, inl refl, λ m. cc ((contains_iff s.visited ds).1 m))
  ]

-- What a join tree over the required datasets is.
pub record Joins (rels : List CompiledRelationship) (required : List Text) (root : Text)
    (joins : List CompiledRelationship) : Type 0 where
  pub tree : IsJoinTree root joins
  pub known : (rel : CompiledRelationship) → Elem rel joins → Elem rel rels
  pub reached : (ds : Text) → Elem ds required → InTree root joins ds
  pub useful :
      (rel : CompiledRelationship)
      → Elem rel joins
      → (ds : Text) × Elem ds required × Leads joins rel.to ds

pruned-Joins :
    (rels : List CompiledRelationship) (root : Text) (s : Search) (required marked : List Text)
    → IsSound rels root s
    → IsMarked s root required marked
    → Joins rels required root (pruned s marked)
unfolding pruned
pruned-Joins rels root s required marked h m = record {
  tree =
      Ordered-keep marked root (root ∷ []) (root ∷ []) s.discovery h.tree m.closed (λ ds k. k)
        (λ ds k _. k) (inl refl);
  known = λ rel k. h.known rel ((Elem-keep passes s.discovery rel).0 k).0;
  reached = λ ds k. elim (m.reached ds k) [ inl e ↦ inl e | inr j ↦ inr (stays ds j) ];
  useful = λ rel k.
      let (i, j) = (Elem-keep passes s.discovery rel).0 k in
      m.leads (keep passes s.discovery)
        (λ r u v. (Elem-keep passes s.discovery r).1 (u, (contains_iff marked r.to).1 v)) rel.to
        ((contains_iff marked rel.to).0 j);
}
  where
    passes : CompiledRelationship → Bool
    passes rel = contains marked rel.to

    stays : (ds : Text) → Elem ds marked → Elem ds (map to_of (keep passes s.discovery))
    stays ds j =
        let (rel, u, e) = Elem-map_inv to_of ds s.discovery (m.inside ds j) in
        rw e (
          Elem-map to_of rel (keep passes s.discovery)
            ((Elem-keep passes s.discovery rel).1 (u, (contains_iff marked rel.to).1 (rw (← e) j))))

-- What `reach` returns is a join tree over the required datasets, made of the model's
-- relationships, and without a join that leads to nothing required.
pub reach-Joins :
    (rels : List CompiledRelationship) (root : Text) (required : List Text)
    (joins : List CompiledRelationship)
    → reach rels root required ≡ some joins
    → Joins rels required root joins
unfolding reach
reach-Joins rels root required joins e =
    elim (Option-cases (needed (search_from rels root) root required)) [
      | inl n ↦ absurd (cc (rw (n, reach) at e))
      | inr (marked, m) ↦
          let h = search_from-IsSound rels root in
          subst (Joins rels required root) (some-injective _ _ (rw (m, reach) at e)) (
            pruned-Joins rels root (search_from rels root) required marked h
              (needed-IsMarked rels root (search_from rels root) h required marked m))
    ]

-- Where `reach` returns nothing, the root does not lead to some required dataset.
pub reach-none :
    (rels : List CompiledRelationship) (root : Text) (required : List Text)
    → reach rels root required ≡ none
    → (ds : Text) × Elem ds required × (Leads rels root ds → ⊥)
unfolding reach
reach-none rels root required e =
    elim (Option-cases (needed (search_from rels root) root required)) [
      | inl n ↦
          let (ds, m, u) =
            needed-none rels root (search_from rels root) (search_from-IsSound rels root) required
              n in
          (ds, m, λ p. u (search_from-Leads rels root ds p))
      | inr (marked, m) ↦ absurd (cc (rw (m, reach) at e))
    ]

-- The first candidate that works.
first_root-Joins :
    (rels : List CompiledRelationship) (required roots : List Text) (root : Text)
    (joins : List CompiledRelationship)
    → first_root rels required roots ≡ some (root, joins)
    → Elem root roots × Joins rels required root joins
unfolding first_root
first_root-Joins rels required [] root joins e = absurd (cc e)
first_root-Joins rels required (r ∷ roots) root joins e =
    elim (Option-cases (reach rels r required)) [
      | inl n ↦
          let (m, j) = first_root-Joins rels required roots root joins (rw (n, first_root) at e) in
          (inr m, j)
      | inr (found, m) ↦
          let same = some-injective _ _ (rw (m, first_root) at e) in
          (
            inl (sym (ap (λ p. p.0) same)),
            subst (λ p. Joins rels required p.0 p.1) same (reach-Joins rels r required found m),
          )
    ]

first_root-none :
    (rels : List CompiledRelationship) (required roots : List Text)
    → first_root rels required roots ≡ none
    → (root : Text) → Elem root roots
    → (ds : Text) × Elem ds required × (Leads rels root ds → ⊥)
unfolding first_root
first_root-none rels required [] e root m = absurd m
first_root-none rels required (r ∷ roots) e root m = elim (Option-cases (reach rels r required)) [
  | inl n ↦ elim m [
    | inl i ↦ rw i (reach-none rels r required n)
    | inr k ↦ first_root-none rels required roots (rw (n, first_root) at e) root k
  ]
  | inr (found, k) ↦ absurd (cc (rw (k, first_root) at e))
]

candidate :
    (cm : CompiledModel) (required : List Text) (root : Text)
    → Elem root (candidates cm required)
    → Elem root cm.dataset_order
candidate cm required root m =
    elim (Elem-append root (keep (contains required) cm.dataset_order) cm.dataset_order m) [
      | inl k ↦ ((Elem-keep (contains required) cm.dataset_order root).0 k).0
      | inr k ↦ k
    ]

-- `joinTree` succeeds with a dataset of the model as root, and a join tree over the required
-- datasets, made of the model's relationships, without a join that leads to nothing required.
pub join_tree-Joins :
    (cm : CompiledModel) (required : List Text) (root : Text) (joins : List CompiledRelationship)
    → join_tree cm required ≡ ok (root, joins)
    → Elem root cm.dataset_order × Joins cm.relationships required root joins
unfolding join_tree
join_tree-Joins cm [] root joins e = absurd (cc e)
join_tree-Joins cm (ds ∷ required) root joins e =
    elim (Option-cases
      (first_root cm.relationships (ds ∷ required) (candidates cm (ds ∷ required)))) [
        | inl n ↦ absurd (cc (rw (n, join_tree) at e))
        | inr (found, m) ↦
            let (k, j) =
              first_root-Joins cm.relationships (ds ∷ required) (candidates cm (ds ∷ required)) root
                joins (m ∙ ap some (ok_injective found (root, joins) (rw (m, join_tree) at e))) in
            (candidate cm (ds ∷ required) root k, j)
      ]

-- `joinTree` fails on datasets of which there are some only if no dataset of the model leads to all
-- of them, and then says so.
pub join_tree_none :
    (cm : CompiledModel) (ds : Text) (required : List Text) (e : Error)
    → join_tree cm (ds ∷ required) ≡ err e
    → (e ≡ no_join_path (keep (contains (ds ∷ required)) cm.dataset_order))
      × ((root : Text)
          → Elem root cm.dataset_order
          → (goal : Text) × Elem goal (ds ∷ required) × (Leads cm.relationships root goal → ⊥))
unfolding join_tree
join_tree_none cm ds required e h =
    elim (Option-cases
      (first_root cm.relationships (ds ∷ required) (candidates cm (ds ∷ required)))) [
        | inl n ↦ (
          err_same (rw (n, join_tree) at h),
          λ root m.
              first_root-none cm.relationships (ds ∷ required) (candidates cm (ds ∷ required)) n
                root
                (Elem-append_right root (keep (contains (ds ∷ required)) cm.dataset_order)
                  cm.dataset_order m),
        )
        | inr (found, m) ↦ absurd (cc (rw (m, join_tree) at h))
      ]
  where
    err_same :
        {d : Error}
        → ◌≡◌ {A = Result Error (Text × List CompiledRelationship)} (err d) (err e)
        → e ≡ d
    err_same k = cc
