-- ===== src/Planner/Joins/Searching.antt =====
-- internal/planner/plan_sql.go, `reach`: the invariant of the breadth-first search.
use semantic_operator.Prelude.{
  Text, ℕ, zero, suc, false, List, [], ◌∷◌, ◌++◌, contains, contains_iff, text_eq, text_eq_iff, ◌≡◌,
  ◌↔◌, ◌⊎◌, inl, inr, refl, arith, Elem, length, Bool-cases,
}
use semantic_operator.Prelude.Lists.{Elem-append_left, Elem-snoc}
use semantic_operator.Planner.{CompiledRelationship}
use semantic_operator.Planner.Joins.{Search, visit, visit_all, search, start, search_from}
use semantic_operator.Planner.Joins.Tree.{InTree, IsJoinTree, Ordered-snoc}

InTree-snoc :
    (root : Text) (rels : List CompiledRelationship) (rel : CompiledRelationship) (ds : Text)
    → InTree root (rels ++ rel ∷ []) ds ↔ (InTree root rels ds ⊎ (ds ≡ rel.to))
InTree-snoc root [] rel ds = ground arith
InTree-snoc root (r ∷ rels) rel ds = ground (arith, InTree-snoc root rels rel ds)

module _ (rels : List CompiledRelationship) (root : Text) where
  -- What holds between the rounds.
  pub record IsSound (s : Search) : Type 0 where
    pub tree : IsJoinTree root s.discovery
    pub known : (rel : CompiledRelationship) → Elem rel s.discovery → Elem rel rels
    pub visits : (ds : Text) → Elem ds s.visited ↔ InTree root s.discovery ds
    pub queued : (ds : Text) → Elem ds s.queue → Elem ds s.visited

  start-IsSound : IsSound (start root)
  start-IsSound = record {
    tree = tt;
    known = λ rel m. absurd m;
    visits = λ ds. ground arith;
    queued = λ ds m. m;
  }

  -- A round that discovers a relationship.
  grown-IsSound :
      (s : Search) (rel : CompiledRelationship)
      → IsSound s
      → Elem rel rels
      → Elem rel.from s.visited
      → contains s.visited rel.to ≡ false
      → IsSound (record {
        visited = s.visited ++ rel.to ∷ [];
        discovery = s.discovery ++ rel ∷ [];
        queue = s.queue ++ rel.to ∷ [];
      })
  grown-IsSound s rel h m f n = record {
    tree =
        Ordered-snoc (root ∷ []) s.discovery rel h.tree
          (elim ((h.visits rel.from).0 f) [ inl e ↦ inl (inl e) | inr k ↦ inr k ])
          (λ k. elim k [ inl e ↦ fresh ((h.visits rel.to).1 (inl e)) | inr x ↦ absurd x ])
          (λ k. fresh ((h.visits rel.to).1 (inr k)));
    known =
        λ r k. elim ((Elem-snoc r rel s.discovery).0 k) [ inl a ↦ h.known r a | inr e ↦ rw e m ];
    visits = λ ds.
        ground
          (arith, h.visits ds, Elem-snoc ds rel.to s.visited, InTree-snoc root s.discovery rel ds);
    queued = λ ds.
        ground (arith, h.queued ds, Elem-snoc ds rel.to s.visited, Elem-snoc ds rel.to s.queue);
  }
    where
      fresh : Elem rel.to s.visited → ⊥
      fresh k = cc ((contains_iff s.visited rel.to).1 k)

  visit-IsSound :
      (cur : Text) (s : Search) (rel : CompiledRelationship)
      → IsSound s
      → Elem rel rels
      → Elem cur s.visited
      → IsSound (visit cur s rel) × Elem cur (visit cur s rel).visited
  unfolding visit
  visit-IsSound cur s rel h m v = elim (Bool-cases (text_eq rel.from cur)) [
    | inl e ↦ elim (Bool-cases (contains s.visited rel.to)) [
      | inl k ↦ rw (e, k) (h, v)
      | inr n ↦
          rw (e, n)
            (
              grown-IsSound s rel h m (rw ((text_eq_iff rel.from cur).0 e) v) n,
              Elem-append_left cur s.visited (rel.to ∷ []) v,
            )
    ]
    | inr n ↦ rw n (h, v)
  ]

  visit_all-IsSound :
      (cur : Text) (s : Search) (todo : List CompiledRelationship)
      → IsSound s
      → ((rel : CompiledRelationship) → Elem rel todo → Elem rel rels)
      → Elem cur s.visited
      → IsSound (visit_all cur s todo)
  unfolding visit_all
  visit_all-IsSound cur s [] h sub v = h
  visit_all-IsSound cur s (rel ∷ todo) h sub v =
      let (next, w) = visit-IsSound cur s rel h (sub rel (inl refl)) v in
      visit_all-IsSound cur (visit cur s rel) todo next (λ r m. sub r (inr m)) w

  search-IsSound :
      (fuel : ℕ) (visited queue : List Text) (discovery : List CompiledRelationship)
      → IsSound (record { visited = visited; discovery = discovery; queue = queue })
      → IsSound
          (search rels fuel (record { visited = visited; discovery = discovery; queue = queue }))
  unfolding search
  search-IsSound zero visited queue discovery h = h
  search-IsSound (suc fuel) visited [] discovery h = h
  search-IsSound (suc fuel) visited (cur ∷ rest) discovery h =
      let s : Search = record { visited = visited; discovery = discovery; queue = rest } in
      let next = visit_all cur s rels in
      search-IsSound fuel next.visited next.queue next.discovery (
        visit_all-IsSound cur s rels
          (record {
            tree = h.tree;
            known = h.known;
            visits = h.visits;
            queued = λ ds m. h.queued ds (inr m);
          })
          (λ rel m. m) (h.queued cur (inl refl)))

  pub search_from-IsSound : IsSound (search_from rels root)
  search_from-IsSound = search-IsSound (suc (length rels)) (root ∷ []) (root ∷ []) [] start-IsSound
