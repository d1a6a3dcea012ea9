-- ===== src/Planner/Joins/Exhaustive.antt =====
-- internal/planner/plan_sql.go, `reach`: what the search has visited when it ends.
use semantic_operator.Prelude.{
  Text, ℕ, zero, suc, ◌+◌, ◌≤◌, ◌<◌, Bool, true, false, not, List, [], ◌∷◌, ◌++◌, length, keep,
  contains, contains_iff, text_eq, text_eq_iff, ◌≡◌, ◌⊎◌, inl, inr, refl, sym, ap, ◌∙◌, arith, Elem,
  Bool-cases,
}
use semantic_operator.Prelude.Lists.{
  Elem-append, Elem-append_left, Elem-append_right, length-append,
}
use semantic_operator.Planner.{CompiledRelationship}
use semantic_operator.Planner.Joins.{Search, visit, visit_all, search, search_from}
use semantic_operator.Planner.Joins.Climbing.{Leads, stay, step}

abbrev fresh : List Text → CompiledRelationship → Bool
fresh visited rel = not (contains visited rel.to)

-- The relationships whose target is not visited yet.
abbrev unseen : List Text → List CompiledRelationship → ℕ
unseen visited rels = length (keep (fresh visited) rels)

abbrev Includes : List Text → List Text → Type 0
Includes more less = (ds : Text) → Elem ds less → Elem ds more

contains_mono :
    (more less : List Text) (ds : Text)
    → Includes more less
    → contains less ds ≡ true
    → contains more ds ≡ true
contains_mono more less ds h e = (contains_iff more ds).1 (h ds ((contains_iff less ds).0 e))

unseen_mono :
    (more less : List Text) (rels : List CompiledRelationship)
    → Includes more less
    → unseen more rels ≤ unseen less rels
unfolding keep
unseen_mono more less [] h = omega arith
unseen_mono more less (rel ∷ rels) h =
    ground (arith, unseen_mono more less rels h, contains_mono more less rel.to h)

unseen-drops :
    (more less : List Text) (rels : List CompiledRelationship) (rel : CompiledRelationship)
    → Includes more less
    → Elem rel rels
    → contains less rel.to ≡ false
    → contains more rel.to ≡ true
    → unseen more rels < unseen less rels
unfolding keep
unseen-drops more less [] rel h m a b = absurd m
unseen-drops more less (r ∷ rels) rel h (inl e) a b =
    ground (arith, unseen_mono more less rels h, ap to e)
  where
    to : CompiledRelationship → Text
    to rel = rel.to
unseen-drops more less (r ∷ rels) rel h (inr m) a b =
    ground (arith, unseen-drops more less rels rel h m a b, contains_mono more less r.to h)

unseen-all :
    (visited : List Text) (rels : List CompiledRelationship) → unseen visited rels ≤ length rels
unfolding keep
unseen-all visited [] = omega arith
unseen-all visited (rel ∷ rels) = ground (arith, unseen-all visited rels)

module _ (rels : List CompiledRelationship) where
  -- The rounds that are still to come, at most.
  abbrev work : Search → ℕ
  work s = unseen s.visited rels + length s.queue

  -- How a part of a round changes the state.
  record Grows (s t : Search) : Type 0 where
    visited : Includes t.visited s.visited
    queue : Includes t.queue s.queue
    queued : (ds : Text) → Elem ds t.visited → Elem ds s.visited ⊎ Elem ds t.queue
    bounded : work t ≤ work s

  Grows-refl : (s : Search) → Grows s s
  Grows-refl s = record {
    visited = λ ds m. m;
    queue = λ ds m. m;
    queued = λ ds m. inl m;
    bounded = omega arith;
  }

  Grows-trans : (s t u : Search) → Grows s t → Grows t u → Grows s u
  Grows-trans s t u g h = record {
    visited = λ ds m. h.visited ds (g.visited ds m);
    queue = λ ds m. h.queue ds (g.queue ds m);
    queued = λ ds m. elim (h.queued ds m) [
      | inl k ↦ elim (g.queued ds k) [ inl j ↦ inl j | inr j ↦ inr (h.queue ds j) ]
      | inr k ↦ inr k
    ];
    bounded = omega (arith, g.bounded, h.bounded);
  }

  discovers :
      (s : Search) (rel : CompiledRelationship)
      → Elem rel rels
      → contains s.visited rel.to ≡ false
      → Grows s (record {
        visited = s.visited ++ rel.to ∷ [];
        discovery = s.discovery ++ rel ∷ [];
        queue = s.queue ++ rel.to ∷ [];
      })
  discovers s rel m n = record {
    visited = λ ds k. Elem-append_left ds s.visited (rel.to ∷ []) k;
    queue = λ ds k. Elem-append_left ds s.queue (rel.to ∷ []) k;
    queued = λ ds k. elim (Elem-append ds s.visited (rel.to ∷ []) k) [
      | inl j ↦ inl j
      | inr j ↦ inr (Elem-append_right ds s.queue (rel.to ∷ []) j)
    ];
    bounded = omega (
      arith,
      unseen-drops (s.visited ++ rel.to ∷ []) s.visited rels rel
          (λ ds k. Elem-append_left ds s.visited (rel.to ∷ []) k) m n
          ((contains_iff (s.visited ++ rel.to ∷ []) rel.to).1
            (Elem-append_right rel.to s.visited (rel.to ∷ []) (inl refl))),
      length-append s.queue (rel.to ∷ []),
    );
  }

  -- Visiting a relationship; one that starts at the current dataset has its target visited.
  visit-Grows :
      (cur : Text) (s : Search) (rel : CompiledRelationship)
      → Elem rel rels
      → Grows s (visit cur s rel) × (rel.from ≡ cur → Elem rel.to (visit cur s rel).visited)
  unfolding visit
  visit-Grows cur s rel m = elim (Bool-cases (text_eq rel.from cur)) [
    | inl e ↦ elim (Bool-cases (contains s.visited rel.to)) [
      | inl k ↦ rw (e, k) (Grows-refl s, λ _. (contains_iff s.visited rel.to).0 k)
      | inr n ↦
          rw (e, n)
            (discovers s rel m n, λ _. Elem-append_right rel.to s.visited (rel.to ∷ []) (inl refl))
    ]
    | inr n ↦ rw n (Grows-refl s, λ e. absurd (cc ((text_eq_iff rel.from cur).1 e)))
  ]

  visit_all-Grows :
      (cur : Text) (s : Search) (todo : List CompiledRelationship)
      → ((rel : CompiledRelationship) → Elem rel todo → Elem rel rels)
      → Grows s (visit_all cur s todo)
        × ((rel : CompiledRelationship)
            → Elem rel todo
            → rel.from ≡ cur
            → Elem rel.to (visit_all cur s todo).visited)
  unfolding visit_all
  visit_all-Grows cur s [] sub = (Grows-refl s, λ rel m. absurd m)
  visit_all-Grows cur s (r ∷ todo) sub =
      let (g, t) = visit-Grows cur s r (sub r (inl refl)) in
      let (h, u) = visit_all-Grows cur (visit cur s r) todo (λ k m. sub k (inr m)) in
      (
        Grows-trans s (visit cur s r) (visit_all cur (visit cur s r) todo) g h,
        λ rel m e. elim m [
          | inl i ↦
              rw i (h.visited r.to (t (ap (λ (x : CompiledRelationship). x.from) (sym i) ∙ e)))
          | inr k ↦ u rel k e
        ],
      )

  -- A visited dataset waits in the queue, or has had its relationships followed.
  abbrev Followed : List Text → Text → Type 0
  Followed visited ds =
      (rel : CompiledRelationship) → Elem rel rels → rel.from ≡ ds → Elem rel.to visited

  abbrev IsCovered : Search → Type 0
  IsCovered s = (ds : Text) → Elem ds s.visited → Elem ds s.queue ⊎ Followed s.visited ds

  round-IsCovered :
      (cur : Text) (visited rest : List Text) (discovery : List CompiledRelationship)
      → IsCovered (record { visited = visited; discovery = discovery; queue = cur ∷ rest })
      → IsCovered
          (visit_all cur (record { visited = visited; discovery = discovery; queue = rest }) rels)
  round-IsCovered cur visited rest discovery h ds m =
      let (g, t) =
        visit_all-Grows cur (record { visited = visited; discovery = discovery; queue = rest }) rels
          (λ rel k. k) in
      elim (g.queued ds m) [
        | inl k ↦ elim (h ds k) [
          | inl (inl e) ↦ inr (λ rel j i. t rel j (i ∙ e))
          | inl (inr j) ↦ inl (g.queue ds j)
          | inr f ↦ inr (λ rel j i. g.visited rel.to (f rel j i))
        ]
        | inr k ↦ inl k
      ]

  -- What the search ends with: nothing is unvisited, and everything visited has been followed.
  abbrev Ends : List Text → Search → Type 0
  Ends visited t =
      Includes t.visited visited × ((ds : Text) → Elem ds t.visited → Followed t.visited ds)

  at_end :
      (visited : List Text) (ds : Text) → Elem ds [] ⊎ Followed visited ds → Followed visited ds
  at_end visited ds (inl x) = absurd x
  at_end visited ds (inr f) = f

  search-Ends :
      (fuel : ℕ) (visited queue : List Text) (discovery : List CompiledRelationship)
      → IsCovered (record { visited = visited; discovery = discovery; queue = queue })
      → unseen visited rels + length queue ≤ fuel
      → Ends visited
          (search rels fuel (record { visited = visited; discovery = discovery; queue = queue }))
  unfolding search
  search-Ends zero visited [] discovery h l = (λ ds m. m, λ ds m. at_end visited ds (h ds m))
  search-Ends zero visited (cur ∷ rest) discovery h l = absurd (omega arith)
  search-Ends (suc fuel) visited [] discovery h l = (λ ds m. m, λ ds m. at_end visited ds (h ds m))
  search-Ends (suc fuel) visited (cur ∷ rest) discovery h l =
      let s : Search = record { visited = visited; discovery = discovery; queue = rest } in
      let next = visit_all cur s rels in
      let grows = (visit_all-Grows cur s rels (λ rel k. k)).0 in
      let (more, ends) =
        search-Ends fuel next.visited next.queue next.discovery
          (round-IsCovered cur visited rest discovery h) (omega (arith, grows.bounded, l)) in
      (λ ds m. more ds (grows.visited ds m), ends)

  -- Everything that the root leads to is visited: the fuel of the search is enough.
  pub search_from-Leads :
      (root ds : Text) → Leads rels root ds → Elem ds (search_from rels root).visited
  search_from-Leads root ds p =
      let (more, ends) =
        search-Ends (suc (length rels)) (root ∷ []) (root ∷ []) [] (λ ds m. inl m)
          (omega (arith, unseen-all (root ∷ []) rels)) in
      follow (search_from rels root).visited ends root p (more root (inl refl))
    where
      follow :
          (visited : List Text)
          → ((ds : Text) → Elem ds visited → Followed visited ds)
          → (a : Text) → Leads rels a ds
          → Elem a visited
          → Elem ds visited
      follow visited ends a (stay _) m = m
      follow visited ends a (step rel _ k q) m =
          follow visited ends rel.to q (ends rel.from m rel k refl)
