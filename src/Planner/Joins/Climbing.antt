-- ===== src/Planner/Joins/Climbing.antt =====
-- internal/planner/plan_sql.go, `reach`: the loop that marks the edges from a dataset up to the root.
use semantic_operator.Prelude.{
  Text, ℕ, zero, suc, ◌≤◌, true, false, List, [], ◌∷◌, ◌++◌, map, append_assoc, length, text_eq,
  text_eq_iff, text_eq_refl, some, ◌≡◌, ◌⊎◌, inl, inr, refl, sym, ap, ◌∙◌, arith, Elem, Bool-cases,
}
use mathlib.Core.Path.{subst}
use mathlib.Core.Option.{some-injective}
use semantic_operator.Prelude.Lists.{Elem-append_right, Elem-map, length-append}
use semantic_operator.Planner.{CompiledRelationship}
use semantic_operator.Planner.Joins.{parent, climb}
use semantic_operator.Planner.Joins.Tree.{to_of, InTree, Ordered, IsJoinTree, InTree-before}

-- A dataset leads to another over the joins of a list.
pub data Leads (rels : List CompiledRelationship) : Text → Text → Type 0 where
  stay : (ds : Text) → Leads rels ds ds
  step :
      (rel : CompiledRelationship) (ds : Text)
      → Elem rel rels
      → Leads rels rel.to ds
      → Leads rels rel.from ds

pub Leads-snoc :
    (rels : List CompiledRelationship) (rel : CompiledRelationship) (a b : Text)
    → Leads rels a b
    → Elem rel rels
    → rel.from ≡ b
    → Leads rels a rel.to
Leads-snoc rels rel a b (stay _) m e =
    subst (λ x. Leads rels x rel.to) e (step rel rel.to m (stay rel.to))
Leads-snoc rels rel a b (step r _ k h) m e = step r rel.to k (Leads-snoc rels rel r.to b h m e)

parent-split :
    (xs ys : List CompiledRelationship) (cur : Text)
    → Elem cur (map to_of xs)
    → (rel : CompiledRelationship) × (before : List CompiledRelationship) × (after : List
        CompiledRelationship)
      × (parent (xs ++ ys) cur ≡ some rel)
      × (xs ≡ before ++ rel ∷ after)
      × (rel.to ≡ cur)
unfolding parent
parent-split [] ys cur m = absurd m
parent-split (x ∷ xs) ys cur m = elim (Bool-cases (text_eq x.to cur)) [
  | inl e ↦ (x, [], xs, rw e refl, refl, (text_eq_iff x.to cur).0 e)
  | inr n ↦
      let (rel, before, after, p, q, t) = parent-split xs ys cur (later n m) in
      (rel, x ∷ before, after, rw n p, ap (◌∷◌ x) q, t)
]
  where
    later : text_eq x.to cur ≡ false → Elem cur (map to_of (x ∷ xs)) → Elem cur (map to_of xs)
    later n (inl e) = absurd (cc ((text_eq_iff x.to cur).1 (sym e)))
    later n (inr k) = k

shorter :
    (fuel : ℕ) (xs before after : List CompiledRelationship) (rel : CompiledRelationship)
    → xs ≡ before ++ rel ∷ after
    → length xs ≤ suc fuel
    → length before ≤ fuel
shorter fuel xs before after rel q l =
    omega (arith, ap length q ∙ length-append before (rel ∷ after), l)

-- In a tree an edge is the parent edge of its target.
pub parent-Elem :
    (seen : List Text) (tree : List CompiledRelationship) (rel : CompiledRelationship)
    → Ordered seen tree
    → Elem rel tree
    → parent tree rel.to ≡ some rel
unfolding parent
parent-Elem seen [] rel h m = absurd m
parent-Elem seen (x ∷ xs) rel h (inl e) = rw e (rw (text_eq_refl x.to) refl)
parent-Elem seen (x ∷ xs) rel (a, b, h) (inr m) = elim (Bool-cases (text_eq x.to rel.to)) [
  | inl e ↦ absurd (later (x.to ∷ seen) xs h m (inl (sym ((text_eq_iff x.to rel.to).0 e))))
  | inr n ↦ rw n (parent-Elem (x.to ∷ seen) xs rel h m)
]
  where
    later :
        (known : List Text) (xs : List CompiledRelationship)
        → Ordered known xs
        → Elem rel xs
        → Elem rel.to known
        → ⊥
    later known [] h m k = m
    later known (y ∷ ys) (a, b, h) (inl e) k = b (rw (← e) k)
    later known (y ∷ ys) (a, b, h) (inr m) k = later (y.to ∷ known) ys h m (inr k)

module _ (tree : List CompiledRelationship) (root : Text) (h : IsJoinTree root tree) where
  -- What the loop marks from a dataset on.
  pub record IsClimb (cur : Text) (marked : List Text) : Type 0 where
    pub inside : (ds : Text) → Elem ds marked → Elem ds (map to_of tree)
    pub starts : (cur ≡ root) ⊎ Elem cur marked
    pub closed :
        (rel : CompiledRelationship)
        → Elem rel tree
        → Elem rel.to marked
        → (rel.from ≡ root) ⊎ Elem rel.from marked
    pub leads :
        (joins : List CompiledRelationship)
        → ((rel : CompiledRelationship) → Elem rel tree → Elem rel.to marked → Elem rel joins)
        → (ds : Text) → Elem ds marked
        → Leads joins ds cur

  at_root : IsClimb root []
  at_root = record {
    inside = λ ds k. absurd k;
    starts = inl refl;
    closed = λ rel m k. absurd k;
    leads = λ joins sub ds k. absurd k;
  }

  above :
      (rel : CompiledRelationship) (marked : List Text)
      → Elem rel tree
      → IsClimb rel.from marked
      → IsClimb rel.to (rel.to ∷ marked)
  above rel marked m c = record {
    inside = λ ds j. elim j [ inl e ↦ rw e (Elem-map to_of rel tree m) | inr j ↦ c.inside ds j ];
    starts = inr (inl refl);
    closed = λ r k. λ j. elim j [
      | inl e ↦ elim c.starts [
        | inl s ↦ inl (ap (λ (x : CompiledRelationship). x.from) (same r k e) ∙ s)
        | inr s ↦ inr (
            inr (
              subst (λ x. Elem x marked)
                (ap (λ (x : CompiledRelationship). x.from) (sym (same r k e))) s))
      ]
      | inr j ↦ elim (c.closed r k j) [ inl s ↦ inl s | inr s ↦ inr (inr s) ]
    ];
    leads = λ joins sub ds j. elim j [
      | inl e ↦ rw e (stay rel.to)
      | inr j ↦
          Leads-snoc joins rel ds rel.from (c.leads joins (λ r k i. sub r k (inr i)) ds j)
            (sub rel m (inl refl)) refl
    ];
  }
    where
      same : (r : CompiledRelationship) → Elem r tree → r.to ≡ rel.to → r ≡ rel
      same r k e = some-injective _ _ (
          sym (parent-Elem (root ∷ []) tree r h k)
          ∙ ap (parent tree) e
          ∙ parent-Elem (root ∷ []) tree rel h m)

  climb-top :
      (fuel : ℕ) (cur : Text) → text_eq cur root ≡ true → climb tree root (suc fuel) cur ≡ []
  unfolding climb
  climb-top fuel cur e = rw (e, climb) refl

  climb-up :
      (fuel : ℕ) (cur : Text) (rel : CompiledRelationship)
      → text_eq cur root ≡ false
      → parent tree cur ≡ some rel
      → climb tree root (suc fuel) cur ≡ cur ∷ climb tree root fuel rel.from
  unfolding climb
  climb-up fuel cur rel e p = rw (e, p, climb) refl

  pub climb-IsClimb :
      (fuel : ℕ) (xs ys : List CompiledRelationship) (cur : Text)
      → tree ≡ xs ++ ys
      → InTree root xs cur
      → length xs ≤ fuel
      → IsClimb cur (climb tree root fuel cur)
  unfolding climb
  climb-IsClimb zero [] ys cur e (inl t) l = rw t at_root
  climb-IsClimb zero [] ys cur e (inr t) l = absurd t
  climb-IsClimb zero (x ∷ xs) ys cur e t l = absurd (omega arith)
  climb-IsClimb (suc fuel) xs ys cur e t l = elim (Bool-cases (text_eq cur root)) [
    | inl top ↦
        subst (IsClimb cur) (sym (climb-top fuel cur top))
          (subst (λ x. IsClimb x []) (sym ((text_eq_iff cur root).0 top)) at_root)
    | inr n ↦
        let (rel, before, after, p, q, i) = parent-split xs ys cur (below n t) in
        let whole : tree ≡ before ++ rel ∷ (after ++ ys) =
          e ∙ ap (λ zs. zs ++ ys) q ∙ append_assoc before (rel ∷ after) ys in
        let rest : IsClimb rel.from (climb tree root fuel rel.from) =
          climb-IsClimb fuel before (rel ∷ (after ++ ys)) rel.from whole
            (InTree-before root before (after ++ ys) rel (subst (Ordered (root ∷ [])) whole h))
            (shorter fuel xs before after rel q l) in
        subst (IsClimb cur) (sym (climb-up fuel cur rel n (ap (λ zs. parent zs cur) e ∙ p))) (
          subst (λ x. IsClimb x (x ∷ climb tree root fuel rel.from)) i
            (above rel (climb tree root fuel rel.from)
              (rw whole (Elem-append_right rel before (rel ∷ (after ++ ys)) (inl refl))) rest))
  ]
    where
      below : text_eq cur root ≡ false → InTree root xs cur → Elem cur (map to_of xs)
      below n (inl top) = absurd (cc ((text_eq_iff cur root).1 top))
      below n (inr m) = m
