-- ===== src/Planner/Build/Partitioned.antt =====
-- internal/planner/plan.go, `Build`: the partition of the metrics into those of a single pass and
-- split ratios.
use semantic_operator.Prelude.{
  append-nil, append_assoc, Text, List, [], ◌∷◌, ◌++◌, none, some, if◌then◌else◌, ◌≡◌, ◌≢◌, ◌⊎◌,
  inl, inr, refl, sym, ◌∙◌, Elem, arith, Bool-cases, Option-cases,
}
use semantic_operator.Prelude.Lists.{
  Elem-append, Elem-append_left, Elem-append_right, Elem-snoc, Elem-map,
}
use mathlib.Core.Path.{subst}
use semantic_operator.Expr.Datasets.{Elem-datasets}
use semantic_operator.Expr.{FieldRef}
use semantic_operator.Expr.Metric.{AggTerm, datasets, denominator_refs}
use semantic_operator.Planner.{CompiledModel, CompiledMetric}
use semantic_operator.Planner.Queries.{ref_datasets}
use semantic_operator.Planner.Build.{Partition, partition, place, stays_inline}

-- What holds of a partition of some metrics, from some required datasets on.
pub record IsPartition (start : List Text) (metrics : List CompiledMetric) (p : Partition)
    : Type 0 where
  pub placed : (m : CompiledMetric) → Elem m metrics → Elem m p.inline ⊎ Elem m p.split
  pub requested : (m : CompiledMetric) → Elem m p.inline ⊎ Elem m p.split → Elem m metrics
  pub ratios : (m : CompiledMetric) → Elem m p.split → m.expr.denominator ≢ none
  pub keeps : (ds : Text) → Elem ds start → Elem ds p.required
  pub covers :
      (m : CompiledMetric) (r : FieldRef)
      → Elem m p.inline
      → Elem r (m.expr.numerator.refs ++ denominator_refs m.expr.denominator)
      → Elem r.dataset p.required

snoc_either :
    (m x : CompiledMetric) (xs ys : List CompiledMetric)
    → Elem m (xs ++ x ∷ []) ⊎ Elem m ys
    → (Elem m xs ⊎ Elem m ys) ⊎ (m ≡ x)
snoc_either m x xs ys h = ground (arith, Elem-snoc m x xs)

module _ (start : List Text) (done : List CompiledMetric) (p : Partition)
    (h : IsPartition start done p) (m : CompiledMetric) where
  inlined :
      (more : List Text)
      → ((r : FieldRef)
          → Elem r (m.expr.numerator.refs ++ denominator_refs m.expr.denominator)
          → Elem r.dataset more)
      → IsPartition start
          (done ++ m ∷ [])
          (record { required = p.required ++ more; inline = p.inline ++ m ∷ []; split = p.split })
  inlined more sub = record {
    placed = λ k i. elim ((Elem-snoc k m done).0 i) [
      | inl j ↦ elim (h.placed k j) [
        | inl a ↦ inl ((Elem-snoc k m p.inline).1 (inl a))
        | inr b ↦ inr b
      ]
      | inr e ↦ inl ((Elem-snoc k m p.inline).1 (inr e))
    ];
    requested = λ k i. elim (snoc_either k m p.inline p.split i) [
      | inl j ↦ (Elem-snoc k m done).1 (inl (h.requested k j))
      | inr e ↦ (Elem-snoc k m done).1 (inr e)
    ];
    ratios = h.ratios;
    keeps = λ ds i. Elem-append_left ds p.required more (h.keeps ds i);
    covers = λ k r i j. elim ((Elem-snoc k m p.inline).0 i) [
      | inl a ↦ Elem-append_left r.dataset p.required more (h.covers k r a j)
      | inr e ↦ Elem-append_right r.dataset p.required more (
          sub r (
            subst
              (λ (x : CompiledMetric).
                Elem r (x.expr.numerator.refs ++ denominator_refs x.expr.denominator))
              e j))
    ];
  }

  splitted :
      m.expr.denominator ≢ none
      → IsPartition start
          (done ++ m ∷ [])
          (record { required = p.required; inline = p.inline; split = p.split ++ m ∷ [] })
  splitted ratio = record {
    placed = λ k i. elim ((Elem-snoc k m done).0 i) [
      | inl j ↦ elim (h.placed k j) [
        | inl a ↦ inl a
        | inr b ↦ inr ((Elem-snoc k m p.split).1 (inl b))
      ]
      | inr e ↦ inr ((Elem-snoc k m p.split).1 (inr e))
    ];
    requested = λ k i. elim i [
      | inl a ↦ (Elem-snoc k m done).1 (inl (h.requested k (inl a)))
      | inr b ↦ elim ((Elem-snoc k m p.split).0 b) [
        | inl c ↦ (Elem-snoc k m done).1 (inl (h.requested k (inr c)))
        | inr e ↦ (Elem-snoc k m done).1 (inr e)
      ]
    ];
    ratios =
        λ k i. elim ((Elem-snoc k m p.split).0 i) [ inl c ↦ h.ratios k c | inr e ↦ rw e ratio ];
    keeps = h.keeps;
    covers = h.covers;
  }

  numerator_only :
      m.expr.denominator ≡ none
      → (r : FieldRef) → Elem r (m.expr.numerator.refs ++ denominator_refs m.expr.denominator)
      → Elem r.dataset (ref_datasets m.expr.numerator.refs)
  numerator_only n r i =
      Elem-map (λ (x : FieldRef). x.dataset) r m.expr.numerator.refs
        (elim (Elem-append r m.expr.numerator.refs [] (rw n at i)) [ inl a ↦ a | inr b ↦ absurd b ])

  place-IsPartition : (cm : CompiledModel) → IsPartition start (done ++ m ∷ []) (place cm p m)
  unfolding place
  place-IsPartition cm = elim (Option-cases m.expr.denominator) [
    | inl n ↦
        subst (IsPartition start (done ++ m ∷ [])) (sym (kept n))
          (inlined (ref_datasets m.expr.numerator.refs) (numerator_only n))
    | inr (t, n) ↦ elim (Bool-cases (stays_inline cm p.required m)) [
      | inl e ↦
          subst (IsPartition start (done ++ m ∷ [])) (sym (tried t n ∙ rw e refl))
            (inlined (datasets m.expr) (Elem-datasets m.expr))
      | inr e ↦
          subst (IsPartition start (done ++ m ∷ [])) (sym (tried t n ∙ rw e refl))
            (splitted (λ k. cc))
    ]
  ]
    where
      kept :
          m.expr.denominator ≡ none
          → place cm p m ≡ record {
            required = p.required ++ ref_datasets m.expr.numerator.refs;
            inline = p.inline ++ m ∷ [];
            split = p.split;
          }
      kept n = simp (n, place) refl

      tried :
          (t : AggTerm)
          → m.expr.denominator ≡ some t
          → place cm p m ≡ (
              if stays_inline cm p.required m
              then record {
                required = p.required ++ datasets m.expr;
                inline = p.inline ++ m ∷ [];
                split = p.split;
              }
              else record { required = p.required; inline = p.inline; split = p.split ++ m ∷ [] })
      tried t n = simp (n, place) refl

-- The partition: every requested metric goes one of the two ways and no other does, the split ones
-- are ratios, and the required datasets hold what they held before and every dataset that an inline
-- metric reads.
pub partition-IsPartition :
    (cm : CompiledModel) (start : List Text) (done metrics : List CompiledMetric) (p : Partition)
    → IsPartition start done p
    → IsPartition start (done ++ metrics) (partition cm p metrics)
unfolding partition
partition-IsPartition cm start done [] p h =
    subst (λ ms. IsPartition start ms p) (sym (append-nil done)) h
partition-IsPartition cm start done (m ∷ metrics) p h =
    subst (λ ms. IsPartition start ms (partition cm (place cm p m) metrics))
      (append_assoc done (m ∷ []) metrics)
      (partition-IsPartition cm start (done ++ m ∷ []) metrics (place cm p m)
        (place-IsPartition start done p h m cm))
