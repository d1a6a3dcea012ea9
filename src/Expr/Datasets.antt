-- ===== src/Expr/Datasets.antt =====
-- internal/planner/expr/expr.go: `MetricExpr.Datasets`.
use semantic_operator.Prelude.{
  Text, true, List, [], ◌∷◌, ◌++◌, map, contains, contains_iff, ◌≡◌, ◌⊎◌, inl, inr, Elem,
  Bool-cases,
}
use semantic_operator.Prelude.Lists.{Elem-map, Elem-snoc}
use semantic_operator.Prelude.Sorting.{Elem-sort_by}
use semantic_operator.Expr.{FieldRef}
use semantic_operator.Expr.Metric.{MetricExpr, denominator_refs, unique, datasets}

pub Elem-unique :
    (ds : Text) (seen xs : List Text) → Elem ds seen ⊎ Elem ds xs → Elem ds (unique seen xs)
unfolding unique
Elem-unique ds seen [] (inl m) = m
Elem-unique ds seen [] (inr m) = absurd m
Elem-unique ds seen (x ∷ xs) m = elim (Bool-cases (contains seen x)) [
  | inl e ↦ rw e (Elem-unique ds seen xs (known e m))
  | inr e ↦ rw e (Elem-unique ds (seen ++ x ∷ []) xs (added m))
]
  where
    known : contains seen x ≡ true → Elem ds seen ⊎ Elem ds (x ∷ xs) → Elem ds seen ⊎ Elem ds xs
    known e (inl k) = inl k
    known e (inr (inl k)) = inl (rw k ((contains_iff seen x).0 e))
    known e (inr (inr k)) = inr k

    added : Elem ds seen ⊎ Elem ds (x ∷ xs) → Elem ds (seen ++ x ∷ []) ⊎ Elem ds xs
    added (inl k) = inl ((Elem-snoc ds x seen).1 (inl k))
    added (inr (inl k)) = inl ((Elem-snoc ds x seen).1 (inr k))
    added (inr (inr k)) = inr k

pub Elem-datasets :
    (e : MetricExpr) (r : FieldRef)
    → Elem r (e.numerator.refs ++ denominator_refs e.denominator)
    → Elem r.dataset (datasets e)
unfolding datasets
Elem-datasets e r m =
    (Elem-sort_by (λ d. d) (unique [] (map dataset refs)) r.dataset).1
      (Elem-unique r.dataset [] (map dataset refs) (inr (Elem-map dataset r refs m)))
  where
    dataset : FieldRef → Text
    dataset r = r.dataset

    refs : List FieldRef
    refs = e.numerator.refs ++ denominator_refs e.denominator
