-- ===== src/Ossie/Validate/Metrics.antt =====
-- Metrics without a problem.
use semantic_operator.Prelude.{
  Text, ℕ, suc, Bool-cases, true, false, List, [], ◌∷◌, ◌++◌, map, Option, none, some, is_nil,
  contains, Option-cases, Map, lookup, Result, ok, err, ◌≡◌, ◌⊎◌, inl, inr, refl, Elem, All,
}
use semantic_operator.Errors.{Error}
use semantic_operator.Api.{Field, Dataset, Metric, select, find_field}
use semantic_operator.Expr.{FieldRef}
use semantic_operator.Expr.Metric.{AggTerm, MetricExpr, denominator_refs, parse}
use semantic_operator.Expr.Datasets.{Elem-unique}
use semantic_operator.Prelude.Lists.{Elem-map}
use semantic_operator.Ossie.{add_if, metric_duplicate}
use semantic_operator.Ossie.Validate.{
  collect_refs, key_problems, denominator_problems, ratio_datasets, ref_problems, refs_problems,
  parsed_problems, body_problems, metric_problems, metrics_problems,
}
use semantic_operator.Ossie.Validate.Fresh.{
  append-eq-nil, add_if-eq-nil, if-eq-nil, is_none-false, contains-false, mark_named-eq,
  not_and-false, IsFresh,
}

-- The reference names a dataset, and one of its fields if it declares any.
abbrev pub IsKnownRef : List Dataset → FieldRef → Type 0
IsKnownRef ds ref =
    (d : Dataset) × Elem d ds
    × (d.name ≡ ref.dataset)
    × ((is_nil d.fields ≡ true) ⊎ ((f : Field) × (find_field ref.field d.fields ≡ some f)))

-- The dataset of that name has a primary key.
abbrev pub HasKey : List Dataset → Text → Type 0
HasKey ds n = (d : Dataset) × Elem d ds × (d.name ≡ n) × (is_nil d.primary_key ≡ false)

-- A denominator's references are known, and unless it counts distinct values each of their datasets
-- has a primary key.
abbrev pub IsValidDenominator : List Dataset → Option AggTerm → Type 0
IsValidDenominator ds none = Unit
IsValidDenominator ds (some t) =
    All (IsKnownRef ds) t.refs
    × ((t.distinct ≡ true) ⊎ All (λ (r : FieldRef). HasKey ds r.dataset) t.refs)

abbrev pub IsValidMetric : List Dataset → Metric → Type 0
IsValidMetric ds mt =
    (is_nil mt.name ≡ false)
    × ((body : Text) × (parsed : MetricExpr) × (select mt.expression ≡ some body)
        × (parse body ≡ ok parsed)
        × All (IsKnownRef ds) parsed.numerator.refs
        × IsValidDenominator ds parsed.denominator)

abbrev ref_dataset : FieldRef → Text
ref_dataset r = r.dataset

module _ (ds : List Dataset) (m : Map Dataset)
    (known : (n : Text) (d : Dataset) → lookup m n ≡ some d → Elem d ds × (d.name ≡ n)) where
  ref_known : (metric : Text) (ref : FieldRef) → ref_problems m metric ref ≡ [] → IsKnownRef ds ref
  unfolding ref_problems
  ref_known metric ref h = elim (Option-cases (lookup m ref.dataset)) [
    | inl e ↦ cc (rw (e, ref_problems) at h)
    | inr (d, e) ↦
        let (l, q) = known ref.dataset d e in
        let test = add_if-eq-nil _ _ (rw (e, ref_problems) at h) in
        (
          d,
          l,
          q,
          elim (not_and-false (is_nil d.fields) _ test) [
            | inl a ↦ inl a
            | inr b ↦ inr (is_none-false (find_field ref.field d.fields) b)
          ],
        )
  ]

  refs_known :
      (metric : Text) (refs : List FieldRef)
      → refs_problems m metric refs ≡ []
      → All (IsKnownRef ds) refs
  unfolding refs_problems
  refs_known metric [] h = tt
  refs_known metric (ref ∷ refs) h =
      let (now, later) = append-eq-nil (ref_problems m metric ref) _ h in
      (ref_known metric ref now, refs_known metric refs later)

  key_there :
      (metric : Text) (names : List Text) (n : Text) (d : Dataset)
      → key_problems m metric names ≡ []
      → Elem n names
      → lookup m n ≡ some d
      → is_nil d.primary_key ≡ false
  unfolding key_problems
  key_there metric [] n d h i e = absurd i
  key_there metric (x ∷ names) n d h (inl q) e =
      let here = rw q at e in
      add_if-eq-nil _ _
        (append-eq-nil _ (key_problems m metric names) (rw (here, key_problems) at h)).0
  key_there metric (x ∷ names) n d h (inr i) e = key_there metric names n d (rest h) i e
    where
      rest : key_problems m metric (x ∷ names) ≡ [] → key_problems m metric names ≡ []
      rest h = elim (Option-cases (lookup m x)) [
        | inl q ↦ rw (q, key_problems) at h
        | inr (f, q) ↦ (append-eq-nil _ (key_problems m metric names) (rw (q, key_problems) at h)).1
      ]

  key_of_ref :
      (metric : Text) (names : List Text) (ref : FieldRef)
      → key_problems m metric names ≡ []
      → Elem ref.dataset names
      → ref_problems m metric ref ≡ []
      → HasKey ds ref.dataset
  unfolding ref_problems
  key_of_ref metric names ref keys i h = elim (Option-cases (lookup m ref.dataset)) [
    | inl e ↦ cc (rw (e, ref_problems) at h)
    | inr (d, e) ↦
        let (l, q) = known ref.dataset d e in
        (d, l, q, key_there metric names ref.dataset d keys i e)
  ]

  keys_of_refs :
      (metric : Text) (names : List Text) (refs : List FieldRef)
      → key_problems m metric names ≡ []
      → ((ref : FieldRef) → Elem ref refs → Elem ref.dataset names)
      → refs_problems m metric refs ≡ []
      → All (λ (r : FieldRef). HasKey ds r.dataset) refs
  unfolding refs_problems
  keys_of_refs metric names [] keys among h = tt
  keys_of_refs metric names (ref ∷ refs) keys among h =
      let (now, later) = append-eq-nil (ref_problems m metric ref) _ h in
      (
        key_of_ref metric names ref keys (among ref (inl refl)) now,
        keys_of_refs metric names refs keys (λ r i. among r (inr i)) later,
      )

  denominator_valid :
      (metric : Text) (o : Option AggTerm)
      → refs_problems m metric (denominator_refs o) ≡ []
      → denominator_problems m metric o ≡ []
      → IsValidDenominator ds o
  unfolding denominator_problems ratio_datasets
  denominator_valid metric none h k = tt
  denominator_valid metric (some t) h k = (
    refs_known metric t.refs h,
    elim (Bool-cases t.distinct) [
      | inl e ↦ inl e
      | inr e ↦ inr (
          keys_of_refs metric (ratio_datasets t) t.refs (rw (e, denominator_problems) at k)
            (λ ref i.
              Elem-unique ref.dataset [] (map ref_dataset t.refs)
                (inr (Elem-map ref_dataset ref t.refs i)))
            h)
    ],
  )

  refs_split :
      (metric : Text) (xs ys : List FieldRef)
      → refs_problems m metric (xs ++ ys) ≡ []
      → (refs_problems m metric xs ≡ []) × (refs_problems m metric ys ≡ [])
  unfolding refs_problems
  refs_split metric [] ys h = (refl, h)
  refs_split metric (x ∷ xs) ys h =
      let (now, later) = append-eq-nil (ref_problems m metric x) _ h in
      let (mine, yours) = refs_split metric xs ys later in (rw (now, mine) refl, yours)

  parsed_known :
      (metric : Text) (r : Result Error MetricExpr)
      → parsed_problems m metric r ≡ []
      → (parsed : MetricExpr) × (r ≡ ok parsed)
        × All (IsKnownRef ds) parsed.numerator.refs
        × IsValidDenominator ds parsed.denominator
  unfolding parsed_problems collect_refs
  parsed_known metric (err e) h = cc
  parsed_known metric (ok parsed) h =
      let (refs, keys) = append-eq-nil (refs_problems m metric (collect_refs parsed)) _ h in
      let (above, below) =
        refs_split metric parsed.numerator.refs (denominator_refs parsed.denominator) refs in
      (
        parsed,
        refl,
        refs_known metric parsed.numerator.refs above,
        denominator_valid metric parsed.denominator below keys,
      )

  body_known :
      (metric : Text) (o : Option Text)
      → body_problems m metric o ≡ []
      → (body : Text) × (parsed : MetricExpr) × (o ≡ some body)
        × (parse body ≡ ok parsed)
        × All (IsKnownRef ds) parsed.numerator.refs
        × IsValidDenominator ds parsed.denominator
  unfolding body_problems
  body_known metric none h = cc
  body_known metric (some body) h =
      let (parsed, e, above, below) = parsed_known metric (parse body) h in
      (body, parsed, refl, e, above, below)

  pub metrics_valid :
      (i : ℕ) (seen : List Text) (mts : List Metric)
      → metrics_problems m i seen mts ≡ []
      → All (IsValidMetric ds) mts × IsFresh (λ (mt : Metric). mt.name) seen mts
  unfolding metrics_problems metric_problems
  metrics_valid i seen [] h = (tt, tt)
  metrics_valid i seen (mt ∷ mts) h =
      let (now, later) = append-eq-nil (metric_problems m i seen mt) _ h in
      let (named, checks) = if-eq-nil (is_nil mt.name) _ _ now in
      let (new, body) =
        append-eq-nil (add_if (contains seen mt.name) (metric_duplicate mt.name)) _ checks in
      let (all, fresh) =
        metrics_valid (suc i) (mt.name ∷ seen) mts
          (rw (mark_named-eq mt.name seen named) at later) in
      (
        ((named, body_known mt.name (select mt.expression) body), all),
        (contains-false seen mt.name (add_if-eq-nil _ _ new), fresh),
      )
