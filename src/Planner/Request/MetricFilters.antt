-- ===== src/Planner/Request/MetricFilters.antt =====
-- internal/planner/plan.go, `resolveMetricFilters`: what the rendering relies on.
use semantic_operator.Prelude.{
  Text, Bool, true, false, not, List, [], ◌∷◌, Option, none, some, codes, text_eq, text_eq_iff,
  contains, contains_iff, lookup, Map, traverse, ok, ok_injective, >>=-eq-ok, >>-eq-ok, fail_if,
  fail_if-eq-ok, ◌≡◌, ◌⊎◌, inl, inr, refl, sym, ap, ◌∙◌, Elem, Bool-cases, Option-cases,
}
use mathlib.Core.Path.{subst}
use mathlib.Core.Option.{some-injective}
use semantic_operator.Errors.{Error}
use semantic_operator.Emitter.{Value, null, other, string, bool, int, float32, float64, time}
use semantic_operator.Planner.{CompiledMetric}
use semantic_operator.Planner.Request.{
  MetricFilter, MetricFilterSpec, comparisons, has_values, validate_value, validate_pair,
  validate_scalar, validate_between, validate_metric_filter, resolve_metric_filter,
  resolve_metric_filters, by_name,
}

-- A value that a filter may compare with: a scalar, and finite.
abbrev pub IsScalar : Value → Type 0
IsScalar null = ⊥
IsScalar other = ⊥
IsScalar (string _) = Unit {0}
IsScalar (bool _) = Unit {0}
IsScalar (int _ _) = Unit {0}
IsScalar (float32 x) = x.finite ≡ true
IsScalar (float64 x) = x.finite ≡ true
IsScalar (time _) = Unit {0}

finite_of : (b : Bool) (e : Error) → fail_if (not b) e ≡ ok tt → b ≡ true
finite_of true e h = refl
finite_of false e h = absurd (cc h)

validate_value-IsScalar : (v : Value) → validate_value v ≡ ok tt → IsScalar v
unfolding validate_value
validate_value-IsScalar null e = absurd (cc e)
validate_value-IsScalar other e = absurd (cc e)
validate_value-IsScalar (string _) e = tt
validate_value-IsScalar (bool _) e = tt
validate_value-IsScalar (int _ _) e = tt
validate_value-IsScalar (float32 x) e = finite_of x.finite _ e
validate_value-IsScalar (float64 x) e = finite_of x.finite _ e
validate_value-IsScalar (time _) e = tt

-- A filter that can be rendered: a comparison with a scalar and without a list, or a range between
-- exactly two scalars.
abbrev pub IsValid : MetricFilter → Type 0
IsValid f =
    (Elem f.op comparisons × IsScalar f.value × (has_values f ≡ false))
    ⊎ ((f.op ≡ codes "BETWEEN")
        × (low : Value) × (high : Value) × (f.values ≡ some (low ∷ high ∷ []))
        × IsScalar low
        × IsScalar high)

validate_pair_sound :
    (values : Option (List Value)) (e : Error)
    → validate_pair values e ≡ ok tt
    → (low : Value) × (high : Value) × (values ≡ some (low ∷ high ∷ []))
      × IsScalar low
      × IsScalar high
unfolding validate_pair
validate_pair_sound none e h = absurd (cc h)
validate_pair_sound (some []) e h = absurd (cc h)
validate_pair_sound (some (a ∷ [])) e h = absurd (cc h)
validate_pair_sound (some (a ∷ b ∷ [])) e h =
    let (p, q) = >>-eq-ok (validate_value a) (validate_value b) h in
    (a, b, refl, validate_value-IsScalar a p, validate_value-IsScalar b q)
validate_pair_sound (some (a ∷ b ∷ c ∷ more)) e h = absurd (cc h)

validate_scalar_sound :
    (f : MetricFilter) → validate_scalar f ≡ ok tt → IsScalar f.value × (has_values f ≡ false)
unfolding validate_scalar
validate_scalar_sound f e =
    let (_, e1) = fail_if-eq-ok _ _ _ e in
    let (n, e2) = fail_if-eq-ok (has_values f) _ _ e1 in (validate_value-IsScalar f.value e2, n)

validate_metric_filter-IsValid : (f : MetricFilter) → validate_metric_filter f ≡ ok tt → IsValid f
unfolding validate_metric_filter validate_between
validate_metric_filter-IsValid f e = elim (Bool-cases (contains comparisons f.op)) [
  | inl c ↦
      let (v, n) = validate_scalar_sound f (rw (c, validate_metric_filter) at e) in
      inl ((contains_iff comparisons f.op).0 c, v, n)
  | inr c ↦ elim (Bool-cases (text_eq f.op (codes "BETWEEN"))) [
    | inl b ↦
        let (_, e1) =
          fail_if-eq-ok _ _ _ (rw (c, b, validate_metric_filter, validate_between) at e) in
        let (low, high, pair, l, h) = validate_pair_sound f.values _ e1 in
        inr ((text_eq_iff f.op (codes "BETWEEN")).0 b, low, high, pair, l, h)
    | inr b ↦ absurd (cc (rw (c, b, validate_metric_filter) at e))
  ]
]

lookup-by_name :
    (m : Map CompiledMetric) (metrics : List CompiledMetric) (name : Text) (a : CompiledMetric)
    → lookup (by_name m metrics) name ≡ some a
    → (Elem a metrics × (a.name ≡ name)) ⊎ (lookup m name ≡ some a)
unfolding by_name lookup
lookup-by_name m [] name a e = inr e
lookup-by_name m (x ∷ metrics) name a e = elim (lookup-by_name ((x.name, x) ∷ m) metrics name a e) [
  | inl (k, t) ↦ inl (inr k, t)
  | inr h ↦ elim (Bool-cases (text_eq x.name name)) [
    | inl s ↦
        let same = some-injective x a (rw (s, lookup) at h) in
        inl (
          inl (sym same),
          ap (λ (c : CompiledMetric). c.name) (sym same) ∙ (text_eq_iff x.name name).0 s,
        )
    | inr n ↦ inr (rw (n, lookup) at h)
  ]
]

-- A resolved filter: it is valid, and paired with the requested metric of its name.
pub record IsResolved (metrics : List CompiledMetric) (f : MetricFilter) (s : MetricFilterSpec)
    : Type 0 where
  pub kept : s.filter ≡ f
  pub valid : IsValid f
  pub requested : Elem s.metric metrics
  pub named : s.metric.name ≡ f.metric

resolve_metric_filter-IsResolved :
    (metrics : List CompiledMetric) (f : MetricFilter) (s : MetricFilterSpec)
    → resolve_metric_filter (by_name [] metrics) f ≡ ok s
    → IsResolved metrics f s
unfolding resolve_metric_filter lookup
resolve_metric_filter-IsResolved metrics f s e =
    elim (Option-cases (lookup (by_name [] metrics) f.metric)) [
      | inl n ↦ absurd (cc (rw (n, resolve_metric_filter) at e))
      | inr (m, l) ↦
          let (v, e1) =
            >>-eq-ok (validate_metric_filter f) _ (rw (l, resolve_metric_filter) at e) in
          elim (lookup-by_name [] metrics f.metric m l) [
            | inl (k, t) ↦ subst (IsResolved metrics f) (ok_injective _ s e1) (record {
              kept = refl;
              valid = validate_metric_filter-IsValid f v;
              requested = k;
              named = t;
            })
            | inr h ↦ absurd (cc h)
          ]
    ]

-- One resolved filter for each filter, in order.
abbrev pub AreResolved : List CompiledMetric → List MetricFilter → List MetricFilterSpec → Type 0
AreResolved metrics [] [] = Unit {0}
AreResolved metrics [] (s ∷ specs) = ⊥
AreResolved metrics (f ∷ filters) [] = ⊥
AreResolved metrics (f ∷ filters) (s ∷ specs) =
    IsResolved metrics f s × AreResolved metrics filters specs

-- Resolved metric filters stand for the filters one by one. Each is a comparison with a finite
-- scalar and without a list, or a range between exactly two finite scalars, and is paired with the
-- requested metric that it names.
pub resolve_metric_filters-AreResolved :
    (filters : List MetricFilter) (metrics : List CompiledMetric) (specs : List MetricFilterSpec)
    → resolve_metric_filters filters metrics ≡ ok specs
    → AreResolved metrics filters specs
unfolding resolve_metric_filters traverse
resolve_metric_filters-AreResolved [] metrics specs e =
    subst (AreResolved metrics []) (ok_injective [] specs e) tt
resolve_metric_filters-AreResolved (f ∷ filters) metrics specs e =
    let (s, p, e1) = >>=-eq-ok (resolve_metric_filter (by_name [] metrics) f) _ e in
    let (rest, q, e2) =
      >>=-eq-ok (traverse (resolve_metric_filter (by_name [] metrics)) filters) _ e1 in
    subst (AreResolved metrics (f ∷ filters)) (ok_injective _ specs e2) (
      resolve_metric_filter-IsResolved metrics f s p,
      resolve_metric_filters-AreResolved filters metrics rest q,
    )
