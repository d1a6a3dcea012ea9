-- ===== src/Planner/Build/Reads.antt =====
-- internal/planner/plan.go, `Build`: the references that the gate is asked about, by what the request
-- names.
use mathlib.Core.Path.{subst}
use mathlib.Core.Option.{some-injective}
use semantic_operator.Prelude.{
  Text, not, ◌&&◌, ◌||◌, List, [], ◌∷◌, ◌++◌, map, some, is_nil, text_eq, contains, lookup,
  traverse, Result, ok, ok_injective, >>=-eq-ok, fail_if-eq-ok, Bool-cases, Option-cases, ◌≡◌, ◌⊎◌,
  inl, inr, refl, sym, ap, ◌∙◌, Elem,
}
use semantic_operator.Prelude.Lists.{Elem-append_left, Elem-append_right, Elem-map}
use semantic_operator.Prelude.Strings.{split_at_byte}
use semantic_operator.Prelude.Splits.{split_at_byte-append}
use semantic_operator.Errors.{Error}
use semantic_operator.Expr.{FieldRef, ref_string}
use semantic_operator.Expr.Metric.{denominator_refs}
use semantic_operator.Planner.{CompiledModel, CompiledMetric}
use semantic_operator.Planner.Request.{
  Request, Filter, DimSpec, split_ref, find_dataset, resolve_field, resolve_field_ref,
  resolve_metric, resolve_metric_filters, resolve_dimension, resolve_filter, mark_time, apply_grain,
  resolve_order_by, valid_grains,
}
use semantic_operator.Planner.Build.{Resolved, resolve, all_refs, metric_refs, dim_refs}

-- Each input of a traversal has its output.
traverse_forward :
    {A B : Type 0} (f : A → Result Error B) (xs : List A) (ys : List B)
    → traverse f xs ≡ ok ys
    → (a : A) → Elem a xs
    → (b : B) × Elem b ys × (f a ≡ ok b)
unfolding traverse
traverse_forward f [] ys e a i = absurd i
traverse_forward f (x ∷ xs) ys e a i =
    let (y, p, rest) = >>=-eq-ok (f x) _ e in
    let (more, q, last) = >>=-eq-ok (traverse f xs) _ rest in
    subst (λ zs. (b : _) × Elem b zs × (f a ≡ ok b)) (ok_injective (y ∷ more) ys last)
      (elim i [
        | inl same ↦ (y, inl refl, rw same p)
        | inr later ↦ let (b, k, r) = traverse_forward f xs more q a later in (b, inr k, r)
      ])

split_ref-string : (s : Text) (ref : FieldRef) → split_ref s ≡ ok ref → ref_string ref ≡ s
unfolding split_ref ref_string
split_ref-string s ref e = elim (Option-cases (split_at_byte b'.' s)) [
  | inl n ↦ cc (rw (n, split_ref) at e)
  | inr (p, n) ↦
      let (_, q) = fail_if-eq-ok (is_nil p.0 || is_nil p.1) _ _ (rw (n, split_ref) at e) in
      subst (λ (x : FieldRef). x.dataset ++ b'.' ∷ x.field ≡ s) (ok_injective _ ref q)
        (split_at_byte-append b'.' s p.0 p.1 n)
]

resolve_field_ref-string :
    (cm : CompiledModel) (s : Text) (found : FieldRef × _)
    → resolve_field_ref cm s ≡ ok found
    → ref_string found.0 ≡ s
unfolding resolve_field_ref
resolve_field_ref-string cm s found e =
    let (ref, p, e1) = >>=-eq-ok (split_ref s) _ e in
    let (ds, _, e2) = >>=-eq-ok (find_dataset cm ref.dataset) _ e1 in
    let (f, _, e3) = >>=-eq-ok (resolve_field ds ref) _ e2 in
    ap (λ x. ref_string x.0) (sym (ok_injective (ref, f) found e3)) ∙ split_ref-string s ref p

resolve_dimension-string :
    (cm : CompiledModel) (s : Text) (dm : DimSpec)
    → resolve_dimension cm s ≡ ok dm
    → ref_string dm.ref ≡ s
unfolding resolve_dimension
resolve_dimension-string cm s dm e =
    let (found, p, e1) = >>=-eq-ok (resolve_field_ref cm s) _ e in
    let (_, q) = fail_if-eq-ok (not found.1.is_dimension) _ _ e1 in
    ap (λ (x : DimSpec). ref_string x.ref) (sym (ok_injective _ dm q))
    ∙ resolve_field_ref-string cm s found p

resolve_filter-string :
    (cm : CompiledModel) (f : Filter) (ref : FieldRef)
    → resolve_filter cm f ≡ ok ref
    → ref_string ref ≡ f.field
unfolding resolve_filter
resolve_filter-string cm f ref e =
    let (found, p, q) = >>=-eq-ok (resolve_field_ref cm f.field) _ e in
    ap ref_string (sym (ok_injective found.0 ref q)) ∙ resolve_field_ref-string cm f.field found p

resolve_metric-lookup :
    (cm : CompiledModel) (name : Text) (m : CompiledMetric)
    → resolve_metric cm name ≡ ok m
    → lookup cm.metrics name ≡ some m
unfolding resolve_metric
resolve_metric-lookup cm name m e = elim (Option-cases (lookup cm.metrics name)) [
  | inl n ↦ cc (rw (n, resolve_metric) at e)
  | inr (x, n) ↦ n ∙ ap some (ok_injective x m (rw (n, resolve_metric) at e))
]

-- The grain changes no reference.
mark_time-refs :
    (dims marked : List DimSpec) → mark_time dims ≡ some marked → dim_refs marked ≡ dim_refs dims
unfolding mark_time
mark_time-refs [] marked e = cc
mark_time-refs (d ∷ dims) marked e = elim (Bool-cases d.field.is_time) [
  | inl b ↦ ap dim_refs (sym (some-injective _ marked (rw (b, mark_time) at e)))
  | inr b ↦ elim (Option-cases (mark_time dims)) [
    | inl n ↦ cc (rw (b, n, mark_time) at e)
    | inr (more, n) ↦
        ap dim_refs (sym (some-injective (d ∷ more) marked (rw (b, n, mark_time) at e)))
        ∙ ap (d.ref ∷◌) (mark_time-refs dims more n)
  ]
]

apply_grain-refs :
    (grain : Text) (dims out : List DimSpec)
    → apply_grain grain dims ≡ ok out
    → dim_refs out ≡ dim_refs dims
unfolding apply_grain
apply_grain-refs [] dims out e = ap dim_refs (sym (ok_injective dims out e))
apply_grain-refs (c ∷ s) dims out e =
    let (_, q) = fail_if-eq-ok (not (contains valid_grains (c ∷ s))) _ _ e in
    elim (Option-cases (mark_time dims)) [
      | inl n ↦ cc (rw n at q)
      | inr (marked, n) ↦
          ap dim_refs (sym (ok_injective marked out (rw n at q))) ∙ mark_time-refs dims marked n
    ]

Elem-metric_refs :
    (m : CompiledMetric) (metrics : List CompiledMetric) (ref : FieldRef)
    → Elem m metrics
    → Elem ref m.expr.numerator.refs ⊎ Elem ref (denominator_refs m.expr.denominator)
    → Elem ref (metric_refs metrics)
unfolding metric_refs
Elem-metric_refs m [] ref i h = absurd i
Elem-metric_refs m (x ∷ metrics) ref (inl same) h =
    Elem-append_left ref (x.expr.numerator.refs ++ denominator_refs x.expr.denominator)
      (metric_refs metrics)
      (elim h [
        | inl a ↦
            Elem-append_left ref x.expr.numerator.refs (denominator_refs x.expr.denominator)
              (rw same at a)
        | inr b ↦
            Elem-append_right ref x.expr.numerator.refs (denominator_refs x.expr.denominator)
              (rw same at b)
      ])
Elem-metric_refs m (x ∷ metrics) ref (inr i) h =
    Elem-append_right ref (x.expr.numerator.refs ++ denominator_refs x.expr.denominator)
      (metric_refs metrics) (Elem-metric_refs m metrics ref i h)

-- What the request reads stands among the references that the gate is asked about.
pub record Reads (cm : CompiledModel) (req : Request) (refs : List Text) : Type 0 where
  pub dimensions : (s : Text) → Elem s req.dimensions → Elem s refs
  pub filters : (f : Filter) → Elem f req.filters → Elem f.field refs
  pub metrics :
      (name : Text)
      → Elem name req.metrics
      → (m : CompiledMetric) × (lookup cm.metrics name ≡ some m)
        × ((ref : FieldRef)
            → Elem ref m.expr.numerator.refs ⊎ Elem ref (denominator_refs m.expr.denominator)
            → Elem (ref_string ref) refs)

pub resolve-Reads :
    (cm : CompiledModel) (req : Request) (r : Resolved)
    → resolve cm req ≡ ok r
    → Reads cm req (map ref_string (all_refs r))
unfolding resolve all_refs
resolve-Reads cm req r e =
    let (_, e1) = fail_if-eq-ok (is_nil req.metrics) _ _ e in
    let (_, e2) =
      fail_if-eq-ok (not (is_nil req.model) && not (text_eq req.model cm.name)) _ _ e1 in
    let (ms, p, e3) = >>=-eq-ok (traverse (resolve_metric cm) req.metrics) _ e2 in
    let (mfs, _, e4) = >>=-eq-ok (resolve_metric_filters req.metric_filters ms) _ e3 in
    let (named, q, e5) = >>=-eq-ok (traverse (resolve_dimension cm) req.dimensions) _ e4 in
    let (dims, g, e6) = >>=-eq-ok (apply_grain req.time_grain named) _ e5 in
    let (order, _, e7) = >>=-eq-ok (resolve_order_by req) _ e6 in
    let (fs, s, e8) = >>=-eq-ok (traverse (resolve_filter cm) req.filters) _ e7 in
    let out : Resolved = record {
      metrics = ms;
      metric_filters = mfs;
      dims = dims;
      order = order;
      filter_refs = fs;
    } in
    subst (λ (x : Resolved). Reads cm req (map ref_string (all_refs x))) (ok_injective out r e8)
      (record {
        dimensions = λ name i.
            let (dm, k, t) =
              traverse_forward (resolve_dimension cm) req.dimensions named q name i in
            subst (λ x. Elem x (map ref_string (dim_refs dims ++ fs ++ metric_refs ms)))
              (resolve_dimension-string cm name dm t)
              (Elem-map ref_string dm.ref (dim_refs dims ++ fs ++ metric_refs ms) (
                Elem-append_left dm.ref (dim_refs dims ++ fs) (metric_refs ms) (
                  Elem-append_left dm.ref (dim_refs dims) fs (
                    subst (Elem dm.ref) (sym (apply_grain-refs req.time_grain named dims g))
                      (Elem-map (λ (x : DimSpec). x.ref) dm named k)))));
        filters = λ f i.
            let (ref, k, t) = traverse_forward (resolve_filter cm) req.filters fs s f i in
            subst (λ x. Elem x (map ref_string (dim_refs dims ++ fs ++ metric_refs ms)))
              (resolve_filter-string cm f ref t)
              (Elem-map ref_string ref (dim_refs dims ++ fs ++ metric_refs ms) (
                Elem-append_left ref (dim_refs dims ++ fs) (metric_refs ms)
                  (Elem-append_right ref (dim_refs dims) fs k)));
        metrics = λ name i.
            let (m, k, t) = traverse_forward (resolve_metric cm) req.metrics ms p name i in
            (
              m,
              resolve_metric-lookup cm name m t,
              λ ref h. Elem-map ref_string ref (dim_refs dims ++ fs ++ metric_refs ms) (
                  Elem-append_right ref (dim_refs dims ++ fs) (metric_refs ms)
                    (Elem-metric_refs m ms ref k h)),
            );
      })
