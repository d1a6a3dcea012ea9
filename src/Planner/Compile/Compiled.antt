-- ===== src/Planner/Compile/Compiled.antt =====
-- internal/planner/model.go, `Compile`: what a compiled model holds.
use semantic_operator.Prelude.{
  Text, List, [], ◌∷◌, Option, none, some, text_eq, text_eq_iff, Map, lookup, insert, traverse,
  Result, ok, ok_injective, >>=-eq-ok, ◌≡◌, ◌⊎◌, inl, inr, refl, sym, ap, ◌∙◌, Elem, Bool-cases,
}
use mathlib.Core.Path.{subst}
use mathlib.Core.Option.{some-injective}
use semantic_operator.Errors.{Error}
use semantic_operator.Api.{SemanticModelSpec, Metric, select}
use semantic_operator.Expr.Metric.{parse}
use semantic_operator.Expr.WellFormed.{IsMetric, parse-IsTerm}
use semantic_operator.Planner.{CompiledModel, CompiledMetric}
use semantic_operator.Planner.Compile.{index_by, compile_metric, compile_dataset, compile, selected}

-- A list that `traverse` returns comes from its argument, element by element.
traverse-Elem :
    {A B : Type 0} (f : A → Result Error B) (xs : List A) (ys : List B) (y : B)
    → traverse f xs ≡ ok ys
    → Elem y ys
    → (x : A) × Elem x xs × (f x ≡ ok y)
unfolding traverse
traverse-Elem f [] ys y e m = absurd (subst (Elem y) (sym (ok_injective [] ys e)) m)
traverse-Elem f (x ∷ xs) ys y e m =
    let (z, p, e1) = >>=-eq-ok (f x) _ e in
    let (zs, q, e2) = >>=-eq-ok (traverse f xs) _ e1 in
    elim (subst (Elem y) (sym (ok_injective (z ∷ zs) ys e2)) m) [
      | inl i ↦ (x, inl refl, p ∙ ap ok (sym i))
      | inr k ↦ let (w, u, v) = traverse-Elem f xs zs y q k in (w, inr u, v)
    ]

-- What a filled map holds under a key is an element with that key, or was there before.
lookup-index_by :
    {A : Type 0} (key : A → Text) (m : Map A) (xs : List A) (name : Text) (a : A)
    → lookup (index_by key m xs) name ≡ some a
    → (Elem a xs × (key a ≡ name)) ⊎ (lookup m name ≡ some a)
unfolding index_by lookup
lookup-index_by key m [] name a e = inr e
lookup-index_by key m (x ∷ xs) name a e =
    elim (lookup-index_by key (insert (key x) x m) xs name a e) [
      | inl (k, t) ↦ inl (inr k, t)
      | inr h ↦ elim (Bool-cases (text_eq (key x) name)) [
        | inl s ↦
            let same = some-injective x a (rw (s, lookup) at h) in
            inl (inl (sym same), ap key (sym same) ∙ (text_eq_iff (key x) name).0 s)
        | inr n ↦ inr (rw (n, lookup) at h)
      ]
    ]

-- A metric of a compiled model.
pub record IsCompiled (spec : SemanticModelSpec) (name : Text) (m : CompiledMetric) : Type 0 where
  pub named : m.name ≡ name
  pub source : (x : Metric) × Elem x spec.ossie.metrics × (select x.expression ≡ some m.raw)
  pub parsed : parse m.raw ≡ ok m.expr
  pub terms : IsMetric m.expr

selected-some :
    (name : Text) (o : Option Text) (body : Text) → selected name o ≡ ok body → o ≡ some body
unfolding selected
selected-some name none body e = absurd (cc e)
selected-some name (some b) body e = ap some (ok_injective b body e)

compile_metric-IsCompiled :
    (spec : SemanticModelSpec) (x : Metric) (m : CompiledMetric)
    → Elem x spec.ossie.metrics
    → compile_metric x ≡ ok m
    → IsCompiled spec m.name m
unfolding compile_metric
compile_metric-IsCompiled spec x m k e =
    let (body, p, e1) = >>=-eq-ok (selected x.name (select x.expression)) _ e in
    let (parsed, q, e2) = >>=-eq-ok (parse body) _ e1 in
    subst (λ (c : CompiledMetric). IsCompiled spec c.name c) (ok_injective _ m e2)
      (record {
        named = refl;
        source = (x, k, selected-some x.name (select x.expression) body p);
        parsed = q;
        terms = parse-IsTerm body parsed q;
      })

-- In a compiled model, the metric under a name has that name, comes from the selected expression of
-- a metric of the spec, and has parsed, with terms that are certified aggregates of scanned scalars.
pub compile-IsCompiled :
    (spec_version : SemanticModelSpec → Text) (spec : SemanticModelSpec) (namespace resource : Text)
    (cm : CompiledModel) (name : Text) (m : CompiledMetric)
    → compile spec_version spec namespace resource ≡ ok cm
    → lookup cm.metrics name ≡ some m
    → IsCompiled spec name m
unfolding compile lookup
compile-IsCompiled spec_version spec namespace resource cm name m e l =
    let (datasets, p, e1) =
      >>=-eq-ok (traverse (compile_dataset spec.connection) spec.ossie.datasets) _ e in
    let (metrics, q, e2) = >>=-eq-ok (traverse compile_metric spec.ossie.metrics) _ e1 in
    elim (lookup-index_by (λ (c : CompiledMetric). c.name) [] metrics name m
      (ap (λ (c : CompiledModel). lookup c.metrics name) (ok_injective _ cm e2) ∙ l)) [
        | inl (k, t) ↦
            let (x, i, j) = traverse-Elem compile_metric spec.ossie.metrics metrics m q k in
            subst (λ n. IsCompiled spec n m) t (compile_metric-IsCompiled spec x m i j)
        | inr h ↦ absurd (cc h)
      ]
