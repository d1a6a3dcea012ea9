-- ===== src/Ossie/Validate/Views.antt =====
-- Views and join types without a problem.
use mathlib.Core.Path.{subst}
use semantic_operator.Prelude.{
  Text, ℕ, suc, Bool, true, false, not, ◌&&◌, List, [], ◌∷◌, ◌++◌, sym, Option, some, is_nil, codes,
  contains, contains_iff, text_eq, text_eq_iff, Option-cases, Map, lookup, ◌≡◌, ◌⊎◌, inl, inr, refl,
  Elem, All,
}
use semantic_operator.Api.{
  Field, Dataset, Dimension, ViewSpec, RelationshipJoin, GovernanceSpec, RolePolicy, find_field,
  role,
}
use semantic_operator.Ossie.{add_if, all_named, split_field_ref, view_duplicate, join_unknown}
use semantic_operator.Ossie.Validate.{
  view_metrics_problems, view_field_problems, view_dimensions_problems, view_problems,
  views_problems, join_problems, joins_problems,
}
use semantic_operator.Ossie.Validate.Fresh.{
  append-eq-nil, add_if-eq-nil, if-eq-nil, is_none-false, not-false, split_field_ref-append,
  not_and-false, names_known, contains-false, mark_named-eq, IsFresh,
}

-- `dataset.field`, with a field that is a dimension.
abbrev pub IsDimensionRef : List Dataset → Text → Type 0
IsDimensionRef ds dim =
    (d : Dataset) × (name : Text) × (f : Field) × (dimension : Dimension) × (dim
      ≡ d.name ++ b'.' ∷ name)
    × Elem d ds
    × (find_field name d.fields ≡ some f)
    × (f.dimension ≡ some dimension)

abbrev pub IsValidView : List Dataset → List Text → Option GovernanceSpec → ViewSpec → Type 0
IsValidView ds names governance v =
    (is_nil v.name ≡ false)
    × (is_nil v.metrics ≡ false)
    × All (λ n. Elem n names) v.metrics
    × All (IsDimensionRef ds) v.dimensions
    × ((is_nil v.role ≡ true) ⊎ ((r : RolePolicy) × (role governance v.role ≡ some r)))

abbrev pub IsValidJoin : List Text → RelationshipJoin → Type 0
IsValidJoin names j =
    Elem j.relationship names × ((j.type ≡ codes "INNER") ⊎ (j.type ≡ codes "LEFT"))

view_metrics_valid :
    (names : List Text) (view : Text) (mns : List Text)
    → view_metrics_problems (all_named names []) view mns ≡ []
    → All (λ n. Elem n names) mns
unfolding view_metrics_problems
view_metrics_valid names view [] h = tt
view_metrics_valid names view (mn ∷ mns) h =
    let (now, later) = append-eq-nil (add_if _ _) _ h in
    (
      names_known names mn (not-false _ (add_if-eq-nil _ _ now)),
      view_metrics_valid names view mns later,
    )

one_of : (a b : Bool) → (not a && not b) ≡ false → (a ≡ true) ⊎ (b ≡ true)
one_of true b h = inl refl
one_of false true h = inr refl
one_of false false h = cc

join_valid :
    (names : List Text) (i : ℕ) (seen : List Text) (j : RelationshipJoin)
    → join_problems names i seen j ≡ []
    → IsValidJoin names j × (Elem j.relationship seen → ⊥)
unfolding join_problems
join_valid names i seen j h =
    let (two, type) = append-eq-nil _ (add_if _ _) h in
    let (there, new) = append-eq-nil (add_if _ (join_unknown i j.relationship)) _ two in
    (
      (
        (contains_iff names j.relationship).0 (not-false _ (add_if-eq-nil _ _ there)),
        elim (one_of (text_eq j.type (codes "INNER")) _ (add_if-eq-nil _ _ type)) [
          | inl a ↦ inl ((text_eq_iff j.type (codes "INNER")).0 a)
          | inr b ↦ inr ((text_eq_iff j.type (codes "LEFT")).0 b)
        ],
      ),
      contains-false seen j.relationship (add_if-eq-nil _ _ new),
    )

pub joins_valid :
    (names : List Text) (i : ℕ) (seen : List Text) (js : List RelationshipJoin)
    → joins_problems names i seen js ≡ []
    → All (IsValidJoin names) js × IsFresh (λ (j : RelationshipJoin). j.relationship) seen js
unfolding joins_problems
joins_valid names i seen [] h = (tt, tt)
joins_valid names i seen (j ∷ js) h =
    let (now, later) = append-eq-nil (join_problems names i seen j) _ h in
    let (valid, new) = join_valid names i seen j now in
    let (all, fresh) = joins_valid names (suc i) (j.relationship ∷ seen) js later in
    ((valid, all), (new, fresh))

module _ (ds : List Dataset) (m : Map Dataset)
    (known : (n : Text) (d : Dataset) → lookup m n ≡ some d → Elem d ds × (d.name ≡ n)) where
  dimension_valid :
      (view dim : Text) (ref : Text × Text)
      → split_field_ref dim ≡ some ref
      → view_field_problems m view dim ref ≡ []
      → IsDimensionRef ds dim
  unfolding view_field_problems
  dimension_valid view dim ref s h = elim (Option-cases (lookup m ref.0)) [
    | inl e ↦ cc (rw (e, view_field_problems) at h)
    | inr (d, e) ↦ elim (Option-cases (find_field ref.1 d.fields)) [
      | inl q ↦ cc (rw (e, q, view_field_problems) at h)
      | inr (f, q) ↦
          let (l, n) = known ref.0 d e in
          let (dimension, p) =
            is_none-false f.dimension (add_if-eq-nil _ _ (rw (e, q, view_field_problems) at h)) in
          (
            d,
            ref.1,
            f,
            dimension,
            subst (λ x. dim ≡ x ++ b'.' ∷ ref.1) (sym n)
                (split_field_ref-append dim ref.0 ref.1 s).0,
            l,
            q,
            p,
          )
    ]
  ]

  dimensions_valid :
      (view : Text) (dims : List Text)
      → view_dimensions_problems m view dims ≡ []
      → All (IsDimensionRef ds) dims
  unfolding view_dimensions_problems
  dimensions_valid view [] h = tt
  dimensions_valid view (dim ∷ dims) h =
      let (now, later) = append-eq-nil _ (view_dimensions_problems m view dims) h in
      let rest = dimensions_valid view dims later in
      elim (Option-cases (split_field_ref dim)) [
        | inl e ↦ cc (rw e at now)
        | inr (ref, e) ↦ (dimension_valid view dim ref e (rw e at now), rest)
      ]

  view_valid :
      (names : List Text) (governance : Option GovernanceSpec) (i : ℕ) (seen : List Text)
      (v : ViewSpec)
      → view_problems m (all_named names []) governance i seen v ≡ []
      → IsValidView ds names governance v × (Elem v.name seen → ⊥)
  unfolding view_problems
  view_valid names governance i seen v h =
      let (named, checks) = if-eq-nil (is_nil v.name) _ _ h in
      let (four, by_role) = append-eq-nil _ (add_if _ _) checks in
      let (three, dims) = append-eq-nil _ (view_dimensions_problems m v.name v.dimensions) four in
      let (two, mns) =
        append-eq-nil _ (view_metrics_problems (all_named names []) v.name v.metrics) three in
      let (new, some_metric) =
        append-eq-nil (add_if (contains seen v.name) (view_duplicate v.name)) _ two in
      (
        (
          named,
          add_if-eq-nil _ _ some_metric,
          view_metrics_valid names v.name v.metrics mns,
          dimensions_valid v.name v.dimensions dims,
          elim (not_and-false (is_nil v.role) _ (add_if-eq-nil _ _ by_role)) [
            | inl a ↦ inl a
            | inr b ↦ inr (is_none-false (role governance v.role) b)
          ],
        ),
        contains-false seen v.name (add_if-eq-nil _ _ new),
      )

  pub views_valid :
      (names : List Text) (governance : Option GovernanceSpec) (i : ℕ) (seen : List Text)
      (vs : List ViewSpec)
      → views_problems m (all_named names []) governance i seen vs ≡ []
      → All (IsValidView ds names governance) vs × IsFresh (λ (v : ViewSpec). v.name) seen vs
  unfolding views_problems
  views_valid names governance i seen [] h = (tt, tt)
  views_valid names governance i seen (v ∷ vs) h =
      let (now, later) =
        append-eq-nil (view_problems m (all_named names []) governance i seen v) _ h in
      let (valid, new) = view_valid names governance i seen v now in
      let (all, fresh) =
        views_valid names governance (suc i) (v.name ∷ seen) vs
          (rw (mark_named-eq v.name seen valid.0) at later) in
      ((valid, all), (new, fresh))
