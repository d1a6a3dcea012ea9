-- ===== src/Ossie/Validate/Policies.antt =====
-- Policies without a problem.
use mathlib.Core.Path.{subst}
use semantic_operator.Prelude.{
  Text, ℕ, suc, true, false, List, [], ◌∷◌, ◌++◌, map, all, Option, none, some, is_nil, contains,
  Result-cases, Map, lookup, ok, ◌≡◌, ◌⊎◌, inl, inr, sym, refl, Elem, All,
}
use semantic_operator.Prelude.Sorting.{HasDistinctKeys}
use semantic_operator.Api.{Dataset, RowFilter, RolePolicy, GovernanceSpec}
use semantic_operator.Governance.Claims.{Part, validatable_predicate}
use semantic_operator.Expr.Bytes.{is_space, drop_while}
use semantic_operator.Expr.Predicate.{parse_predicate}
use semantic_operator.Ossie.{add_if, role_duplicate, split_field_ref}
use semantic_operator.Ossie.Validate.{
  has_dataset, deny_problems, predicate_problems, row_filter_problems, role_problems,
  roles_problems, governance_problems,
}
use semantic_operator.Ossie.Validate.Fresh.{
  append-eq-nil, add_if-eq-nil, if-eq-nil, is_none-false, not-false, split_field_ref-append,
  not-true, contains-false, mark_named-eq, not_and-false, names_known, IsFresh,
  IsFresh-HasDistinctKeys,
}
use semantic_operator.Ossie.Validate.Datasets.{IsNamed}
use semantic_operator.Ossie.Validate.Providers.{IsValidProvider, provider_valid}

module _ (split_claims : Text → List Part) where
  -- The filter is on a dataset of the model, and is a predicate once its placeholders are filled.
  abbrev pub IsValidFilter : List Dataset → RowFilter → Type 0
  IsValidFilter ds rf =
      IsNamed ds rf.dataset
      × (is_nil (drop_while is_space rf.predicate) ≡ false)
      × ((checkable : Text) × (columns : List Text) × (validatable_predicate
              (split_claims rf.predicate)
            ≡ ok checkable)
          × (parse_predicate checkable ≡ ok columns))

  -- A denied field is written `dataset.field`, for a dataset of the model.
  abbrev pub IsValidDenial : List Dataset → Text → Type 0
  IsValidDenial ds df =
      (d : Dataset) × (field : Text) × (df ≡ d.name ++ b'.' ∷ field)
      × Elem d ds
      × (is_nil field ≡ false)

  abbrev pub IsValidRole : List Dataset → RolePolicy → Type 0
  IsValidRole ds r =
      (is_nil r.name ≡ false)
      × All (IsValidFilter ds) r.row_filters
      × All (IsValidDenial ds) r.deny_fields

  -- A policy of the model, where there is one.
  abbrev pub IsValidGovernance : List Dataset → Option GovernanceSpec → Type 0
  IsValidGovernance ds none = Unit
  IsValidGovernance ds (some g) =
      IsValidProvider g.external
      × All (IsValidRole ds) g.roles
      × HasDistinctKeys (λ (r : RolePolicy). r.name) g.roles
      × ((is_nil g.default_role ≡ true)
          ⊎ Elem g.default_role (map (λ (r : RolePolicy). r.name) g.roles))

  module _ (ds : List Dataset) (m : Map Dataset)
      (known : (n : Text) (d : Dataset) → lookup m n ≡ some d → Elem d ds × (d.name ≡ n)) where
    predicate_valid :
        (name : Text) (rf : RowFilter)
        → predicate_problems split_claims m name rf ≡ []
        → (is_nil (drop_while is_space rf.predicate) ≡ false)
          × ((checkable : Text) × (columns : List Text) × (validatable_predicate
                  (split_claims rf.predicate)
                ≡ ok checkable)
              × (parse_predicate checkable ≡ ok columns))
    unfolding predicate_problems
    predicate_valid name rf h =
        let (some_text, k) = if-eq-nil (is_nil (drop_while is_space rf.predicate)) _ _ h in
        elim (Result-cases (validatable_predicate (split_claims rf.predicate))) [
          | inr (e, q) ↦ cc (rw q at k)
          | inl (checkable, q) ↦ elim (Result-cases (parse_predicate checkable)) [
            | inr (e, p) ↦ cc (rw (q, p) at k)
            | inl (columns, p) ↦ (some_text, (checkable, columns, q, p))
          ]
        ]

    denials_valid :
        (name : Text) (dfs : List Text) → deny_problems m name dfs ≡ [] → All (IsValidDenial ds) dfs
    unfolding deny_problems has_dataset
    denials_valid name [] h = tt
    denials_valid name (df ∷ dfs) h =
        let (now, later) = append-eq-nil _ (deny_problems m name dfs) h in
        (
          denial df (split_field_ref df) refl (not-false _ (add_if-eq-nil _ _ now)),
          denials_valid name dfs later,
        )
      where
        denial :
            (df : Text) (o : Option (Text × Text))
            → split_field_ref df ≡ o
            → has_dataset m o ≡ true
            → IsValidDenial ds df
        denial df none s t = cc
        denial df (some (dataset, field)) s t =
            let (d, e) = is_none-false (lookup m dataset) (not-true _ t) in
            let (l, q) = known dataset d e in
            let (cut, _, some_field) = split_field_ref-append df dataset field s in
            (d, field, subst (λ x. df ≡ x ++ b'.' ∷ field) (sym q) cut, l, some_field)

    filters_valid :
        (name : Text) (rfs : List RowFilter)
        → row_filter_problems split_claims m name rfs ≡ []
        → All (IsValidFilter ds) rfs
    unfolding row_filter_problems
    filters_valid name [] h = tt
    filters_valid name (rf ∷ rfs) h =
        let (now, later) = append-eq-nil _ (row_filter_problems split_claims m name rfs) h in
        let (there, predicate) = append-eq-nil _ (predicate_problems split_claims m name rf) now in
        let (d, e) = is_none-false (lookup m rf.dataset) (add_if-eq-nil _ _ there) in
        let (l, q) = known rf.dataset d e in
        let (some_text, parses) = predicate_valid name rf predicate in
        (((d, l, q), some_text, parses), filters_valid name rfs later)

    roles_valid :
        (i : ℕ) (seen : List Text) (rs : List RolePolicy)
        → roles_problems split_claims m i seen rs ≡ []
        → All (IsValidRole ds) rs × IsFresh (λ (r : RolePolicy). r.name) seen rs
    unfolding roles_problems role_problems
    roles_valid i seen [] h = (tt, tt)
    roles_valid i seen (r ∷ rs) h =
        let (now, later) = append-eq-nil (role_problems split_claims m i seen r) _ h in
        let (named, checks) = if-eq-nil (is_nil r.name) _ _ now in
        let (two, filters) =
          append-eq-nil _ (row_filter_problems split_claims m r.name r.row_filters) checks in
        let (new, denials) =
          append-eq-nil (add_if (contains seen r.name) (role_duplicate r.name)) _ two in
        let (all, fresh) =
          roles_valid (suc i) (r.name ∷ seen) rs (rw (mark_named-eq r.name seen named) at later) in
        (
          (
            (
              named,
              filters_valid r.name r.row_filters filters,
              denials_valid r.name r.deny_fields denials,
            ),
            all,
          ),
          (contains-false seen r.name (add_if-eq-nil _ _ new), fresh),
        )

    pub governance_valid :
        (g : Option GovernanceSpec)
        → governance_problems split_claims m g ≡ []
        → IsValidGovernance ds g
    unfolding governance_problems
    governance_valid none h = tt
    governance_valid (some g) h =
        let (two, default) = append-eq-nil _ (add_if _ _) h in
        let (provider, roles) = append-eq-nil _ (roles_problems split_claims m 0 [] g.roles) two in
        let (all, fresh) = roles_valid 0 [] g.roles roles in
        (
          provider_valid g.external provider,
          all,
          IsFresh-HasDistinctKeys (λ (r : RolePolicy). r.name) [] g.roles fresh,
          elim (not_and-false (is_nil g.default_role) _ (add_if-eq-nil _ _ default)) [
            | inl a ↦ inl a
            | inr b ↦ inr (
                names_known (map (λ (r : RolePolicy). r.name) g.roles) g.default_role
                  (not-false _ b))
          ],
        )
