-- ===== src/Ossie/Validate/Datasets.antt =====
-- Datasets, their fields, and relationships without a problem.
use semantic_operator.Prelude.{
  Text, ℕ, suc, false, not, ◌||◌, ◌==◌, List, [], ◌∷◌, none, some, is_nil, length, contains,
  text_eq, text_eq_iff, Bool-cases, Map, lookup, insert, ◌≡◌, ◌≢◌, ◌⊎◌, inl, inr, refl, ap, sym,
  ◌∙◌, arith, Elem, All,
}
use mathlib.Core.Option.{some-injective}
use semantic_operator.Prelude.Sorting.{HasDistinctKeys}
use semantic_operator.Prelude.Lists.{All-of_Elem}
use semantic_operator.Api.{Field, Dataset, Relationship, select}
use semantic_operator.Ossie.{
  add_if, is_none, field_problems, fields_problems, register, register_all, dataset_problems,
  datasets_problems, relationship_problems, relationships_problems, field_duplicate,
  dataset_no_source, relationship_to, relationship_columns, relationship_name_problems,
}
use semantic_operator.Ossie.Validate.Fresh.{
  append-eq-nil, add_if-eq-nil, if-eq-nil, is_none-false, is_none-true, contains-false, not-false,
  mark_named-eq, IsFresh, IsFresh-HasDistinctKeys,
}

-- A named field with an expression for a supported dialect.
abbrev pub IsValidField : Field → Type 0
IsValidField f = (is_nil f.name ≡ false) × ((body : Text) × (select f.expression ≡ some body))

abbrev pub IsValidDataset : Dataset → Type 0
IsValidDataset d =
    (is_nil d.name ≡ false)
    × (is_nil d.source ≡ false)
    × All IsValidField d.fields
    × HasDistinctKeys (λ (f : Field). f.name) d.fields

fields_valid :
    (dataset : Text) (j : ℕ) (seen : List Text) (fs : List Field)
    → fields_problems dataset j seen fs ≡ []
    → All IsValidField fs × IsFresh (λ (f : Field). f.name) seen fs
unfolding fields_problems field_problems
fields_valid dataset j seen [] h = (tt, tt)
fields_valid dataset j seen (f ∷ fs) h =
    let (now, later) = append-eq-nil (field_problems dataset j seen f) _ h in
    let (named, checks) = if-eq-nil (is_nil f.name) _ _ now in
    let (new, body) =
      append-eq-nil (add_if (contains seen f.name) (field_duplicate dataset f.name)) _ checks in
    let (all, fresh) =
      fields_valid dataset (suc j) (f.name ∷ seen) fs
        (rw (mark_named-eq f.name seen named) at later) in
    (
      ((named, is_none-false (select f.expression) (add_if-eq-nil _ _ body)), all),
      (contains-false seen f.name (add_if-eq-nil _ _ new), fresh),
    )

dataset_valid :
    (i : ℕ) (datasets : Map Dataset) (d : Dataset)
    → dataset_problems i datasets d ≡ []
    → IsValidDataset d × (lookup datasets d.name ≡ none)
unfolding dataset_problems
dataset_valid i datasets d h =
    let (named, k) = if-eq-nil (is_nil d.name) _ _ h in
    let (new, l) = if-eq-nil (not (is_none (lookup datasets d.name))) _ _ k in
    let (source, m) = append-eq-nil (add_if (is_nil d.source) (dataset_no_source d.name)) _ l in
    let (fields, fresh) = fields_valid d.name 0 [] d.fields m in
    (
      (
        named,
        add_if-eq-nil _ _ source,
        fields,
        IsFresh-HasDistinctKeys (λ (f : Field). f.name) [] d.fields fresh,
      ),
      is_none-true (lookup datasets d.name) (not-false _ new),
    )

register-eq :
    (d : Dataset) (m : Map Dataset)
    → is_nil d.name ≡ false
    → lookup m d.name ≡ none
    → register d m ≡ insert d.name d m
unfolding register is_none
register-eq d m n l = rw (n, l, register) refl

lookup-insert-none :
    (m : Map Dataset) (k x : Text) (d : Dataset)
    → lookup (insert k d m) x ≡ none
    → (k ≢ x) × (lookup m x ≡ none)
unfolding lookup
lookup-insert-none m k x d h = elim (Bool-cases (text_eq k x)) [
  | inl e ↦ cc (rw (e, lookup) at h)
  | inr e ↦ (λ q. cc ((text_eq_iff k x).1 q), rw (e, lookup) at h)
]

-- Datasets without a problem, and none of their names was in the map before.
datasets_valid :
    (i : ℕ) (m : Map Dataset) (ds : List Dataset)
    → datasets_problems i m ds ≡ []
    → All IsValidDataset ds
      × HasDistinctKeys (λ (d : Dataset). d.name) ds
      × ((d : Dataset) → Elem d ds → lookup m d.name ≡ none)
unfolding datasets_problems
datasets_valid i m [] h = (tt, tt, λ d l. absurd l)
datasets_valid i m (d ∷ ds) h =
    let (now, later) = append-eq-nil (dataset_problems i m d) _ h in
    let (valid, new) = dataset_valid i m d now in
    let (all, distinct, apart) =
      datasets_valid (suc i) (insert d.name d m) ds (rw (register-eq d m valid.0 new) at later) in
    (
      (valid, all),
      (
        All-of_Elem (λ x. d.name ≢ x.name) ds
            (λ x l. (lookup-insert-none m d.name x.name d (apart x l)).0),
        distinct,
      ),
      λ x l. elim l [
        | inl e ↦ rw e new
        | inr k ↦ (lookup-insert-none m d.name x.name d (apart x k)).1
      ],
    )

pub datasets-IsValid :
    (ds : List Dataset)
    → datasets_problems 0 [] ds ≡ []
    → All IsValidDataset ds × HasDistinctKeys (λ (d : Dataset). d.name) ds
datasets-IsValid ds h = let (a, b, c) = datasets_valid 0 [] ds h in (a, b)

-- There is a dataset of that name.
abbrev pub IsNamed : List Dataset → Text → Type 0
IsNamed ds n = (d : Dataset) × Elem d ds × (d.name ≡ n)

-- What the map holds stands in the list, under its name.
lookup-register_all :
    (ds : List Dataset) (m : Map Dataset) (n : Text) (d : Dataset)
    → lookup (register_all ds m) n ≡ some d
    → (Elem d ds × (d.name ≡ n)) ⊎ (lookup m n ≡ some d)
unfolding register_all register lookup
lookup-register_all [] m n d h = inr h
lookup-register_all (x ∷ ds) m n d h = elim (lookup-register_all ds (register x m) n d h) [
  | inl (l, e) ↦ inl (inr l, e)
  | inr e ↦ elim (Bool-cases (is_nil x.name || not (is_none (lookup m x.name)))) [
    | inl b ↦ inr (rw (b, register) at e)
    | inr b ↦ elim (Bool-cases (text_eq x.name n)) [
      | inl q ↦
          let same = some-injective x d (rw (b, q, register, lookup) at e) in
          inl (inl (sym same), ap (λ (y : Dataset). y.name) (sym same) ∙ (text_eq_iff x.name n).0 q)
      | inr q ↦ inr (rw (b, q, register, lookup) at e)
    ]
  ]
]

pub lookup-IsNamed :
    (ds : List Dataset) (n : Text) (d : Dataset)
    → lookup (register_all ds []) n ≡ some d
    → Elem d ds × (d.name ≡ n)
unfolding lookup
lookup-IsNamed ds n d h = elim (lookup-register_all ds [] n d h) [ inl p ↦ p | inr e ↦ cc ]

abbrev pub IsValidRelationship : List Dataset → Relationship → Type 0
IsValidRelationship ds r =
    (is_nil r.name ≡ false)
    × IsNamed ds r.from
    × IsNamed ds r.to
    × (length r.from_columns ≢ 0)
    × (length r.from_columns ≡ length r.to_columns)

columns_even : (a b : ℕ) → (a == 0 || not (a == b)) ≡ false → (a ≢ 0) × (a ≡ b)
columns_even a b h = ground arith

module _ (ds : List Dataset) (m : Map Dataset)
    (known : (n : Text) (d : Dataset) → lookup m n ≡ some d → Elem d ds × (d.name ≡ n)) where
  relationship_valid :
      (i : ℕ) (seen : List Text) (r : Relationship)
      → relationship_problems m i seen r ≡ []
      → IsValidRelationship ds r × (Elem r.name seen → ⊥)
  unfolding relationship_problems relationship_name_problems
  relationship_valid i seen r h =
      let (three, columns) = append-eq-nil _ (add_if _ (relationship_columns r.name)) h in
      let (two, to) =
        append-eq-nil _ (add_if (is_none (lookup m r.to)) (relationship_to r.name r.to)) three in
      let (name, from) = append-eq-nil (relationship_name_problems i seen r.name) _ two in
      let (named, new) = if-eq-nil (is_nil r.name) _ _ name in
      let (d, e) = is_none-false _ (add_if-eq-nil _ _ from) in
      let (f, g) = is_none-false _ (add_if-eq-nil _ _ to) in
      let (some_column, even) = columns_even _ _ (add_if-eq-nil _ _ columns) in
      let (l, q) = known r.from d e in
      let (k, p) = known r.to f g in
      (
        (named, (d, l, q), (f, k, p), some_column, even),
        contains-false seen r.name (add_if-eq-nil _ _ new),
      )

  pub relationships_valid :
      (i : ℕ) (seen : List Text) (rs : List Relationship)
      → relationships_problems m i seen rs ≡ []
      → All (IsValidRelationship ds) rs × IsFresh (λ (r : Relationship). r.name) seen rs
  unfolding relationships_problems
  relationships_valid i seen [] h = (tt, tt)
  relationships_valid i seen (r ∷ rs) h =
      let (now, later) = append-eq-nil (relationship_problems m i seen r) _ h in
      let (valid, new) = relationship_valid i seen r now in
      let (all, fresh) = relationships_valid (suc i) (r.name ∷ seen) rs later in
      ((valid, all), (new, fresh))
