-- ===== src/Planner/Build/RowFilters.antt =====
-- internal/planner/plan_sql.go, `whereClauses`: the row filters of the roles in a statement.
use mathlib.Core.Path.{subst}
use semantic_operator.Planner.Request.{Filter}
use semantic_operator.Prelude.{
  if◌then◌else◌, ok_injective, >>=-eq-ok, sym, ◌∙◌, traverse, Text, false, List, [], ◌∷◌, map,
  contains_iff, is_nil, ok, ◌≡◌, inl, inr, refl, Elem, All, codes,
}
use semantic_operator.Prelude.Lists.{Elem-append_left, Elem-append_right}
use semantic_operator.Prelude.Strings.{join}
use semantic_operator.Api.{RowFilter}
use semantic_operator.Expr.{qualify_bare_columns}
use semantic_operator.Planner.{CompiledRelationship}
use semantic_operator.Planner.Joins.{join_tree}
use semantic_operator.Planner.Joins.Correct.{join_tree-Joins}
use semantic_operator.Planner.Render.{
  where_clauses, render_filter, Builder, alias, parens, render_row_filter, role_terms,
}
use semantic_operator.Planner.Queries.{Scope, scope_of, from_clause, in_tree, group_datasets}

-- A row filter as it stands in the statement.
abbrev pub filter_text : Builder → RowFilter → Text
filter_text b rf = parens (qualify_bare_columns rf.predicate (alias b rf.dataset) b.d.quote_ident)

-- The conjunction of a role's filters.
abbrev pub group_text : Builder → List RowFilter → Text
group_text b g = parens (join (codes " AND ") (map (filter_text b) g))

abbrev pub IsFull : List RowFilter → Type 0
IsFull g = is_nil g ≡ false

abbrev Inside : List Text → RowFilter → Type 0
Inside tree rf = Elem rf.dataset tree

module _ (b : Builder) (tree : List Text) where
  filters_render :
      (g : List RowFilter)
      → All (Inside tree) g
      → traverse (render_row_filter b tree) g ≡ ok (map (filter_text b) g)
  unfolding traverse render_row_filter
  filters_render [] h = refl
  filters_render (rf ∷ g) (m, h) = rw ((contains_iff tree rf.dataset).1 m, filters_render g h) refl

  terms_render :
      (groups : List (List RowFilter))
      → All (All (Inside tree)) groups
      → All IsFull groups
      → role_terms b tree groups ≡ ok (map (group_text b) groups)
  unfolding role_terms
  terms_render [] h k = refl
  terms_render ([] ∷ groups) h (k, l) = absurd (cc k)
  terms_render ((rf ∷ g) ∷ groups) (h, i) (k, l) =
      rw (filters_render (rf ∷ g) h, terms_render groups i l) refl

datasets-Inside :
    (groups : List (List RowFilter)) (tree : List Text)
    → ((ds : Text) → Elem ds (group_datasets groups) → Elem ds tree)
    → All (All (Inside tree)) groups
unfolding group_datasets
datasets-Inside [] tree h = tt
datasets-Inside (g ∷ groups) tree h = (
  inside g (λ ds m. h ds (Elem-append_left ds (map dataset g) (group_datasets groups) m)),
  datasets-Inside groups tree
      (λ ds m. h ds (Elem-append_right ds (map dataset g) (group_datasets groups) m)),
)
  where
    dataset : RowFilter → Text
    dataset rf = rf.dataset

    inside :
        (g : List RowFilter)
        → ((ds : Text) → Elem ds (map dataset g) → Elem ds tree)
        → All (Inside tree) g
    inside [] h = tt
    inside (rf ∷ g) h = (h rf.dataset (inl refl), inside g (λ ds m. h ds (inr m)))

-- Over a join tree whose required datasets include those of the row filters, rendering the row
-- filters succeeds, with one term for each role: the conjunction of all its filters.
pub role_terms_exact :
    (b : Builder) (required : List Text) (root : Text) (joins : List CompiledRelationship)
    → join_tree b.cm required ≡ ok (root, joins)
    → ((ds : Text) → Elem ds (group_datasets b.row_filter_groups) → Elem ds required)
    → All IsFull b.row_filter_groups
    → role_terms b (in_tree root joins) b.row_filter_groups
      ≡ ok (map (group_text b) b.row_filter_groups)
role_terms_exact b required root joins e sub full =
    let tree = (join_tree-Joins b.cm required root joins e).1 in
    terms_render b (in_tree root joins) b.row_filter_groups
      (datasets-Inside b.row_filter_groups (in_tree root joins)
        (λ ds m. tree.reached ds (sub ds m)))
      full

map_full : {A B : Type 0} (f : A → B) (xs : List A) → is_nil xs ≡ false → is_nil (map f xs) ≡ false
map_full f [] e = e
map_full f (x ∷ xs) e = refl

-- The disjunction of the roles' filters.
abbrev pub roles_text : Builder → Text
roles_text b = parens (join (codes " OR ") (map (group_text b) b.row_filter_groups))

where_clauses_restricted :
    (b : Builder) (filters : List Filter) (tree clauses : List Text)
    → role_terms b tree b.row_filter_groups ≡ ok (map (group_text b) b.row_filter_groups)
    → is_nil b.row_filter_groups ≡ false
    → where_clauses b filters tree ≡ ok clauses
    → Elem (roles_text b) clauses
unfolding where_clauses
where_clauses_restricted b filters tree clauses h k e =
    let (user, p, e1) = >>=-eq-ok (traverse (render_filter b) filters) _ e in
    let (terms, q, e2) = >>=-eq-ok (role_terms b tree b.row_filter_groups) _ e1 in
    let same : terms ≡ map (group_text b) b.row_filter_groups = ok_injective terms _ (sym q ∙ h) in
    subst (Elem (roles_text b)) (ok_injective _ clauses e2) (
      Elem-append_right (roles_text b) (map parens user)
        (if is_nil terms then [] else parens (join (codes " OR ") terms) ∷ [])
        (rw (same, map_full (group_text b) b.row_filter_groups k) (inl refl)))

-- The scope of a single-pass statement or of a side of a ratio carries the disjunction over all
-- roles of the conjunction of a role's filters, if there are roles with filters, no role has an
-- empty group, and the required datasets include those of the filters.
pub scope_of_restricted :
    (b : Builder) (required : List Text) (filters : List Filter) (scope : Scope)
    → scope_of b required filters ≡ ok scope
    → ((ds : Text) → Elem ds (group_datasets b.row_filter_groups) → Elem ds required)
    → All IsFull b.row_filter_groups
    → is_nil b.row_filter_groups ≡ false
    → Elem (roles_text b) scope.clauses
unfolding scope_of
scope_of_restricted b required filters scope e sub full some_group =
    let (tree, p, e1) = >>=-eq-ok (join_tree b.cm required) _ e in
    let (from, q, e2) = >>=-eq-ok (from_clause b tree.0 tree.1) _ e1 in
    let (clauses, r, e3) = >>=-eq-ok (where_clauses b filters (in_tree tree.0 tree.1)) _ e2 in
    subst (λ (s : Scope). Elem (roles_text b) s.clauses) (ok_injective _ scope e3)
      (where_clauses_restricted b filters (in_tree tree.0 tree.1) clauses
        (role_terms_exact b required tree.0 tree.1 p sub full) some_group r)
