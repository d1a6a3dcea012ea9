-- ===== src/Planner/Request/OrderBy.antt =====
-- internal/planner/plan.go, `resolveOrderBy`: what the ordinals stand for.
use semantic_operator.Prelude.{
  Text, ℕ, zero, suc, ◌+◌, List, [], ◌∷◌, ◌++◌, get_elem?, codes, text_eq, text_eq_iff, contains,
  contains_iff, some, ok, ok_injective, >>=-eq-ok, fail_if-eq-ok, ◌≡◌, ◌⊎◌, inl, inr, refl, sym, ap,
  arith, Elem, Bool-cases,
}
use mathlib.Core.Path.{subst}
use mathlib.Core.Option.{some-injective}
use semantic_operator.Planner.Request.{
  Request, OrderByClause, OrderSpec, positions, only_position, direction_of, resolve_clauses,
  resolve_order_by,
}

-- The column with an ordinal, which counts from `i`.
abbrev pub ColumnAt : ℕ → List Text → ℕ → Text → Type 0
ColumnAt i columns n name = (k : ℕ) × (n ≡ i + k) × (get_elem? columns k ≡ some name)

positions_sound :
    (i : ℕ) (columns : List Text) (name : Text) (n : ℕ)
    → Elem n (positions i columns name)
    → ColumnAt i columns n name
unfolding positions
positions_sound i [] name n m = absurd m
positions_sound i (c ∷ columns) name n m = elim (Bool-cases (text_eq c name)) [
  | inl e ↦ elim (rw e at m) [
    | inl t ↦ (0, omega (arith, t), ap some ((text_eq_iff c name).0 e))
    | inr t ↦ next (positions_sound (suc i) columns name n t)
  ]
  | inr e ↦ next (positions_sound (suc i) columns name n (rw e at m))
]
  where
    next : ColumnAt (suc i) columns n name → ColumnAt i (c ∷ columns) n name
    next (k, e, g) = (suc k, omega (arith, e), g)

-- A column with the name is among the positions.
positions_complete :
    (i : ℕ) (columns : List Text) (name : Text) (k : ℕ)
    → get_elem? columns k ≡ some name
    → Elem (i + k) (positions i columns name)
unfolding positions
positions_complete i [] name k e = absurd (cc e)
positions_complete i (c ∷ columns) name zero e =
    rw ((text_eq_iff c name).1 (some-injective c name e), positions) (inl (omega arith))
positions_complete i (c ∷ columns) name (suc k) e =
    let later =
      subst (λ j. Elem j (positions (suc i) columns name)) (shift i k)
        (positions_complete (suc i) columns name k e) in
    elim (Bool-cases (text_eq c name)) [
      | inl b ↦ rw (b, positions) (inr later)
      | inr b ↦ rw (b, positions) later
    ]
  where
    shift : (i k : ℕ) → suc i + k ≡ i + suc k
    shift i k = omega arith

only_position_sound :
    (field : Text) (ns : List ℕ) (n : ℕ) → only_position field ns ≡ ok n → ns ≡ n ∷ []
unfolding only_position
only_position_sound field [] n e = absurd (cc e)
only_position_sound field (i ∷ []) n e = ap (λ k. k ∷ []) (ok_injective i n e)
only_position_sound field (i ∷ j ∷ more) n e = absurd (cc e)

-- The direction that a clause asks for, and the keyword of its term.
abbrev pub Directs : Text → Text → Type 0
Directs d out =
    ((d ≡ codes "asc") × (out ≡ codes "ASC")) ⊎ ((d ≡ codes "desc") × (out ≡ codes "DESC"))

direction_of_sound : (field d : Text) (out : Text) → direction_of field d ≡ ok out → Directs d out
unfolding direction_of
direction_of_sound field d out e = elim (Bool-cases (text_eq d (codes "asc"))) [
  | inl a ↦ inl ((text_eq_iff d (codes "asc")).0 a, sym (ok_injective _ out (rw a at e)))
  | inr a ↦ elim (Bool-cases (text_eq d (codes "desc"))) [
    | inl b ↦ inr ((text_eq_iff d (codes "desc")).0 b, sym (ok_injective _ out (rw (a, b) at e)))
    | inr b ↦ absurd (cc (rw (a, b) at e))
  ]
]

-- An `ORDER BY` term stands for a clause: its ordinal, which counts from 1, is that of a column with
-- the clause's field, no other column has that name, and its direction is the clause's.
pub record IsOrder (columns : List Text) (c : OrderByClause) (o : OrderSpec) : Type 0 where
  pub column : ColumnAt 1 columns o.ordinal c.field
  pub only : (j : ℕ) → get_elem? columns j ≡ some c.field → o.ordinal ≡ suc j
  pub direction : Directs c.direction o.direction

-- The terms stand for the clauses one by one, and no clause has a field that was seen.
abbrev pub IsOrders : List Text → List Text → List OrderByClause → List OrderSpec → Type 0
IsOrders columns seen [] [] = Unit {0}
IsOrders columns seen [] (o ∷ os) = ⊥
IsOrders columns seen (c ∷ cs) [] = ⊥
IsOrders columns seen (c ∷ cs) (o ∷ os) =
    IsOrder columns c o × (Elem c.field seen → ⊥) × IsOrders columns (c.field ∷ seen) cs os

resolve_clauses-IsOrders :
    (columns seen : List Text) (clauses : List OrderByClause) (order : List OrderSpec)
    → resolve_clauses columns seen clauses ≡ ok order
    → IsOrders columns seen clauses order
unfolding resolve_clauses
resolve_clauses-IsOrders columns seen [] order e =
    subst (IsOrders columns seen []) (ok_injective [] order e) tt
resolve_clauses-IsOrders columns seen (c ∷ clauses) order e =
    let (i, p, e1) = >>=-eq-ok (only_position c.field (positions 1 columns c.field)) _ e in
    let (n, e2) = fail_if-eq-ok (contains seen c.field) _ _ e1 in
    let (d, q, e3) = >>=-eq-ok (direction_of c.field c.direction) _ e2 in
    let (rest, r, e4) = >>=-eq-ok (resolve_clauses columns (c.field ∷ seen) clauses) _ e3 in
    let only = only_position_sound c.field (positions 1 columns c.field) i p in
    subst (IsOrders columns seen (c ∷ clauses)) (ok_injective _ order e4) (
      record {
        column = positions_sound 1 columns c.field i (rw only (inl refl));
        only =
            λ j g. alone i j (subst (Elem (1 + j)) only (positions_complete 1 columns c.field j g));
        direction = direction_of_sound c.field c.direction d q;
      },
      λ m. cc ((contains_iff seen c.field).1 m),
      resolve_clauses-IsOrders columns (c.field ∷ seen) clauses rest r,
    )
  where
    alone : (i j : ℕ) → Elem (1 + j) (i ∷ []) → i ≡ suc j
    alone i j (inl e) = omega (arith, e)
    alone i j (inr e) = absurd e

-- A resolved `orderBy` has one term for each clause, in order. The ordinal of a term, which counts
-- from 1, is the position of an output column named by the clause's field, and no other output column
-- has that name; its direction is `ASC` for a clause with `asc` and `DESC` for one with `desc`; and no
-- field occurs in two clauses.
pub resolve_order_by-IsOrders :
    (req : Request) (order : List OrderSpec)
    → resolve_order_by req ≡ ok order
    → IsOrders (req.dimensions ++ req.metrics) [] req.order_by order
unfolding resolve_order_by
resolve_order_by-IsOrders req order e =
    resolve_clauses-IsOrders (req.dimensions ++ req.metrics) [] req.order_by order e
