-- ===== src/Governance/Scope.antt =====
-- What follows a decision of `Authorize`: its row filters, its refusals, its agreement with
-- discovery, and its independence of the order of claims.
use semantic_operator.Prelude.{
  Text, Bool, true, false, ◌&&◌, List, [], ◌∷◌, ◌++◌, append-nil, append_assoc, ◌≡◌, ◌≢◌, ◌⊎◌, inl,
  inr, refl, sym, ◌∙◌, arith, Elem, All, Option, some, all, map, Bool-cases, List-cases, ok,
  >>=-eq-ok,
}
use semantic_operator.Prelude.Lists.{all-Elem, any-of_Elem, Elem-keep, All-of_Elem}
use semantic_operator.Api.{RolePolicy, GovernanceSpec, RowFilter, find_role}
use semantic_operator.Errors.{Blocker, metric, field, request}
use semantic_operator.Governance.{
  Identity, Glob, Grant, role_of, Visibility, restricted, Decision, visible, permits_metric,
  permits_field, permits_all, authorizing, collect_groups, authorize, blocker, first_blocked_field,
  shows_metric, shows_field,
}
use semantic_operator.Governance.Roles.{SameRoles}
use semantic_operator.Governance.Visible.{visible_same}
use semantic_operator.Governance.Authorize.{authorize-Granted, Elem-authorizing}

-- One group for each role, in order: the row filters of its policy, which are not empty.
abbrev pub FiltersOf : GovernanceSpec → List Text → List (List RowFilter) → Type 0
FiltersOf g [] [] = Unit
FiltersOf g [] (f ∷ fs) = ⊥
FiltersOf g (n ∷ ns) [] = ⊥
FiltersOf g (n ∷ ns) (f ∷ fs) =
    ((policy : RolePolicy) × (find_role n g.roles ≡ some policy)
      × (policy.row_filters ≡ f)
      × (f ≢ []))
    × FiltersOf g ns fs

-- A role of the list sees every row.
abbrev pub HasUnfiltered : GovernanceSpec → List Text → Type 0
HasUnfiltered g names =
    (name : Text) × (policy : RolePolicy) × Elem name names
    × (find_role name g.roles ≡ some policy)
    × (policy.row_filters ≡ [])

abbrev filters_of : Grant → List RowFilter
filters_of r = r.policy.row_filters

collect_groups_lem :
    (g : GovernanceSpec) (groups : List (List RowFilter)) (rs : List Grant)
    → All (λ (r : Grant). find_role r.role g.roles ≡ some r.policy) rs
    → ((collect_groups groups rs ≡ []) × HasUnfiltered g (map role_of rs))
      ⊎ ((collect_groups groups rs ≡ groups ++ map filters_of rs)
          × FiltersOf g (map role_of rs) (map filters_of rs))
unfolding collect_groups
collect_groups_lem g groups [] h = inr (sym (append-nil groups), tt)
collect_groups_lem g groups (r ∷ rs) h = elim (List-cases r.policy.row_filters) [
  | inl open_role ↦ inl (ground arith, (r.role, r.policy, inl refl, h.0, open_role))
  | inr (f, fs, e) ↦ elim (collect_groups_lem g (groups ++ r.policy.row_filters ∷ []) rs h.1) [
    | inl (none_left, (name, policy, m, found, open_role)) ↦
        inl (ground arith, (name, policy, inr m, found, open_role))
    | inr (rest, filters) ↦ inr (
      rw e (rw e at (rest ∙ append_assoc groups (r.policy.row_filters ∷ []) (map filters_of rs))),
      ((r.policy, h.0, refl, λ n. cc), filters),
    )
  ]
]

module _ (compile : Text → Option Glob) (g : GovernanceSpec) where
  -- A decision carries no row restriction only if one of its roles, which authorizes the whole request
  -- on its own, has none; otherwise it has one group for each role, in order, with all filters of the role.
  pub authorize_filters :
      (id : Identity) (metrics refs : List Text) (d : Decision)
      → authorize compile (some g) id metrics refs ≡ ok d
      → ((d.row_filter_groups ≡ []) × HasUnfiltered g d.roles)
        ⊎ FiltersOf g d.roles d.row_filter_groups
  authorize_filters id metrics refs d h =
      let (grants, steps) = authorize-Granted compile g id metrics refs d h in
      let granted = authorizing grants metrics refs in
      let found =
        All-of_Elem (λ (r : Grant). find_role r.role g.roles ≡ some r.policy) granted
          (λ r m. (Elem-authorizing compile g id metrics refs grants r steps.sees m).0.found) in
      rw (steps.roles, steps.groups)
        (elim (collect_groups_lem g [] granted found) [
          | inl open_role ↦ inl open_role
          | inr (e, filters) ↦ inr (rw e filters)
        ])

  -- What discovery shows is no less than what a query may use: whoever is authorized for a request is
  -- shown each of its metrics and each of its fields.
  pub authorize_shown :
      (id : Identity) (metrics refs : List Text) (d : Decision)
      → authorize compile (some g) id metrics refs ≡ ok d
      → (v : Visibility) × (visible compile (some g) id ≡ ok v)
        × ((m : Text) → Elem m metrics → shows_metric v m ≡ true)
        × ((ref : Text) → Elem ref refs → shows_field v ref ≡ true)
  unfolding shows_metric shows_field authorizing permits_all
  authorize_shown id metrics refs d h =
      let (grants, steps) = authorize-Granted compile g id metrics refs d h in
      let (r, member, passes) = first_granted grants steps.some_grant in
      (
        restricted grants,
        steps.is_visible,
        λ m l.
            any-of_Elem (λ (s : Grant). permits_metric s m) grants r member
              (all-Elem (permits_metric r) metrics (and_left _ _ passes) m l),
        λ ref l.
            any-of_Elem (λ (s : Grant). permits_field s ref) grants r member
              (all-Elem (permits_field r) refs (and_right _ _ passes) ref l),
      )
    where
      and_left : (a b : Bool) → (a && b) ≡ true → a ≡ true
      and_left a b h = ground arith

      and_right : (a b : Bool) → (a && b) ≡ true → b ≡ true
      and_right a b h = ground arith

      first_granted :
          (grants : List Grant)
          → authorizing grants metrics refs ≢ []
          → (r : Grant) × Elem r grants × (permits_all metrics refs r ≡ true)
      first_granted grants n = elim (List-cases (authorizing grants metrics refs)) [
        | inl e ↦ absurd (n e)
        | inr (r, rs, e) ↦
            let m : Elem r (authorizing grants metrics refs) = rw e (inl refl) in
            let (member, passes) = (Elem-keep (permits_all metrics refs) grants r).0 m in
            (r, member, passes)
      ]

  -- The order in which claims name the roles, and naming a role twice or both as group and as role,
  -- change nothing: an identity with the same set of policy roles gets the same decision.
  pub authorize_same :
      (a b : Identity) (metrics refs : List Text) (d : Decision)
      → SameRoles a b
      → authorize compile (some g) a metrics refs ≡ ok d
      → authorize compile (some g) b metrics refs ≡ ok d
  unfolding authorize
  authorize_same a b metrics refs d same h =
      let (v, e, k) = >>=-eq-ok (visible compile (some g) a) _ h in
      rw (visible_same compile g a b v same e) k

-- The blocker of a refusal is real: a requested metric that the grant does not permit, or a referenced
-- field that it denies.
abbrev pub IsReal : Grant → List Text → List Text → Blocker → Type 0
IsReal r metrics refs (metric m) = Elem m metrics × (permits_metric r m ≡ false)
IsReal r metrics refs (field f) = Elem f refs × (permits_field r f ≡ false)
IsReal r metrics refs request = ⊥

first_blocked_field-IsReal :
    (r : Grant) (metrics refs : List Text)
    → all (permits_field r) refs ≡ false
    → IsReal r metrics refs (first_blocked_field r refs)
unfolding first_blocked_field all
first_blocked_field-IsReal r metrics [] h = cc
first_blocked_field-IsReal r metrics (f ∷ fs) h = elim (Bool-cases (permits_field r f)) [
  | inl fine ↦
      rw fine
        (widen (first_blocked_field r fs) (first_blocked_field-IsReal r metrics fs (rw fine at h)))
  | inr bad ↦ rw bad (inl refl, bad)
]
  where
    widen : (b : Blocker) → IsReal r metrics fs b → IsReal r metrics (f ∷ fs) b
    widen (metric m) p = p
    widen (field k) p = (inr p.0, p.1)
    widen request p = p

-- A grant that does not permit a request is explained by a metric or a field of the request that it
-- does not permit, never by the fallback.
pub blocker-IsReal :
    (r : Grant) (metrics refs : List Text)
    → permits_all metrics refs r ≡ false
    → IsReal r metrics refs (blocker r metrics refs)
unfolding blocker permits_all all
blocker-IsReal r [] refs h = first_blocked_field-IsReal r [] refs h
blocker-IsReal r (m ∷ ms) refs h = elim (Bool-cases (permits_metric r m)) [
  | inl fine ↦ rw fine (widen (blocker r ms refs) (blocker-IsReal r ms refs (rw fine at h)))
  | inr bad ↦ rw bad (inl refl, bad)
]
  where
    widen : (b : Blocker) → IsReal r ms refs b → IsReal r (m ∷ ms) refs b
    widen (metric k) p = (inr p.0, p.1)
    widen (field k) p = p
    widen request p = p
