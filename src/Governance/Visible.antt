-- ===== src/Governance/Visible.antt =====
-- internal/governance/governance.go, `Visible`: the grants that it returns.
use semantic_operator.Prelude.{
  Text, List, [], ◌∷◌, ◌≡◌, ◌≢◌, ◌↔◌, ◌⊎◌, inl, inr, refl, arith, Elem, All, ◌||◌, ◌++◌, Option,
  some, is_nil, Bool-cases, Option-cases, traverse, ok, >>=-eq-ok,
}
use semantic_operator.Prelude.Lists.{All-Elem, All-of_Elem}
use semantic_operator.Prelude.Sorting.{
  sort_by, Elem-sort_by, sort_by-IsStrict, IsStrict, IsStrict-ext,
}
use semantic_operator.Api.{RolePolicy, GovernanceSpec, find_role}
use semantic_operator.Governance.{
  Identity, Glob, Grant, role_of, Visibility, restricted, compile_pattern, add_policy, add_role,
  add_roles, wanted, close_grants, visible,
}
use semantic_operator.Governance.Roles.{SameRoles, Elem-wanted_same}
use semantic_operator.Governance.Grants.{
  IsGrant, granted, granted-Elem, Holds, Holds-empty, Added-Holds, add_role-Added, add_roles-Holds,
}

module _ (compile : Text → Option Glob) (g : GovernanceSpec) where
  -- The grants of an identity, in the order of their roles.
  pub record Sees (id : Identity) (grants : List Grant) : Type 0 where
    pub members : (r : Grant) → Elem r grants ↔ (Elem r.role (wanted g id) × IsGrant compile g r)
    pub sorted : IsStrict role_of grants
    pub some_grant : grants ≢ []

  collected :
      (id : Identity) (grants : List Grant)
      → add_roles compile g [] (wanted g id) ≡ ok grants
      → Holds compile g (λ x. ⊥ ⊎ Elem x (wanted g id)) grants
  collected id grants e =
      add_roles-Holds compile g (λ _. ⊥) [] (wanted g id) grants (Holds-empty compile g) e

  close-Sees :
      (id : Identity) (grants : List Grant) (v : Visibility)
      → Holds compile g (λ x. ⊥ ⊎ Elem x (wanted g id)) grants
      → close_grants (wanted g id) grants ≡ ok v
      → (sorted : List Grant) × (v ≡ restricted sorted) × Sees id sorted
  unfolding close_grants
  close-Sees id [] v h e = cc
  close-Sees id (r ∷ rs) v h e = (
    sort_by role_of (r ∷ rs),
    cc,
    record {
      members = λ s. ground (arith, h.members s, Elem-sort_by role_of (r ∷ rs) s);
      sorted = sort_by-IsStrict role_of (r ∷ rs) h.distinct;
      some_grant = λ n. rw n at ((Elem-sort_by role_of (r ∷ rs) r).1 (inl refl));
    },
  )

  -- What `Visible` returns.
  pub visible-Sees :
      (id : Identity) (v : Visibility)
      → visible compile (some g) id ≡ ok v
      → (grants : List Grant) × (v ≡ restricted grants) × Sees id grants
  unfolding visible
  visible-Sees id v e =
      let (grants, a, b) = >>=-eq-ok (add_roles compile g [] (wanted g id)) _ e in
      close-Sees id grants v (collected id grants a) b

  -- Every pattern of the role's policy compiles.
  abbrev pub Compiles : Text → Type 0
  Compiles name =
      name ≢ []
      → (policy : RolePolicy) → find_role name g.roles ≡ some policy
      → (globs : List Glob) × (traverse (compile_pattern compile name) policy.allow_metrics
          ≡ ok globs)

  add_policy-compiles :
      (grants : List Grant) (name : Text) (policy : RolePolicy) (more : List Grant)
      → add_policy compile grants name policy ≡ ok more
      → (globs : List Glob) × (traverse (compile_pattern compile name) policy.allow_metrics
          ≡ ok globs)
  unfolding add_policy traverse
  add_policy-compiles grants name policy more e = elim (Bool-cases (is_nil policy.allow_metrics)) [
    | inl nothing ↦ ([], ground arith)
    | inr grants_some ↦
        let t = rw grants_some at e in
        let (globs, c, _) =
          >>=-eq-ok (traverse (compile_pattern compile name) policy.allow_metrics) _ t in
        (globs, c)
  ]

  add_policy_runs :
      (grants : List Grant) (name : Text) (policy : RolePolicy) (globs : List Glob)
      → traverse (compile_pattern compile name) policy.allow_metrics ≡ ok globs
      → (more : List Grant) × (add_policy compile grants name policy ≡ ok more)
  unfolding add_policy
  add_policy_runs grants name policy globs c = elim (Bool-cases (is_nil policy.allow_metrics)) [
    | inl nothing ↦ (grants, rw nothing)
    | inr grants_some ↦
        (grants ++ record { role = name; policy = policy; globs = globs } ∷ [], rw (grants_some, c))
  ]

  add_role-Compiles :
      (seen : Text → Type 0) (grants : List Grant) (name : Text) (more : List Grant)
      → Holds compile g seen grants
      → add_role compile g grants name ≡ ok more
      → Compiles name
  unfolding add_role
  add_role-Compiles seen grants name more h e n policy f =
      elim (Bool-cases (granted compile g grants name)) [
        | inl old ↦
            let (s, m, o) = granted-Elem compile g grants name old in
            let grant = ((h.members s).0 m).1 in (s.globs, cc (grant.compiled, grant.found))
        | inr new ↦ add_policy-compiles grants name policy more (ground arith)
      ]

  add_role_runs :
      (grants : List Grant) (name : Text)
      → Compiles name
      → (more : List Grant) × (add_role compile g grants name ≡ ok more)
  unfolding add_role
  add_role_runs grants name h = elim (Bool-cases (is_nil name || granted compile g grants name)) [
    | inl skip ↦ (grants, rw skip)
    | inr new ↦ elim (Option-cases (find_role name g.roles)) [
      | inl missing ↦ (grants, ground arith)
      | inr (policy, f) ↦
          let (globs, c) = h (ground arith) policy f in
          let (more, e) = add_policy_runs grants name policy globs c in (more, ground arith)
    ]
  ]

  add_roles-Compiles :
      (seen : Text → Type 0) (grants : List Grant) (names : List Text) (more : List Grant)
      → Holds compile g seen grants
      → add_roles compile g grants names ≡ ok more
      → All Compiles names
  unfolding add_roles
  add_roles-Compiles seen grants [] more h e = tt
  add_roles-Compiles seen grants (name ∷ names) more h e =
      let (next, a, b) = >>=-eq-ok (add_role compile g grants name) _ e in
      let step =
        Added-Holds compile g seen grants name next h
          (add_role-Added compile g grants name next a) in
      (
        add_role-Compiles seen grants name next h a,
        add_roles-Compiles (λ x. (x ≡ name) ⊎ seen x) next names more step b,
      )

  -- Where `Visible` succeeds, a role of the caller with a policy that grants something has a grant.
  pub visible-IsGrant :
      (id : Identity) (v : Visibility) (name : Text) (policy : RolePolicy)
      → visible compile (some g) id ≡ ok v
      → Elem name (wanted g id)
      → name ≢ []
      → find_role name g.roles ≡ some policy
      → policy.allow_metrics ≢ []
      → (globs : List Glob) × IsGrant compile g
          (record { role = name; policy = policy; globs = globs })
  unfolding visible
  visible-IsGrant id v name policy e held n found granting =
      let (xs, c, _) = >>=-eq-ok (add_roles compile g [] (wanted g id)) _ e in
      let compiles = add_roles-Compiles (λ _. ⊥) [] (wanted g id) xs (Holds-empty compile g) c in
      let (globs, t) = All-Elem Compiles (wanted g id) compiles name held n policy found in
      (globs, record { named = n; found = found; granting = granting; compiled = t })

  add_roles_run :
      (grants : List Grant) (names : List Text)
      → All Compiles names
      → (more : List Grant) × (add_roles compile g grants names ≡ ok more)
  unfolding add_roles
  add_roles_run grants [] h = (grants, refl)
  add_roles_run grants (name ∷ names) h =
      let (next, a) = add_role_runs grants name h.0 in
      let (more, b) = add_roles_run next names h.1 in (more, rw a b)

  -- Two identities with the same set of roles have the same grants.
  Sees-same :
      (a b : Identity) (xs ys : List Grant) → SameRoles a b → Sees a xs → Sees b ys → xs ≡ ys
  Sees-same a b xs ys same p q =
      IsStrict-ext role_of xs ys p.sorted q.sorted
        (λ r. ground (arith, p.members r, q.members r, Elem-wanted_same g a b r.role same))

  close_grants_run :
      (names : List Text) (grants : List Grant)
      → grants ≢ []
      → (v : Visibility) × (close_grants names grants ≡ ok v)
  unfolding close_grants
  close_grants_run names [] n = absurd (n refl)
  close_grants_run names (r ∷ rs) n = (restricted (sort_by role_of (r ∷ rs)), refl)

  -- The order of claims and the repetition of a role change nothing: with the same set of policy
  -- roles `Visible` succeeds with the same, equally ordered, grants.
  pub visible_same :
      (a b : Identity) (v : Visibility)
      → SameRoles a b
      → visible compile (some g) a ≡ ok v
      → visible compile (some g) b ≡ ok v
  unfolding visible
  visible_same a b v same e =
      let (xs, c, d) = >>=-eq-ok (add_roles compile g [] (wanted g a)) _ e in
      let compiles = add_roles-Compiles (λ _. ⊥) [] (wanted g a) xs (Holds-empty compile g) c in
      let (ys, k) = add_roles_run [] (wanted g b) (
        All-of_Elem Compiles (wanted g b) (λ x m.
          All-Elem Compiles (wanted g a) compiles x ((Elem-wanted_same g a b x same).1 m))) in
      let (sorted, p, seen) = close-Sees a xs v (collected a xs c) d in
      let (w, q) = close_grants_run (wanted g b) ys (not_empty sorted ys seen (collected b ys k)) in
      let (sorted', p', seen') = close-Sees b ys w (collected b ys k) q in
      rw (k, q, p, p', Sees-same a b sorted sorted' same seen seen')
    where
      not_empty :
          (sorted ys : List Grant)
          → Sees a sorted
          → Holds compile g (λ x. ⊥ ⊎ Elem x (wanted g b)) ys
          → ys ≢ []
      not_empty [] ys seen h n = seen.some_grant refl
      not_empty (r ∷ rs) ys seen h n =
          let (m, grant) = (seen.members r).0 (inl refl) in
          rw n at ((h.members r).1 (inr ((Elem-wanted_same g a b r.role same).0 m), grant))
