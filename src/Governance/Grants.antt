-- ===== src/Governance/Grants.antt =====
-- What `Visible` collects: the policies of the caller's roles that grant something, each once.
use semantic_operator.Prelude.{
  Text, Bool, true, false, List, [], ◌∷◌, ◌++◌, ◌≡◌, ◌≢◌, ◌↔◌, ◌⊎◌, inl, inr, refl, sym, ◌∙◌, arith,
  Elem, Option, some, is_nil, any, Bool-cases, Option-cases, List-cases, traverse, ok, text_eq,
  text_eq_iff, >>=-eq-ok,
}
use semantic_operator.Prelude.Lists.{Elem-snoc, any-Elem, any-of_Elem}
use semantic_operator.Prelude.Sorting.{HasDistinctKeys, HasDistinctKeys-snoc}
use semantic_operator.Api.{RolePolicy, GovernanceSpec, find_role}
use semantic_operator.Governance.{
  Glob, Grant, role_of, compile_pattern, add_policy, add_role, add_roles,
}

module _ (compile : Text → Option Glob) (g : GovernanceSpec) where
  -- The policy that the model has for this role, which grants something and whose patterns compile.
  pub record IsGrant (r : Grant) : Type 0 where
    pub named : r.role ≢ []
    pub found : find_role r.role g.roles ≡ some r.policy
    pub granting : r.policy.allow_metrics ≢ []
    pub compiled : traverse (compile_pattern compile r.role) r.policy.allow_metrics ≡ ok r.globs

  -- A role has one grant.
  pub IsGrant-unique : (r s : Grant) → IsGrant r → IsGrant s → r.role ≡ s.role → r ≡ s
  IsGrant-unique r s p q e = cc (p.found, q.found, p.compiled, q.compiled)

  abbrev pub granted : List Grant → Text → Bool
  granted grants name = any (λ (r : Grant). text_eq r.role name) grants

  -- The four ways through the loop body.
  pub data Added (grants : List Grant) (name : Text) (more : List Grant) : Type 0 where
    again : granted grants name ≡ true → more ≡ grants → Added grants name more
    skipped : ((r : Grant) → IsGrant r → r.role ≢ name) → more ≡ grants → Added grants name more
    added :
        (r : Grant)
        → IsGrant r
        → r.role ≡ name
        → granted grants name ≡ false
        → more ≡ grants ++ r ∷ []
        → Added grants name more

  add_policy-Added :
      (grants : List Grant) (name : Text) (policy : RolePolicy) (more : List Grant)
      → name ≢ []
      → find_role name g.roles ≡ some policy
      → granted grants name ≡ false
      → add_policy compile grants name policy ≡ ok more
      → Added grants name more
  unfolding add_policy
  add_policy-Added grants name policy more n f new h =
      elim (Bool-cases (is_nil policy.allow_metrics)) [
        | inl e ↦ skipped (λ r p q. p.granting (grants_nothing r p q e)) (ground (arith, rw e at h))
        | inr e ↦
            let t = rw e at h in
            let (globs, c, m) =
              >>=-eq-ok (traverse (compile_pattern compile name) policy.allow_metrics) _ t in
            added (record { role = name; policy = policy; globs = globs })
              (record { named = n; found = f; granting = ground arith; compiled = c }) refl new
              (cc m)
      ]
    where
      grants_nothing :
          (r : Grant)
          → IsGrant r
          → r.role ≡ name
          → is_nil policy.allow_metrics ≡ true
          → r.policy.allow_metrics ≡ []
      grants_nothing r p q e = ground (arith, p.found, f)

  pub add_role-Added :
      (grants : List Grant) (name : Text) (more : List Grant)
      → add_role compile g grants name ≡ ok more
      → Added grants name more
  unfolding add_role
  add_role-Added grants name more h = elim (List-cases name) [
    | inl e ↦ skipped (λ r p q. p.named (q ∙ e)) (ground arith)
    | inr (c, cs, e) ↦ elim (Bool-cases (granted grants name)) [
      | inl old ↦ again old (ground arith)
      | inr new ↦ elim (Option-cases (find_role name g.roles)) [
        | inl missing ↦ skipped (λ r p q. cc (p.found)) (ground arith)
        | inr (policy, f) ↦ add_policy-Added grants name policy more (λ n. cc) f new (ground arith)
      ]
    ]
  ]

  -- The grants are those of the names seen, one for each role.
  pub record Holds (seen : Text → Type 0) (grants : List Grant) : Type 0 where
    pub members : (r : Grant) → Elem r grants ↔ (seen r.role × IsGrant r)
    pub distinct : HasDistinctKeys role_of grants

  pub granted-Elem :
      (grants : List Grant) (name : Text)
      → granted grants name ≡ true
      → (s : Grant) × Elem s grants × (s.role ≡ name)
  granted-Elem grants name h =
      let (s, m, e) = any-Elem (λ (r : Grant). text_eq r.role name) grants h in
      (s, m, (text_eq_iff s.role name).0 e)

  not-granted-ne :
      (grants : List Grant) (name : Text)
      → granted grants name ≡ false
      → (s : Grant) → Elem s grants
      → s.role ≢ name
  not-granted-ne grants name h s m e =
      cc (
        any-of_Elem (λ (r : Grant). text_eq r.role name) grants s m ((text_eq_iff s.role name).1 e))

  pub Added-Holds :
      (seen : Text → Type 0) (grants : List Grant) (name : Text) (more : List Grant)
      → Holds seen grants
      → Added grants name more
      → Holds (λ x. (x ≡ name) ⊎ seen x) more
  Added-Holds seen grants name more h (again old e) = record {
    members = λ r. rw e (
      λ m. let (p, q) = (h.members r).0 m in (inr p, q),
      λ (p, q). elim p [
        | inl n ↦
            let (s, m, o) = granted-Elem grants name old in
            rw (IsGrant-unique r s q ((h.members s).0 m).1 (n ∙ sym o)) m
        | inr l ↦ (h.members r).1 (l, q)
      ],
    );
    distinct = rw e h.distinct;
  }
  Added-Holds seen grants name more h (skipped no_grant e) = record {
    members = λ r. rw e (
      λ m. let (p, q) = (h.members r).0 m in (inr p, q),
      λ (p, q). elim p [ inl n ↦ absurd (no_grant r q n) | inr l ↦ (h.members r).1 (l, q) ],
    );
    distinct = rw e h.distinct;
  }
  Added-Holds seen grants name more h (added s grant n new e) = record {
    members = λ r. rw e (
      λ m. elim ((Elem-snoc r s grants).0 m) [
        | inl l ↦ let (p, q) = (h.members r).0 l in (inr p, q)
        | inr o ↦ rw o (inl n, grant)
      ],
      λ (p, q). elim p [
        | inl o ↦ (Elem-snoc r s grants).1 (inr (IsGrant-unique r s q grant (o ∙ sym n)))
        | inr l ↦ (Elem-snoc r s grants).1 (inl ((h.members r).1 (l, q)))
      ],
    );
    distinct = rw e (
        HasDistinctKeys-snoc role_of grants s h.distinct
          (λ a m. λ o. not-granted-ne grants name new a m (o ∙ n)));
  }

  pub add_roles-Holds :
      (seen : Text → Type 0) (grants : List Grant) (names : List Text) (more : List Grant)
      → Holds seen grants
      → add_roles compile g grants names ≡ ok more
      → Holds (λ x. seen x ⊎ Elem x names) more
  unfolding add_roles
  add_roles-Holds seen grants [] more h e = record {
    members = λ r. ground (arith, h.members r);
    distinct = ground (arith, h.distinct);
  }
  add_roles-Holds seen grants (name ∷ names) more h e =
      let (next, a, b) = >>=-eq-ok (add_role compile g grants name) _ e in
      let step = Added-Holds seen grants name next h (add_role-Added grants name next a) in
      let rest = add_roles-Holds (λ x. (x ≡ name) ⊎ seen x) next names more step b in
      record { members = λ r. ground (arith, rest.members r); distinct = rest.distinct }

  pub Holds-empty : Holds (λ _. ⊥) []
  Holds-empty = record { members = λ r. (λ m. absurd m, λ m. absurd m.0); distinct = tt }
