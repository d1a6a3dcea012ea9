-- ===== src/Governance/Authorize.antt =====
-- internal/governance/governance.go, `Authorize`: decisions against the policies, row filters and
-- refusals.
use semantic_operator.Prelude.{
  Text, Bool, true, ◌&&◌, List, [], ◌∷◌, ◌≡◌, ◌≢◌, ◌↔◌, inl, inr, refl, sym, ◌∙◌, arith, Elem, All,
  Option, some, any, all, map, contains_iff, Bool-cases, traverse, ok, >>=-eq-ok, codes,
}
use semantic_operator.Prelude.Lists.{All-iff, all_iff, Elem-keep, Elem-map, Elem-map_inv}
use semantic_operator.Prelude.Strings.{join}
use semantic_operator.Api.{RolePolicy, GovernanceSpec, find_role}
use semantic_operator.Governance.{
  Identity, Glob, Grant, role_of, Visibility, restricted, Decision, compile_pattern, wanted,
  visible, permits_metric, permits_field, permits_all, authorizing, collect_groups, decide,
  authorize_visible, authorize,
}
use semantic_operator.Governance.Grants.{IsGrant}
use semantic_operator.Governance.Visible.{Sees, visible-IsGrant, visible-Sees}

module _ (compile : Text → Option Glob) where
  -- Some pattern of the list matches the metric.
  abbrev pub Allows : List Text → Text → Type 0
  Allows patterns m =
      (pattern_text : Text) × (gl : Glob) × Elem pattern_text patterns
      × (compile pattern_text ≡ some gl)
      × (gl m ≡ true)

  -- What authorizes a request: one role of the caller whose policy allows every metric and denies no field.
  pub record Authorizes (g : GovernanceSpec) (id : Identity) (metrics refs : List Text)
      (name : Text) (policy : RolePolicy) : Type 0 where
    pub held : Elem name (wanted g id)
    pub named : name ≢ []
    pub found : find_role name g.roles ≡ some policy
    pub granting : policy.allow_metrics ≢ []
    pub metrics_allowed : All (Allows policy.allow_metrics) metrics
    pub fields_allowed : All (λ ref. ¬ Elem ref policy.deny_fields) refs

  compile_pattern-eq-ok :
      (role p : Text) (gl : Glob) → compile_pattern compile role p ≡ ok gl → compile p ≡ some gl
  unfolding compile_pattern
  compile_pattern-eq-ok role p gl e = ground arith

  any_globs_iff :
      (role : Text) (patterns : List Text) (globs : List Glob) (m : Text)
      → traverse (compile_pattern compile role) patterns ≡ ok globs
      → (any (λ gl. gl m) globs ≡ true) ↔ Allows patterns m
  unfolding traverse any
  any_globs_iff role [] globs m e = (λ h. ground arith, λ (p, gl, member, c, h). absurd member)
  any_globs_iff role (p ∷ ps) globs m e =
      let (gl, c, rest) = >>=-eq-ok (compile_pattern compile role p) _ e in
      let (gls, t, last) = >>=-eq-ok (traverse (compile_pattern compile role) ps) _ rest in
      any_cons gl gls (compile_pattern-eq-ok role p gl c) (any_globs_iff role ps gls m t) (cc last)
    where
      any_cons :
          (gl : Glob) (gls : List Glob)
          → compile p ≡ some gl
          → (any (λ (k : Glob). k m) gls ≡ true) ↔ Allows ps m
          → globs ≡ gl ∷ gls
          → (any (λ (k : Glob). k m) globs ≡ true) ↔ Allows (p ∷ ps) m
      any_cons gl gls c ih e = rw e (
        λ h. elim (Bool-cases (gl m)) [
          | inl now ↦ (p, gl, inl refl, c, now)
          | inr later ↦
              let (q, k, member, d, hit) = ih.0 (rw later at h) in (q, k, inr member, d, hit)
        ],
        λ (q, k, member, d, hit). elim member [
          | inl same ↦ ground (arith, c, d, same, hit)
          | inr more ↦ ground (arith, ih.1 (q, k, more, d, hit))
        ],
      )

  permits_field_iff :
      (r : Grant) (ref : Text) → (permits_field r ref ≡ true) ↔ (¬ Elem ref r.policy.deny_fields)
  unfolding permits_field
  permits_field_iff r ref = ground (arith, contains_iff r.policy.deny_fields ref)

  -- A grant passes the loops exactly if its policy allows every metric and denies no field.
  permits_all_iff :
      (g : GovernanceSpec) (r : Grant) (metrics refs : List Text)
      → IsGrant compile g r
      → (permits_all metrics refs r ≡ true) ↔ (
          All (Allows r.policy.allow_metrics) metrics
          × All (λ ref. ¬ Elem ref r.policy.deny_fields) refs)
  unfolding permits_all permits_metric
  permits_all_iff g r metrics refs grant =
      let ms =
        All-iff (λ m. permits_metric r m ≡ true) (Allows r.policy.allow_metrics) metrics
          (λ m. any_globs_iff r.role r.policy.allow_metrics r.globs m grant.compiled) in
      let fs =
        All-iff (λ ref. permits_field r ref ≡ true) (λ ref. ¬ Elem ref r.policy.deny_fields) refs
          (permits_field_iff r) in
      let all_ms = all_iff (permits_metric r) metrics in
      let all_fs = all_iff (permits_field r) refs in
      (
        λ h.
            let (a, b) = and_true (all (permits_metric r) metrics) (all (permits_field r) refs) h in
            (ms.0 (all_ms.0 a), fs.0 (all_fs.0 b)),
        λ (p, q). rw (all_ms.1 (ms.1 p), all_fs.1 (fs.1 q)) refl,
      )
    where
      and_true : (a b : Bool) → (a && b) ≡ true → (a ≡ true) × (b ≡ true)
      and_true a b h = ground arith

  -- The steps of a successful authorization.
  pub record Granted (g : GovernanceSpec) (id : Identity) (metrics refs : List Text) (d : Decision)
      (grants : List Grant) : Type 0 where
    pub sees : Sees compile g id grants
    pub is_visible : visible compile (some g) id ≡ ok (restricted grants)
    pub some_grant : authorizing grants metrics refs ≢ []
    pub roles : d.roles ≡ map role_of (authorizing grants metrics refs)
    pub groups : d.row_filter_groups ≡ collect_groups [] (authorizing grants metrics refs)

  decide-Granted :
      (g : GovernanceSpec) (id : Identity) (metrics refs : List Text) (d : Decision)
      (grants granted : List Grant)
      → Sees compile g id grants
      → visible compile (some g) id ≡ ok (restricted grants)
      → authorizing grants metrics refs ≡ granted
      → decide grants granted metrics refs ≡ ok d
      → Granted g id metrics refs d grants
  unfolding decide
  decide-Granted g id metrics refs d grants [] sees v e h = cc
  decide-Granted g id metrics refs d grants (r ∷ rs) sees v e h = record {
    sees = sees;
    is_visible = v;
    some_grant = λ n. cc;
    roles = rw e (ground arith);
    groups = rw e (ground arith);
  }

  pub authorize-Granted :
      (g : GovernanceSpec) (id : Identity) (metrics refs : List Text) (d : Decision)
      → authorize compile (some g) id metrics refs ≡ ok d
      → (grants : List Grant) × Granted g id metrics refs d grants
  unfolding authorize authorize_visible
  authorize-Granted g id metrics refs d h =
      let (v, a, b) = >>=-eq-ok (visible compile (some g) id) _ h in
      let (grants, e, sees) = visible-Sees compile g id v a in
      (
        grants,
        decide-Granted g id metrics refs d grants (authorizing grants metrics refs) sees (rw e at a)
            refl (rw e at b),
      )

  authorize-visible :
      (g : GovernanceSpec) (id : Identity) (metrics refs : List Text) (d : Decision)
      → authorize compile (some g) id metrics refs ≡ ok d
      → (v : Visibility) × (visible compile (some g) id ≡ ok v)
  unfolding authorize
  authorize-visible g id metrics refs d h =
      let (v, a, _) = >>=-eq-ok (visible compile (some g) id) _ h in (v, a)

  pub Elem-authorizing :
      (g : GovernanceSpec) (id : Identity) (metrics refs : List Text) (grants : List Grant)
      (r : Grant)
      → Sees compile g id grants
      → Elem r (authorizing grants metrics refs)
      → IsGrant compile g r × Authorizes g id metrics refs r.role r.policy
  unfolding authorizing
  Elem-authorizing g id metrics refs grants r sees m =
      let (member, passes) = (Elem-keep (permits_all metrics refs) grants r).0 m in
      let (held, grant) = (sees.members r).0 member in
      let (ms, fs) = (permits_all_iff g r metrics refs grant).0 passes in
      (
        grant,
        record {
          held = held;
          named = grant.named;
          found = grant.found;
          granting = grant.granting;
          metrics_allowed = ms;
          fields_allowed = fs;
        },
      )

  grant-Authorizes :
      (g : GovernanceSpec) (id : Identity) (metrics refs : List Text) (grants : List Grant)
      (v : Visibility) (name : Text) (policy : RolePolicy)
      → Sees compile g id grants
      → visible compile (some g) id ≡ ok v
      → Authorizes g id metrics refs name policy
      → (r : Grant) × Elem r (authorizing grants metrics refs) × (r.role ≡ name)
  unfolding authorizing
  grant-Authorizes g id metrics refs grants v name policy sees e h =
      let (globs, grant) =
        visible-IsGrant compile g id v name policy e h.held h.named h.found h.granting in
      let r : Grant = record { role = name; policy = policy; globs = globs } in
      (
        r,
        (Elem-keep (permits_all metrics refs) grants r).1 (
          (sees.members r).1 (h.held, grant),
          (permits_all_iff g r metrics refs grant).1 (h.metrics_allowed, h.fields_allowed),
        ),
        refl,
      )

  -- Where `Authorize` succeeds, the roles of the decision are exactly the roles of the caller whose
  -- own policy allows every requested metric and denies no referenced field, and there is one.
  pub authorize_exact :
      (g : GovernanceSpec) (id : Identity) (metrics refs : List Text) (d : Decision)
      → authorize compile (some g) id metrics refs ≡ ok d
      → (d.roles ≢ [])
        × ((name : Text)
            → Elem name d.roles
              ↔ ((policy : RolePolicy) × Authorizes g id metrics refs name policy))
  authorize_exact g id metrics refs d h =
      let (grants, steps) = authorize-Granted g id metrics refs d h in
      let (v, e) = authorize-visible g id metrics refs d h in
      (
        λ n. no_roles (authorizing grants metrics refs) steps.some_grant (sym steps.roles ∙ n),
        λ name. (
          λ m.
              let (r, member, same) =
                Elem-map_inv role_of name (authorizing grants metrics refs) (rw steps.roles at m) in
              (r.policy, rw same (Elem-authorizing g id metrics refs grants r steps.sees member).1),
          λ (policy, a).
              let (r, member, same) =
                grant-Authorizes g id metrics refs grants v name policy steps.sees e a in
              rw (steps.roles, ← same)
                (Elem-map role_of r (authorizing grants metrics refs) member),
        ),
      )
    where
      no_roles : (granted : List Grant) → granted ≢ [] → map role_of granted ≡ [] → ⊥
      no_roles [] n e = n refl
      no_roles (r ∷ rs) n e = cc

  -- If `Visible` succeeds for the caller, for which the metric patterns of all the caller's roles must
  -- compile, and one of these roles authorizes the whole request on its own, `Authorize` succeeds, and
  -- that role is among those of the decision.
  pub authorize_complete :
      (g : GovernanceSpec) (id : Identity) (metrics refs : List Text) (name : Text)
      (policy : RolePolicy) (v : Visibility)
      → visible compile (some g) id ≡ ok v
      → Authorizes g id metrics refs name policy
      → (d : Decision) × (authorize compile (some g) id metrics refs ≡ ok d) × Elem name d.roles
  unfolding authorize authorize_visible decide
  authorize_complete g id metrics refs name policy v e a =
      let (grants, is_restricted, sees) = visible-Sees compile g id v e in
      let (r, member, same) = grant-Authorizes g id metrics refs grants v name policy sees e a in
      let (d, runs, in_roles) = decide_runs grants (authorizing grants metrics refs) r member in
      (d, rw (e, is_restricted) runs, rw (← same) in_roles)
    where
      decide_runs :
          (grants granted : List Grant) (r : Grant)
          → Elem r granted
          → (d : Decision) × (decide grants granted metrics refs ≡ ok d) × Elem r.role d.roles
      decide_runs grants [] r m = absurd m
      decide_runs grants (s ∷ ss) r m = (
        record {
          roles = map role_of (s ∷ ss);
          role_key = join (codes ",") (map role_of (s ∷ ss));
          row_filter_groups = collect_groups [] (s ∷ ss);
        },
        refl,
        Elem-map role_of r (s ∷ ss) m,
      )
