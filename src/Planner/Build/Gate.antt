-- ===== src/Planner/Build/Gate.antt =====
-- internal/planner/plan.go, `Build`: the governance gate.
use semantic_operator.Prelude.{
  List-cases, [], Elem, lookup, ◌≢◌, Text, List, ◌++◌, map, Option, some, ok, ok_injective,
  >>=-eq-ok, ◌≡◌, inl, inr, refl, sym, ap, ◌∙◌,
}
use mathlib.Core.Path.{subst}
use semantic_operator.Planner.Render.{Builder}
use semantic_operator.Prelude.Lists.{All-Elem}
use semantic_operator.Api.{GovernanceSpec, RolePolicy, find_role}
use semantic_operator.Governance.Authorize.{Allows, Authorizes, authorize_exact}
use semantic_operator.Emitter.{Dialect}
use semantic_operator.Expr.{FieldRef, ref_string}
use semantic_operator.Expr.Metric.{AggTerm, denominator_refs}
use semantic_operator.Governance.{Identity, Glob, Decision, wanted, authorize}
use semantic_operator.Governance.Claims.{Part}
use semantic_operator.Planner.{CompiledModel, CompiledMetric}
use semantic_operator.Planner.Request.{Request, Filter}
use semantic_operator.Planner.Build.Reads.{Reads, resolve-Reads}
use semantic_operator.Planner.Build.{
  Resolved, Plan, resolve, all_refs, builder_of, statement, partition_of, plan_of, build, dim_refs,
}

module _ (compile : Text → Option Glob) (split_claims : Text → List Part) (sha256_hex : Text → Text)
    (request_hash : Request → Text → Text) (cm : CompiledModel) (d : Dialect) (req : Request)
    (id : Identity) where
  -- A plan that passed the gate: the request resolves, one decision authorizes its metrics and all
  -- its references, and the statement is made with that decision's row filters.
  pub record IsGated (plan : Plan) : Type 0 where
    pub resolved : Resolved
    pub resolves : resolve cm req ≡ ok resolved
    pub decision : Decision
    pub authorized :
        authorize compile cm.governance id req.metrics (map ref_string (all_refs resolved))
        ≡ ok decision
    pub builder : Builder
    pub expanded :
        builder_of compile split_claims sha256_hex request_hash cm d req id resolved decision
        ≡ ok builder
    pub sql : Text
    pub stated :
        statement builder
          (partition_of compile split_claims sha256_hex request_hash builder resolved)
          resolved
        ≡ ok sql
    pub role : plan.role ≡ decision.role_key
    pub columns : plan.columns ≡ map ref_string (dim_refs resolved.dims) ++ req.metrics

  -- Every plan passed the gate.
  pub build-IsGated :
      (plan : Plan)
      → build compile split_claims sha256_hex request_hash cm d req id ≡ ok plan
      → IsGated plan
  unfolding build
  build-IsGated plan e =
      let (r, p1, e1) = >>=-eq-ok (resolve cm req) _ e in
      let (decision, p2, e2) =
        >>=-eq-ok (authorize compile cm.governance id req.metrics (map ref_string (all_refs r))) _
          e1 in
      let (b, p3, e3) =
        >>=-eq-ok (builder_of compile split_claims sha256_hex request_hash cm d req id r decision) _
          e2 in
      let (sql, p4, e4) =
        >>=-eq-ok (statement b (partition_of compile split_claims sha256_hex request_hash b r) r) _
          e3 in
      subst IsGated (ok_injective _ plan e4) (record {
        resolved = r;
        resolves = p1;
        decision = decision;
        authorized = p2;
        builder = b;
        expanded = p3;
        sql = sql;
        stated = p4;
        role = unfold plan_of in refl;
        columns = unfold plan_of in refl;
      })

  -- A role of the caller whose own policy permits the request: it allows every requested metric, and
  -- denies no requested dimension, no field that a filter is on, and no field that the expression of a
  -- requested metric reads, in its numerator or its denominator.
  pub record Permits (g : GovernanceSpec) (name : Text) (policy : RolePolicy) : Type 0 where
    pub held : Elem name (wanted g id)
    pub named : name ≢ []
    pub found : find_role name g.roles ≡ some policy
    pub metrics_allowed : (m : Text) → Elem m req.metrics → Allows compile policy.allow_metrics m
    pub dimensions_shown : (s : Text) → Elem s req.dimensions → ¬ Elem s policy.deny_fields
    pub filters_shown : (f : Filter) → Elem f req.filters → ¬ Elem f.field policy.deny_fields
    pub metrics_shown :
        (m : Text)
        → Elem m req.metrics
        → (c : CompiledMetric) × (lookup cm.metrics m ≡ some c)
          × ((r : FieldRef)
              → Elem r c.expr.numerator.refs
              → ¬ Elem (ref_string r) policy.deny_fields)
          × ((t : AggTerm) (r : FieldRef)
              → c.expr.denominator ≡ some t
              → Elem r t.refs
              → ¬ Elem (ref_string r) policy.deny_fields)

  Authorizes-Permits :
      (g : GovernanceSpec) (refs : List Text) (name : Text) (policy : RolePolicy)
      → Reads cm req refs
      → Authorizes compile g id req.metrics refs name policy
      → Permits g name policy
  Authorizes-Permits g refs name policy reads a =
      let shown : (s : Text) → Elem s refs → ¬ Elem s policy.deny_fields =
        All-Elem (λ ref. ¬ Elem ref policy.deny_fields) refs a.fields_allowed in
      record {
        held = a.held;
        named = a.named;
        found = a.found;
        metrics_allowed =
            All-Elem (Allows compile policy.allow_metrics) req.metrics a.metrics_allowed;
        dimensions_shown = λ s i. shown s (reads.dimensions s i);
        filters_shown = λ f i. shown f.field (reads.filters f i);
        metrics_shown = λ m i.
            let (c, l, read) = reads.metrics m i in
            (
              c,
              l,
              λ r k. shown (ref_string r) (read r (inl k)),
              λ t r e k.
                  shown (ref_string r)
                    (read r (inr (subst (λ o. Elem r (denominator_refs o)) (sym e) k))),
            );
      }

  -- With governance, a plan exists only for a caller with a role whose own policy allows every
  -- requested metric and denies no requested dimension, no field that a filter is on, and no field
  -- that a requested metric reads, in its numerator or its denominator.
  pub build-Authorizes :
      (g : GovernanceSpec) (plan : Plan)
      → cm.governance ≡ some g
      → build compile split_claims sha256_hex request_hash cm d req id ≡ ok plan
      → (name : Text) × (policy : RolePolicy) × Permits g name policy
  build-Authorizes g plan e h =
      let p = build-IsGated plan h in
      let refs = map ref_string (all_refs p.resolved) in
      let (some_role, exact) =
        authorize_exact compile g id req.metrics refs p.decision
          (ap (λ gov. authorize compile gov id req.metrics refs) (sym e) ∙ p.authorized) in
      elim (List-cases p.decision.roles) [
        | inl n ↦ absurd (some_role n)
        | inr (name, rest, k) ↦
            let (policy, a) = (exact name).0 (rw k (inl refl)) in
            (
              name,
              policy,
              Authorizes-Permits g refs name policy (resolve-Reads cm req p.resolved p.resolves) a,
            )
      ]
