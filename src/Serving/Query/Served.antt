-- ===== src/Serving/Query/Served.antt =====
-- What a plan and the answer to a query rest on, and what the caches hold.
use mathlib.Core.Path.{subst}
use mathlib.Core.Option.{some-injective}
use semantic_operator.Prelude.{
  Text, Bool, true, false, Option, none, some, if◌then◌else◌, text_eq, text_eq_iff, ok,
  Option-cases, ok_injective, >>=-eq-ok, ◌≡◌, inl, inr, refl, sym, ap, ◌∙◌,
}
use semantic_operator.Governance.{Identity}
use semantic_operator.Emitter.{Dialect}
use semantic_operator.Planner.{CompiledModel}
use semantic_operator.Planner.Request.{Request}
use semantic_operator.Planner.Build.{build}
use semantic_operator.Serving.Limits.{Limits, apply}
use semantic_operator.Serving.Authorization.{
  Environment, Input, Verdict, new_query_input, authorize_external, fingerprint,
}
use semantic_operator.Governance.Claims.{identity_digest}
use semantic_operator.Serving.Authorization.Asked.{IsInputFor, new_query_input-IsInputFor}
use semantic_operator.Serving.Authorization.Decided.{IsAllowed, authorize_external_exact}
use semantic_operator.Serving.Query.{
  Entry, Caches, World, external_ref, store, external_scope, usable, fresh_plan, key_of_plan, plan,
}

if-some : (b : Bool) (x e : Entry) → (if b then some x else none) ≡ some e → (b ≡ true) × (x ≡ e)
if-some true x e h = (refl, some-injective x e h)
if-some false x e h = cc

module _ (w : World) (limits : Limits) (d : Dialect) where
  usable_scope :
      (scope : Text) (o : Option Text) (e : Entry)
      → usable w limits d scope o ≡ some e
      → e.authorization ≡ scope
  unfolding usable
  usable_scope scope none e h = cc
  usable_scope scope (some blob) e h = elim (Option-cases (w.read_plan blob)) [
    | inl n ↦ cc (rw (n, usable) at h)
    | inr (f, r) ↦
        let (t, same) = if-some (text_eq f.authorization scope) f e (rw (r, usable) at h) in
        subst (λ (x : Entry). x.authorization ≡ scope) same
          ((text_eq_iff f.authorization scope).0 t)
  ]

  -- What the plan carries for a decision: the hash of the reference, the caller and the decision.
  abbrev pub scope_hash : Text → Input → Verdict → Text
  scope_hash ref input v =
      w.sha256_hex (w.scope_json ref (identity_digest w.sha256_hex input.identity) v)

  -- The plan was made, now or before, under an external decision for this very request.
  abbrev pub IsScoped : CompiledModel → Request → Identity → Environment → Entry → Text → Type 0
  IsScoped m req id environment e ref =
      (input : Input) × (v : Verdict) × IsInputFor m req id environment input
      × IsAllowed w.registry ref input v
      × (e.authorization ≡ scope_hash ref input v)

  external_scope_ok :
      (m : CompiledModel) (req : Request) (id : Identity) (environment : Environment)
      (ref scope : Text)
      → external_scope w limits d m req id environment (some ref) ≡ ok scope
      → (v : Verdict) × IsAllowed w.registry ref (new_query_input m req id environment) v
        × (scope
            ≡ fingerprint w.sha256_hex w.scope_json ref
                (new_query_input m req id environment).identity
                v)
  unfolding external_scope
  external_scope_ok m req id environment ref scope h =
      let (v, e, q) =
        >>=-eq-ok (authorize_external w.registry ref (new_query_input m req id environment)) _ h in
      (
        v,
        (authorize_external_exact w.registry ref (new_query_input m req id environment) v).0 e,
        sym (ok_injective _ scope q),
      )

  fresh_plan_scope :
      (m : CompiledModel) (req : Request) (id : Identity) (scope : Text) (c : Caches) (e : Entry)
      (flag : Bool) (after : Caches)
      → fresh_plan w limits d m req id scope c ≡ ok (e, flag, after)
      → e.authorization ≡ scope
  unfolding fresh_plan
  fresh_plan_scope m req id scope c e flag after h =
      let (p, _, q) =
        >>=-eq-ok (build w.compile w.split_claims w.sha256_hex w.request_hash m d req id) _ h in
      let out : Entry × Bool × Caches = (
        record { plan = p; authorization = scope },
        false,
        record c {
          plans =
              store w limits d (key_of_plan w limits d m req id scope)
                (w.plan_json (record { plan = p; authorization = scope })) c.plans;
        },
      ) in
      sym (
        ap (λ (x : Entry × Bool × Caches). x.0.authorization) (ok_injective out (e, flag, after) q))

  plan_scope :
      (m : CompiledModel) (req : Request) (id : Identity) (scope : Text) (c : Caches)
      (o : Option Entry) (e : Entry) (flag : Bool) (after : Caches)
      → ((x : Entry) → o ≡ some x → x.authorization ≡ scope)
      → (elim o [ some x ↦ ok (x, true, c) | none ↦ fresh_plan w limits d m req id scope c ])
        ≡ ok (e, flag, after)
      → e.authorization ≡ scope
  plan_scope m req id scope c (some x) e flag after h q =
      subst (λ (y : Entry). y.authorization ≡ scope)
        (ap (λ (y : Entry × Bool × Caches). y.0) (ok_injective (x, true, c) (e, flag, after) q))
        (h x refl)
  plan_scope m req id scope c none e flag after h q =
      fresh_plan_scope m req id scope c e flag after q

  -- A plan for a model with an external provider, be it new or from the cache, is returned only if
  -- the provider registered under the reference allows, now, an input with this request after the
  -- limits, this environment, the model's name, version, namespace and resource, and the caller's
  -- principal, claims, groups and roles, or the default role for a caller with neither groups nor
  -- roles; and the plan carries the hash of the reference, that identity and that decision.
  pub plan-IsScoped :
      (negative : Bool) (m : CompiledModel) (req : Request) (id : Identity)
      (environment : Environment) (c : Caches) (e : Entry) (flag : Bool) (after : Caches)
      (ref : Text)
      → external_ref m.governance ≡ some ref
      → plan w limits d negative m req id environment c ≡ ok (e, flag, after)
      → (limited : Request) × (apply limits negative req ≡ ok limited)
        × IsScoped m limited id environment e ref
  unfolding plan
  plan-IsScoped negative m req id environment c e flag after ref external h =
      let (limited, a, rest) = >>=-eq-ok (apply limits negative req) _ h in
      let (scope, s, q) =
        >>=-eq-ok (external_scope w limits d m limited id environment (external_ref m.governance)) _
          rest in
      let (v, allowed, f) =
        external_scope_ok m limited id environment ref scope (rw external at s) in
      let same =
        plan_scope m limited id scope c _ e flag after (λ x u. usable_scope scope _ x u) q in
      let input = new_query_input m limited id environment in
      (
        limited,
        a,
        (
          input,
          v,
          new_query_input-IsInputFor m limited id environment,
          allowed,
          same ∙ f ∙ unfold fingerprint in refl,
        ),
      )
