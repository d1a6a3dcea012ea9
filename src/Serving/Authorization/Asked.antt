-- ===== src/Serving/Authorization/Asked.antt =====
-- What an external provider is asked, whatever the order that names come in.
use mathlib.Core.Path.{subst}
use mathlib.Core.Option.{some-injective}
use semantic_operator.Prelude.{
  Text, not, ◌&&◌, List, [], ◌∷◌, Option, none, some, is_nil, if◌then◌else◌, ◌≡◌, ◌≢◌, ◌↔◌, ◌⊎◌,
  inl, inr, refl, sym, Elem,
}
use semantic_operator.Prelude.Sorting.{Elem-sort_by}
use semantic_operator.Api.{GovernanceSpec}
use semantic_operator.Governance.{Identity}
use semantic_operator.Planner.{CompiledModel}
use semantic_operator.Planner.Request.{Request}
use semantic_operator.Serving.Authorization.{Input, Environment, input_roles, new_query_input}

-- A role of the caller, or the default role for a caller with neither groups nor roles.
abbrev pub HasRole : Option GovernanceSpec → Identity → Text → Type 0
HasRole governance id n =
    Elem n id.roles
    ⊎ ((id.groups ≡ [])
        × (id.roles ≡ [])
        × ((g : GovernanceSpec) × (governance ≡ some g)
            × (g.default_role ≢ [])
            × (n ≡ g.default_role)))

-- The input asks about this caller, this model, this request and this environment.
pub record IsInputFor (m : CompiledModel) (req : Request) (id : Identity)
    (environment : Environment) (input : Input) : Type 0 where
  pub principal : input.identity.principal ≡ id.principal
  pub claims : input.identity.claims ≡ id.claims
  pub groups : (n : Text) → Elem n input.identity.groups ↔ Elem n id.groups
  pub roles : (n : Text) → Elem n input.identity.roles ↔ HasRole m.governance id n
  pub name : input.model.name ≡ m.name
  pub version : input.model.version ≡ m.version
  pub namespace : input.model.namespace ≡ m.namespace
  pub resource : input.model.resource ≡ m.resource
  pub request : input.request ≡ req
  pub place : input.environment ≡ environment

roles_or_default :
    (groups roles : List Text) (d n : Text)
    → Elem n (if is_nil groups && is_nil roles && not (is_nil d) then d ∷ [] else roles)
      ↔ (Elem n roles ⊎ ((groups ≡ []) × (roles ≡ []) × (d ≢ []) × (n ≡ d)))
roles_or_default [] [] [] n =
    (λ i. absurd i, λ h. elim h [ inl i ↦ absurd i | inr (_, _, k, _) ↦ absurd (k refl) ])
roles_or_default [] [] (c ∷ d) n = (
  λ i. elim i [ inl e ↦ inr (refl, refl, (λ q. cc), e) | inr a ↦ absurd a ],
  λ h. elim h [ inl i ↦ absurd i | inr (_, _, _, e) ↦ inl e ],
)
roles_or_default [] (r ∷ roles) d n =
    (λ i. inl i, λ h. elim h [ inl i ↦ i | inr (_, e, _, _) ↦ cc ])
roles_or_default (g ∷ groups) roles d n =
    (λ i. inl i, λ h. elim h [ inl i ↦ i | inr (e, _, _, _) ↦ cc ])

input_roles-HasRole :
    (governance : Option GovernanceSpec) (id : Identity) (n : Text)
    → Elem n (input_roles governance id) ↔ HasRole governance id n
unfolding input_roles
input_roles-HasRole none id n =
    let (there, back) = roles_or_default id.groups id.roles [] n in
    (
      λ i. elim (there i) [ inl k ↦ inl k | inr (_, _, k, _) ↦ absurd (k refl) ],
      λ h. back (elim h [ inl k ↦ inl k | inr (_, _, (g, e, _, _)) ↦ absurd (cc e) ]),
    )
input_roles-HasRole (some g) id n =
    let (there, back) = roles_or_default id.groups id.roles g.default_role n in
    (
      λ i. elim (there i) [ inl k ↦ inl k | inr (a, b, k, e) ↦ inr (a, b, (g, refl, k, e)) ],
      λ h. back (elim h [
        | inl k ↦ inl k
        | inr (a, b, (f, q, k, e)) ↦
            let same = some-injective g f q in
            inr (
              a,
              b,
              subst (λ (x : GovernanceSpec). x.default_role ≢ []) (sym same) k,
              subst (λ (x : GovernanceSpec). n ≡ x.default_role) (sym same) e,
            )
      ]),
    )

pub new_query_input-IsInputFor :
    (m : CompiledModel) (req : Request) (id : Identity) (environment : Environment)
    → IsInputFor m req id environment (new_query_input m req id environment)
unfolding new_query_input
new_query_input-IsInputFor m req id environment = record {
  principal = refl;
  claims = refl;
  groups = Elem-sort_by (λ n. n) id.groups;
  roles = λ n.
      let sorted = Elem-sort_by (λ n. n) (input_roles m.governance id) n in
      let held = input_roles-HasRole m.governance id n in
      (λ i. held.0 (sorted.0 i), λ h. sorted.1 (held.1 h));
  name = refl;
  version = refl;
  namespace = refl;
  resource = refl;
  request = refl;
  place = refl;
}
