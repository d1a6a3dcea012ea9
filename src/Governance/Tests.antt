-- ===== src/Governance/Tests.antt =====
-- Runs and instances of the governance theorems: a model with an analyst, restricted to rows and
-- fields, and an auditor, with exact names for patterns.
use semantic_operator.Prelude.{
  Text, true, false, List, [], ◌∷◌, ◌≡◌, ◌≢◌, ◌↔◌, ◌⊎◌, inl, inr, refl, arith, Elem, Option, some,
  none, codes, text_eq, ok, err, traverse, contains, any, all, keep,
}
use semantic_operator.Prelude.Sorting.{sort_by}
use semantic_operator.Prelude.Strings.{text_le, join}
use semantic_operator.Api.{RolePolicy, GovernanceSpec, RowFilter, find_role}
use semantic_operator.Errors.{refused, metric}
use semantic_operator.Governance.{
  Identity, Glob, Grant, Decision, Visibility, restricted, no_identity, policy_roles, wanted,
  visible, authorize, compile_pattern, add_role, add_roles, permits_metric, authorizing,
  collect_groups, shows_metric, shows_field, permits_all, permits_field, blocker, refusal,
}
use semantic_operator.Governance.Roles.{SameRoles}
use semantic_operator.Governance.Authorize.{Authorizes, authorize_exact, authorize_complete}
use semantic_operator.Governance.Scope.{
  FiltersOf, HasUnfiltered, IsReal, authorize_filters, authorize_shown, authorize_same,
  blocker-IsReal,
}

-- A pattern library without wildcards.
abbrev exact : Text → Option Glob
exact p = some (text_eq p)

abbrev tenant_filter : RowFilter
tenant_filter = record { dataset = codes "orders"; predicate = codes "region = 'EU'" }

abbrev analyst : RolePolicy
analyst = record {
  name = codes "analyst";
  allow_metrics = codes "revenue" ∷ [];
  deny_fields = codes "orders.email" ∷ [];
  row_filters = tenant_filter ∷ [];
}

abbrev auditor : RolePolicy
auditor = record {
  name = codes "auditor";
  allow_metrics = codes "audits" ∷ [];
  deny_fields = [];
  row_filters = [];
}

abbrev spec : GovernanceSpec
spec = record { default_role = []; roles = auditor ∷ analyst ∷ []; external = none }

abbrev caller : Identity
caller = record no_identity { roles = codes "auditor" ∷ codes "analyst" ∷ codes "auditor" ∷ [] }

abbrev same_caller : Identity
same_caller = record no_identity { groups = codes "analyst" ∷ []; roles = codes "auditor" ∷ [] }

abbrev decision : Decision
decision = record {
  roles = codes "analyst" ∷ [];
  role_key = codes "analyst";
  row_filter_groups = (tenant_filter ∷ []) ∷ [];
}

abbrev metrics : List Text
metrics = codes "revenue" ∷ []

abbrev refs : List Text
refs = codes "orders.day" ∷ []

-- What the runs below compute with.
evaluation : Unit {0}
unfolding authorize visible policy_roles wanted add_roles add_role find_role text_eq text_le
    compile_pattern traverse contains any all keep sort_by authorizing permits_all permits_metric
    permits_field collect_groups join refusal blocker
evaluation = tt

run : authorize exact (some spec) caller metrics refs ≡ ok decision
unfolding evaluation
run = refl

-- The union of two roles would allow both metrics; no single role does.
no_pooling :
    authorize exact (some spec) caller (codes "revenue" ∷ codes "audits" ∷ []) []
    ≡ err (
        refused (
          (codes "analyst", metric (codes "audits"))
          ∷ (codes "auditor", metric (codes "revenue"))
          ∷ []))
unfolding evaluation
no_pooling = refl

authorize_exact_example :
    (decision.roles ≢ [])
    × ((name : Text)
        → Elem name decision.roles
          ↔ ((policy : RolePolicy) × Authorizes exact spec caller metrics refs name policy))
authorize_exact_example = authorize_exact exact spec caller metrics refs decision run

authorize_filters_example :
    ((decision.row_filter_groups ≡ []) × HasUnfiltered spec decision.roles)
    ⊎ FiltersOf spec decision.roles decision.row_filter_groups
authorize_filters_example = authorize_filters exact spec caller metrics refs decision run

authorize_shown_example :
    (v : Visibility) × (visible exact (some spec) caller ≡ ok v)
    × ((m : Text) → Elem m metrics → shows_metric v m ≡ true)
    × ((ref : Text) → Elem ref refs → shows_field v ref ≡ true)
authorize_shown_example = authorize_shown exact spec caller metrics refs decision run

same_roles : SameRoles caller same_caller
unfolding evaluation
same_roles x = ground arith

authorize_same_example : authorize exact (some spec) same_caller metrics refs ≡ ok decision
authorize_same_example =
    authorize_same exact spec caller same_caller metrics refs decision same_roles run

analyst-Authorizes : Authorizes exact spec caller metrics refs (codes "analyst") analyst
unfolding evaluation
analyst-Authorizes = record {
  held = inr (inl refl);
  named = λ e. cc;
  found = refl;
  granting = λ e. cc;
  metrics_allowed = ((codes "revenue", text_eq (codes "revenue"), inl refl, refl, refl), tt);
  fields_allowed = (λ m. ground arith, tt);
}

abbrev grants : List Grant
grants =
    record { role = codes "analyst"; policy = analyst; globs = text_eq (codes "revenue") ∷ [] }
    ∷ record { role = codes "auditor"; policy = auditor; globs = text_eq (codes "audits") ∷ [] }
    ∷ []

caller_sees : visible exact (some spec) caller ≡ ok (restricted grants)
unfolding evaluation
caller_sees = refl

authorize_complete_example :
    (d : Decision) × (authorize exact (some spec) caller metrics refs ≡ ok d)
    × Elem (codes "analyst") d.roles
authorize_complete_example =
    authorize_complete exact spec caller metrics refs (codes "analyst") analyst (restricted grants)
      caller_sees analyst-Authorizes

abbrev analyst_grant : Grant
analyst_grant = record {
  role = codes "analyst";
  policy = analyst;
  globs = text_eq (codes "revenue") ∷ [];
}

analyst_blocked :
    permits_all (codes "revenue" ∷ []) (codes "orders.email" ∷ []) analyst_grant ≡ false
unfolding evaluation
analyst_blocked = refl

blocker-IsReal_example :
    IsReal analyst_grant
      (codes "revenue" ∷ [])
      (codes "orders.email" ∷ [])
      (blocker analyst_grant (codes "revenue" ∷ []) (codes "orders.email" ∷ []))
blocker-IsReal_example =
    blocker-IsReal analyst_grant (codes "revenue" ∷ []) (codes "orders.email" ∷ []) analyst_blocked
