-- ===== src/Governance.antt =====
-- internal/governance/governance.go: identities, visibility and authorization.
pub mod Roles
pub mod Grants
pub mod Visible
pub mod Authorize
pub mod Scope
pub mod Claims
mod Tests
use semantic_operator.Prelude.{
  Text, Bool, true, false, not, ◌&&◌, ◌||◌, List, [], ◌∷◌, ◌++◌, map, Option, none, some, codes,
  if◌then◌else◌, is_nil, any, all, keep, text_eq, contains, Result, ok, err, ◌>>=◌, traverse,
}
use semantic_operator.Prelude.Strings.{join}
use semantic_operator.Prelude.Sorting.{sort_by}
use semantic_operator.Api.{RolePolicy, GovernanceSpec, RowFilter, find_role}
use semantic_operator.Errors.{
  Blocker, Error, metric, field, request, no_policy, refused_by, refused, bad_pattern,
}

-- `Claims` is the association list of the map.
pub record Identity : Type 0 where
  pub principal : Text
  pub groups : List Text
  pub roles : List Text
  pub claims : List (Text × Text)

abbrev pub no_identity : Identity
no_identity = record { principal = []; groups = []; roles = []; claims = [] }

-- `Single`
unfoldable pub single : Text → Identity
single role = if is_nil role then no_identity else record no_identity { roles = role ∷ [] }

-- One inner loop of `PolicyRoles`; `seen` holds exactly the roles collected so far.
unfoldable pub collect_roles : List Text → List Text → List Text
collect_roles roles [] = roles
collect_roles roles (value ∷ values) =
    collect_roles (if is_nil value || contains roles value then roles else roles ++ value ∷ [])
      values

unfoldable pub policy_roles : Identity → List Text
unfolding collect_roles
policy_roles id = collect_roles (collect_roles [] id.groups) id.roles

-- `glob.Glob` is an interface with the one method `Match`.
abbrev pub Glob : Type 0
Glob = Text → Bool

-- One index of the parallel slices `roles`, `policies` and `globs` of a `Visibility`.
pub record Grant : Type 0 where
  pub role : Text
  pub policy : RolePolicy
  pub globs : List Glob

-- `Visibility`: the flag `unrestricted` and the slices; without a governance spec the policies are
-- empty and only the roles are kept.
pub data Visibility : Type 0 where
  unrestricted : List Text → Visibility
  restricted : List Grant → Visibility

-- `wanted` of `Visible`: the caller's roles, or the default role.
unfoldable pub wanted : GovernanceSpec → Identity → List Text
wanted g id =
    if is_nil (policy_roles id) && not (is_nil g.default_role)
    then g.default_role ∷ []
    else policy_roles id

-- The end of `Visible`, with `sortPolicies`.
unfoldable pub close_grants : List Text → List Grant → Result Error Visibility
close_grants names [] = err (no_policy names)
close_grants names (r ∷ rs) = ok (restricted (sort_by (λ (r : Grant). r.role) (r ∷ rs)))

-- `compile` is `glob.Compile` of github.com/gobwas/glob.
module _ (compile : Text → Option Glob) where
  unfoldable pub compile_pattern : Text → Text → Result Error Glob
  compile_pattern role pat = elim (compile pat) [
    | none ↦ err (bad_pattern role pat)
    | some gl ↦ ok gl
  ]

  -- The tail of the loop body of `Visible`, on a policy that was found.
  unfoldable pub add_policy : List Grant → Text → RolePolicy → Result Error (List Grant)
  add_policy grants name policy = if is_nil policy.allow_metrics then ok grants else do
    globs ← traverse (compile_pattern name) policy.allow_metrics
    ok (grants ++ record { role = name; policy = policy; globs = globs } ∷ [])

  -- The loop body of `Visible`; `seen` holds exactly the roles granted so far.
  unfoldable pub add_role : GovernanceSpec → List Grant → Text → Result Error (List Grant)
  unfolding add_policy
  add_role g grants name =
      if is_nil name || any (λ r. text_eq r.role name) grants
      then ok grants
      else elim (find_role name g.roles) [
        | none ↦ ok grants
        | some policy ↦ add_policy grants name policy
      ]

  unfoldable pub add_roles : GovernanceSpec → List Grant → List Text → Result Error (List Grant)
  add_roles g grants [] = ok grants
  add_roles g grants (name ∷ names) = do more ← add_role g grants name; add_roles g more names

  unfoldable pub visible : Option GovernanceSpec → Identity → Result Error Visibility
  unfolding close_grants
  visible none id = ok (unrestricted (policy_roles id))
  visible (some g) id = do grants ← add_roles g [] (wanted g id); close_grants (wanted g id) grants

abbrev role_of : Grant → Text
role_of r = r.role

-- `Roles` and `RoleKey`
unfoldable pub visible_roles : Visibility → List Text
visible_roles (unrestricted roles) = roles
visible_roles (restricted grants) = map role_of grants

unfoldable pub role_key : Visibility → Text
unfolding visible_roles
role_key v = join (codes ",") (visible_roles v)

unfoldable pub permits_metric : Grant → Text → Bool
permits_metric r name = any (λ gl. gl name) r.globs

unfoldable pub permits_field : Grant → Text → Bool
permits_field r ref = not (contains r.policy.deny_fields ref)

-- `Metric` and `Field` of a `Visibility`, which discovery asks.
unfoldable pub shows_metric : Visibility → Text → Bool
shows_metric (unrestricted roles) name = true
shows_metric (restricted grants) name = any (λ r. permits_metric r name) grants

unfoldable pub shows_field : Visibility → Text → Bool
shows_field (unrestricted roles) ref = true
shows_field (restricted grants) ref = any (λ r. permits_field r ref) grants

-- The loop body of `authorizing`.
unfoldable pub permits_all : List Text → List Text → Grant → Bool
permits_all metrics refs r = all (permits_metric r) metrics && all (permits_field r) refs

unfoldable pub authorizing : List Grant → List Text → List Text → List Grant
unfolding permits_all
authorizing grants metrics refs = keep (permits_all metrics refs) grants

pub record Decision : Type 0 where
  pub roles : List Text
  pub role_key : Text
  pub row_filter_groups : List (List RowFilter)

-- The loop of `Authorize` that stops at a role without row filters.
unfoldable pub collect_groups : List (List RowFilter) → List Grant → List (List RowFilter)
collect_groups groups [] = groups
collect_groups groups (r ∷ rs) =
    let rest = collect_groups (groups ++ r.policy.row_filters ∷ []) rs in
    if is_nil r.policy.row_filters then [] else rest

unfoldable pub first_blocked_field : Grant → List Text → Blocker
first_blocked_field r [] = request
first_blocked_field r (ref ∷ refs) =
    if not (permits_field r ref) then field ref else first_blocked_field r refs

unfoldable pub blocker : Grant → List Text → List Text → Blocker
unfolding first_blocked_field
blocker r [] refs = first_blocked_field r refs
blocker r (m ∷ ms) refs = if not (permits_metric r m) then metric m else blocker r ms refs

unfoldable pub refusal : List Grant → List Text → List Text → Error
refusal (r ∷ []) metrics refs = refused_by r.role (blocker r metrics refs)
refusal grants metrics refs = refused (map (λ (r : Grant). (r.role, blocker r metrics refs)) grants)

-- The end of `Authorize`, on the roles that permit the whole request.
unfoldable pub decide : List Grant → List Grant → List Text → List Text → Result Error Decision
decide grants [] metrics refs = err (refusal grants metrics refs)
decide grants (r ∷ rs) metrics refs = ok (record {
  roles = map role_of (r ∷ rs);
  role_key = join (codes ",") (map role_of (r ∷ rs));
  row_filter_groups = collect_groups [] (r ∷ rs);
})

unfoldable pub authorize_visible : Visibility → List Text → List Text → Result Error Decision
unfolding decide
authorize_visible (unrestricted roles) metrics refs =
    ok (record { roles = roles; role_key = role_key (unrestricted roles); row_filter_groups = [] })
authorize_visible (restricted grants) metrics refs =
    decide grants (authorizing grants metrics refs) metrics refs

unfoldable pub authorize :
    (Text → Option Glob)
    → Option GovernanceSpec
    → Identity
    → List Text
    → List Text
    → Result Error Decision
unfolding authorize_visible
authorize compile g id metrics refs = do v ← visible compile g id; authorize_visible v metrics refs
