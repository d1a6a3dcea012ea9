-- ===== src/Serving/Authorization.antt =====
-- internal/serving/authorization/authorization.go: external policy decisions. Providers, the regular
-- expression of their names, SHA-256 and the JSON form of a scope are parameters. The constants of an
-- input (its version and its action) are left out.
pub mod Asked
pub mod Decided
mod Tests
use semantic_operator.Prelude.{
  Text, ℕ, Bool, true, false, not, ◌&&◌, ◌||◌, ltb, List, [], ◌∷◌, Option, none, some,
  if◌then◌else◌, is_nil, length, Map, lookup, insert, Result, ok, err, ◌>>=◌, ◌>>◌, fail_if,
}
use semantic_operator.Prelude.Sorting.{sort_by}
use semantic_operator.Errors.{
  Error, unavailable, denied_by, canceled, bad_provider_name, nil_provider, nil_registry,
  repeated_provider,
}
use semantic_operator.Api.{GovernanceSpec}
use semantic_operator.Governance.{Identity}
use semantic_operator.Governance.Claims.{identity_digest}
use semantic_operator.Planner.{CompiledModel}
use semantic_operator.Planner.Request.{Request}

pub record Environment : Type 0 where
  pub access_time : ℕ
  pub adapter : Text

-- `Model`
pub record ModelIdentity : Type 0 where
  pub name : Text
  pub version : Text
  pub namespace : Text
  pub resource : Text

pub record Input : Type 0 where
  pub identity : Identity
  pub model : ModelIdentity
  pub request : Request
  pub environment : Environment

-- `Decision`
pub record Verdict : Type 0 where
  pub allow : Bool
  pub revision : Text

-- An error of a provider: its context was cancelled, or anything else.
pub data ProviderFailure : Type 0 where
  was_canceled failed : ProviderFailure

-- `Provider`, by its method `Decide`.
abbrev pub Provider : Type 0
Provider = Input → Result ProviderFailure Verdict

abbrev pub Registry : Type 0
Registry = Map Provider

abbrev pub default_role_of : Option GovernanceSpec → Text
default_role_of none = []
default_role_of (some g) = g.default_role

-- The roles of an input before they are sorted.
unfoldable pub input_roles : Option GovernanceSpec → Identity → List Text
input_roles g id =
    if is_nil id.groups && is_nil id.roles && not (is_nil (default_role_of g))
    then default_role_of g ∷ []
    else id.roles

-- `NewQueryInput`
unfoldable pub new_query_input : CompiledModel → Request → Identity → Environment → Input
unfolding input_roles
new_query_input m req id environment = record {
  identity = record id {
    groups = sort_by (λ n. n) id.groups;
    roles = sort_by (λ n. n) (input_roles m.governance id);
  };
  model = record {
    name = m.name;
    version = m.version;
    namespace = m.namespace;
    resource = m.resource;
  };
  request = req;
  environment = environment;
}

-- `Register`; a nil provider is `none`.
unfoldable pub register_provider :
    (Text → Bool) → Text → Option Provider → Option Registry → Result Error Registry
unfolding lookup
register_provider matches name provider none = err nil_registry
register_provider matches name provider (some r) = do
  fail_if (ltb 63 (length name) || not (matches name)) bad_provider_name
  elim provider [
    | none ↦ err nil_provider
    | some p ↦ elim (lookup r name) [
      | some _ ↦ err (repeated_provider name)
      | none ↦ ok (insert name p r)
    ]
  ]

-- What becomes of a provider's answer.
unfoldable pub decided : Text → Result ProviderFailure Verdict → Result Error Verdict
decided ref (err was_canceled) = err canceled
decided ref (err failed) = err (unavailable ref)
decided ref (ok v) = if v.allow then ok v else err (denied_by ref)

unfoldable pub ask : Text → Input → Option Provider → Result Error Verdict
unfolding decided
ask ref input none = err (unavailable ref)
ask ref input (some provider) = decided ref (provider input)

-- `Authorize`, nil receiver included.
unfoldable pub authorize_external : Option Registry → Text → Input → Result Error Verdict
unfolding ask lookup
authorize_external none ref input = err (unavailable ref)
authorize_external (some r) ref input = ask ref input (lookup r ref)

-- `Fingerprint`
unfoldable pub fingerprint :
    (Text → Text) → (Text → Text → Verdict → Text) → Text → Identity → Verdict → Text
unfolding identity_digest
fingerprint sha256_hex scope_json ref id v =
    sha256_hex (scope_json ref (identity_digest sha256_hex id) v)
