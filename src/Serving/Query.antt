-- ===== src/Serving/Query.antt =====
-- internal/serving/service.go: `Plan` and `Query`, with the keys of internal/cache/cache.go. The
-- state is the two caches. The engine, the reachability of the cache server, JSON forms, SHA-256 and
-- the libraries of the planner are parameters. Metrics, logs and times are left out.
pub mod Served
pub mod Answered
pub mod Complete
mod Tests
use semantic_operator.Prelude.{
  Text, ℕ, Bool, true, false, not, ◌&&◌, ◌==◌, ltb, leb, List, [], ◌∷◌, ◌++◌, Option, none, some,
  codes, if◌then◌else◌, is_nil, length, text_eq, Map, lookup, insert, Result, ok, err, ◌>>=◌, ◌>>◌,
  fail_if,
}
use semantic_operator.Errors.{
  Error, unavailable, result_incomplete, result_too_large, execution_failed,
}
use semantic_operator.Api.{GovernanceSpec}
use semantic_operator.Governance.{Identity, Glob}
use semantic_operator.Governance.Claims.{Part, identity_key}
use semantic_operator.Emitter.{Dialect}
use semantic_operator.Planner.{CompiledModel}
use semantic_operator.Planner.Request.{Request}
use semantic_operator.Planner.Build.{Plan, build}
use semantic_operator.Serving.Limits.{Limits, with_defaults, apply}
use semantic_operator.Serving.Authorization.{
  Environment, Verdict, Registry, new_query_input, authorize_external, fingerprint,
}

-- `EngineCredential`
pub record Credential : Type 0 where
  pub token : Text
  pub engine_user : Text

-- A plan with its `AuthorizationFingerprint`, which `Plan` sets.
pub record Entry : Type 0 where
  pub plan : Plan
  pub authorization : Text

-- The columns and rows of a result; a row is its JSON text.
pub record Table : Type 0 where
  pub columns : List Text
  pub rows : List Text

pub record Caches : Type 0 where
  pub plans : Map Text
  pub results : Map Text

-- `QueryResult`, with what a caller can tell it by.
pub record QueryResult : Type 0 where
  pub table : Table
  pub entry : Entry
  pub cached_plan : Bool
  pub cached_result : Bool

-- What the service asks of other programs and libraries.
pub record World : Type 0 where
  pub registry : Option Registry
  pub reachable : Text → Bool
  pub compile : Text → Option Glob
  pub split_claims : Text → List Part
  pub sha256_hex : Text → Text
  pub sha256_short : Text → Text
  pub request_hash : Request → Text → Text
  pub scope_json : Text → Text → Verdict → Text
  pub plan_json : Entry → Option Text
  pub read_plan : Text → Option Entry
  pub table_json : Table → Option Text
  pub read_table : Text → Option Table
  pub engine : Credential → Text → Result Error Table

-- `PlanKey`
unfoldable pub plan_key : Text → Text → Text → Text → Text → Text
plan_key dialect model version hash authorization =
    codes "sl:plan:"
    ++ dialect
    ++ b':' ∷ model
    ++ b':' ∷ version
    ++ b':' ∷ hash
    ++ (if is_nil authorization then [] else codes ":authz:" ++ authorization)

-- `ResultKey`
unfoldable pub result_key : (Text → Text) → Text → Text → Text → Text → Text
result_key sha256_short model version sql scope =
    codes "sl:result:"
    ++ model
    ++ b':' ∷ version
    ++ b':' ∷ sha256_short (sql ++ (if is_nil scope then [] else 0 ∷ scope))

abbrev pub external_ref : Option GovernanceSpec → Option Text
external_ref none = none
external_ref (some g) = g.external

module _ (w : World) (limits : Limits) (d : Dialect) where
  -- A value that the cache server does not give counts as a miss, and one that it does not take is
  -- lost.
  unfoldable pub cached : Map Text → Text → Option Text
  unfolding lookup
  cached m key = if w.reachable key then lookup m key else none

  unfoldable pub store : Text → Option Text → Map Text → Map Text
  store key none m = m
  store key (some blob) m = if w.reachable key then insert key blob m else m

  -- The external decision, before any cache is read.
  unfoldable pub external_scope :
      CompiledModel → Request → Identity → Environment → Option Text → Result Error Text
  unfolding authorize_external new_query_input fingerprint
  external_scope m req id environment none = ok []
  external_scope m req id environment (some ref) = do
    verdict ← authorize_external w.registry ref (new_query_input m req id environment)
    ok (
        fingerprint w.sha256_hex w.scope_json ref (new_query_input m req id environment).identity
          verdict)

  abbrev pub key_of_plan : CompiledModel → Request → Identity → Text → Text
  key_of_plan m req id scope =
      plan_key d.name m.name m.version
        (w.request_hash req (identity_key w.compile w.sha256_hex m.governance id)) scope

  -- A plan from the cache counts if it was made under the same external decision.
  unfoldable pub usable : Text → Option Text → Option Entry
  unfolding text_eq
  usable scope none = none
  usable scope (some blob) = elim (w.read_plan blob) [
    | none ↦ none
    | some e ↦ if text_eq e.authorization scope then some e else none
  ]

  -- The result of `Build`, put into the cache.
  unfoldable pub fresh_plan :
      CompiledModel → Request → Identity → Text → Caches → Result Error (Entry × Bool × Caches)
  unfolding build store
  fresh_plan m req id scope c = do
    p ← build w.compile w.split_claims w.sha256_hex w.request_hash m d req id
    ok (
      record { plan = p; authorization = scope },
      false,
      record c {
        plans =
            store (key_of_plan m req id scope)
              (w.plan_json (record { plan = p; authorization = scope })) c.plans;
      },
    )

  -- `Service.Plan`; the flag says that a row limit is negative.
  unfoldable pub plan :
      Bool
      → CompiledModel
      → Request
      → Identity
      → Environment
      → Caches
      → Result Error (Entry × Bool × Caches)
  unfolding apply external_scope cached usable fresh_plan
  plan negative m req₀ id environment c = do
    req ← apply limits negative req₀
    scope ← external_scope m req id environment (external_ref m.governance)
    elim (usable scope (cached c.plans (key_of_plan m req id scope))) [
      | some e ↦ ok (e, true, c)
      | none ↦ fresh_plan m req id scope c
    ]

  abbrev pub is_static : Credential → Bool
  is_static cred = is_nil cred.token

  -- No result is cached for a passthrough credential without a user to tell it by.
  unfoldable pub cacheable : Credential → Bool
  cacheable cred = if is_static cred then true else not (is_nil cred.engine_user)

  unfoldable pub result_scope : Text → Credential → Text
  result_scope authorization cred =
      if is_static cred
      then authorization
      else if is_nil cred.engine_user
      then authorization
      else authorization ++ 0 ∷ codes "engine:" ++ cred.engine_user

  abbrev pub key_of_result : CompiledModel → Entry → Credential → Text
  key_of_result m e cred =
      result_key w.sha256_short m.name m.version e.plan.sql (result_scope e.authorization cred)

  -- A query without a limit of its own is refused where there are more rows than the default.
  abbrev pub incomplete : Request → Table → Bool
  incomplete req t = req.limit == 0 && ltb (with_defaults limits).default_row_limit (length t.rows)

  unfoldable pub cached_table : CompiledModel → Entry → Credential → Caches → Option Table
  unfolding cacheable cached result_key result_scope
  cached_table m e cred c =
      if cacheable cred
      then elim (cached c.results (key_of_result m e cred)) [
        | none ↦ none
        | some blob ↦ w.read_table blob
      ]
      else none

  -- `marshalErr == nil && len(blob) > n`: a result without a JSON form has no size to bound.
  abbrev pub exceeds : ℕ → Option Text → Bool
  exceeds n none = false
  exceeds n (some blob) = ltb n (length blob)

  -- The results after a query that the engine answered.
  unfoldable pub store_result : CompiledModel → Entry → Credential → Option Text → Caches → Caches
  unfolding store cacheable result_key result_scope
  store_result m e cred blob c =
      if cacheable cred && not (exceeds (with_defaults limits).max_cache_entry_bytes blob)
      then record c { results = store (key_of_result m e cred) blob c.results }
      else c

  unfoldable pub execute :
      CompiledModel
      → Request
      → Credential
      → Entry
      → Bool
      → Caches
      → Result Error (QueryResult × Caches)
  unfolding store_result
  execute m req cred e cached_plan c = elim (w.engine cred e.plan.sql) [
    | err failure ↦ err (execution_failed failure)
    | ok t ↦ do
      fail_if (incomplete req t) result_incomplete
      fail_if (exceeds (with_defaults limits).max_result_bytes (w.table_json t)) result_too_large
      ok (
        record { table = t; entry = e; cached_plan = cached_plan; cached_result = false },
        store_result m e cred (w.table_json t) c,
      )
  ]

  -- What follows the planning in `Query`.
  unfoldable pub answer :
      CompiledModel
      → Request
      → Credential
      → Entry
      → Bool
      → Caches
      → Result Error (QueryResult × Caches)
  unfolding cached_table execute
  answer m req cred e cached_plan c = elim (cached_table m e cred c) [
    | some t ↦ do
      fail_if (incomplete req t) result_incomplete
      ok (record { table = t; entry = e; cached_plan = cached_plan; cached_result = true }, c)
    | none ↦ execute m req cred e cached_plan c
  ]

  -- `Service.Query`
  unfoldable pub query :
      Bool
      → CompiledModel
      → Request
      → Identity
      → Environment
      → Credential
      → Caches
      → Result Error (QueryResult × Caches)
  unfolding plan answer
  query negative m req id environment cred c = do
    (e, cached_plan, after) ← plan negative m req id environment c
    answer m req cred e cached_plan after
