-- ===== src/Serving/Query/Tests.antt =====
-- Runs of a query, and instances of the theorems on plans and answers.
use semantic_operator.Prelude.{true, false, [], ◌∷◌, codes, none, some, ok, ◌≡◌, refl}
use semantic_operator.Emitter.Trino.{trino}
use semantic_operator.Governance.{no_identity}
use semantic_operator.Planner.{CompiledModel}
use semantic_operator.Planner.Request.{Request}
use semantic_operator.Serving.Limits.{Limits, with_defaults, apply, check_values, row_limit}
use semantic_operator.Serving.Authorization.{Environment, Registry, Verdict}
use semantic_operator.Serving.Query.{
  Credential, Entry, Table, Caches, QueryResult, World, plan_key, plan, query, result_key,
  result_scope,
}
use semantic_operator.Serving.Query.Served.{IsScoped, plan-IsScoped}
use semantic_operator.Serving.Query.Complete.{IsComplete, query-IsComplete}

abbrev unset : Limits
unset = record {
  default_row_limit = 2;
  max_row_limit = 0;
  max_metrics = 0;
  max_dimensions = 0;
  max_filters = 0;
  max_filter_values = 0;
  max_result_bytes = 0;
  max_cache_entry_bytes = 0;
  max_request_bytes = 0;
  max_concurrent_queries = 0;
}

abbrev model : CompiledModel
model = record {
  name = codes "m";
  version = codes "1";
  namespace = codes "ns";
  resource = codes "cr";
  connection = record { catalog = []; database = []; view_database = [] };
  datasets = [];
  dataset_order = [];
  relationships = [];
  metrics = [];
  metric_order = [];
  governance = some (record { default_role = []; roles = []; external = some (codes "opa") });
}

abbrev total : Request
total = record {
  model = [];
  metrics = codes "total" ∷ [];
  dimensions = [];
  filters = [];
  metric_filters = [];
  time_grain = [];
  order_by = [];
  limit = 0;
}

abbrev environment : Environment
environment = record { access_time = 0; adapter = codes "rest" }

abbrev entry : Entry
entry = record {
  plan = record {
    sql = codes "SELECT 1";
    model = codes "m";
    model_version = codes "1";
    request_hash = codes "h";
    role = [];
    columns = [];
  };
  authorization = codes "f";
}

abbrev verdict : Verdict
verdict = record { allow = true; revision = codes "7" }

abbrev one_row : Table
one_row = record { columns = codes "c" ∷ []; rows = codes "1" ∷ [] }

abbrev registry : Registry
registry = (codes "opa", λ input. ok verdict) ∷ []

abbrev world : World
world = record {
  registry = some registry;
  reachable = λ key. true;
  compile = λ pattern. none;
  split_claims = λ pred. [];
  sha256_hex = λ s. codes "f";
  sha256_short = λ s. s;
  request_hash = λ req key. codes "h";
  scope_json = λ ref digest v. [];
  plan_json = λ e. none;
  read_plan = λ blob. some entry;
  table_json = λ t. some (codes "{}");
  read_table = λ blob. none;
  engine = λ cred sql. ok one_row;
}

abbrev bearer : Credential
bearer = record { token = codes "t"; engine_user = codes "ada" }

-- The plan is in the cache, and the result is not.
abbrev caches : Caches
caches = record { plans = (codes "sl:plan:trino:m:1:h:authz:f", codes "plan") ∷ []; results = [] }

plan_run :
    plan world unset trino false model total no_identity environment caches
    ≡ ok (entry, true, caches)
unfolding plan with_defaults check_values row_limit plan_key
plan_run = refl

plan-IsScoped_example :
    (limited : Request) × (apply unset false total ≡ ok limited)
    × IsScoped world unset trino model limited no_identity environment entry (codes "opa")
plan-IsScoped_example =
    plan-IsScoped world unset trino false model total no_identity environment caches entry true
      caches (codes "opa") refl plan_run

abbrev served : QueryResult
served = record { table = one_row; entry = entry; cached_plan = true; cached_result = false }

abbrev after : Caches
after = record caches {
  results =
      (
        result_key world.sha256_short (codes "m") (codes "1") (codes "SELECT 1")
            (result_scope world unset trino (codes "f") bearer),
        codes "{}",
      )
      ∷ [];
}

query_run :
    query world unset trino false model total no_identity environment bearer caches
    ≡ ok (served, after)
unfolding query with_defaults check_values row_limit plan_key result_key
query_run = refl

query-IsComplete_example : IsComplete world unset trino total bearer served
query-IsComplete_example =
    query-IsComplete world unset trino false model total no_identity environment bearer caches
      served after query_run
