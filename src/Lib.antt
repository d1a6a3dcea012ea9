-- ===== src/Lib.antt =====
-- Verification of the semantic operator: how a semantic query becomes one SQL statement.
--
-- The program publishes semantic models (datasets, relationships, metrics, policies) and compiles
-- requests against them. A model is compiled once (`Compile`); a request is resolved against it,
-- authorized, given a join tree, and rendered through a SQL dialect (`Build`).
--
-- Files and code:
--   Prelude         the names, lists, texts, sorting, results and maps that the others share. A text
--                   is the list of its bytes. A Go map is an association list, the latest entry
--                   first; an error result is `Result Error`.
--   Errors          one constructor for each `fmt.Errorf`, with the values its message names; the
--                   wrapping of an error with a position or a name is left out.
--   Api             api/v1alpha1: the resource's types, and the lookups of helpers.go.
--   Governance      internal/governance/governance.go: `PolicyRoles`, `Visible`, `Authorize` and its
--                   refusals; Governance/Claims: `ExpandClaims`, `IdentityDigest`, `IdentityKey`.
--                   Proofs in Roles, Grants, Visible, Authorize and Scope.
--   Emitter         internal/emitter: the dialects in Trino and Starrocks; Reader describes how an
--                   engine reads quoted text. Proofs in Quoting.
--   Expr            internal/planner/expr/expr.go: `ScanRefs`, `RewriteRefs`, `QualifyBareColumns`;
--                   Expr/Metric: the metric grammar (`Parse`). Proofs in Scan, References,
--                   WellFormed and Datasets.
--   Expr/Predicate  internal/planner/expr/predicate.go: the tokenizer and the parser of row-filter
--                   predicates. Grammar is the grammar of the comment, as a relation. Proofs in Sound,
--                   Complete, Accepted, Bounded and Outside.
--   Planner         internal/planner/model.go: the compiled model; Planner/Compile: `Compile`. Proofs in
--                   Compile/Compiled.
--   Planner/Joins   internal/planner/plan_sql.go: `joinTree` and `reach`. Proofs in Tree (what a
--                   join tree is), Searching, Climbing, Exhaustive and Correct.
--   Planner/Request internal/planner/plan.go: the request and the resolution of its names. Proofs in
--                   OrderBy and MetricFilters.
--   Planner/Render, Planner/Queries, Planner/Composite
--                   internal/planner/plan_sql.go: the SQL text, from the pieces to the statements.
--   Planner/Build   internal/planner/plan.go: `Build`. Proofs in Reads, Gate, RowFilters and
--                   Partitioned.
--   Ossie           internal/ossie/validate.go: `ValidateSpec`, as the list of the problems it adds, in
--                   Ossie and Ossie/Validate; Ossie/Cycles: `findCycle`. Proofs in the modules below.
--   Serving/Limits  internal/serving/limits.go: the bounds that a request passes before it is planned.
--                   Proofs in Bounded.
--   Serving/Store   internal/serving/store.go: the published models, and what the informer does to
--                   them. Proofs in Entries and Exact.
--   Serving/Authorization
--                   internal/serving/authorization/authorization.go: the registry of policy providers.
--                   Proofs in Asked and Decided.
--   Serving/Query   internal/serving/service.go: `Plan` and `Query`; internal/cache/cache.go: the keys.
--                   Proofs in Served, Answered and Complete.
--   Serving/Views   internal/serving/views/views.go: the DDL of views, and their publication. Proofs in
--                   Declared.
--   Serving/Limiter internal/serving/limiter.go: the requests in flight, as a step relation. Proofs in
--                   InFlight.
--
-- A function keeps the source's name in snake case. A loop is a recursion on the list it walks. A
-- loop on positions or on a queue is a recursion on fuel: the scans of a scalar have the length of
-- the text, since a round consumes a byte; the breadth-first search has one round more than there
-- are relationships, since a round takes one dataset off the queue and a dataset is put on it once;
-- the climb to the root has the number of discovered edges; the depth-first search has one more than
-- the nodes, since a node is entered once; a predicate has the length of its text, and its parser the
-- number of its tokens, since a parenthesis takes one. Where a closure keeps the first error,
-- the model makes a pass over the same items before it. A nil dereference or an index out of range
-- is the error `panicked`.
--
-- Parameters: the glob library, the regular expressions of a claim placeholder and of a provider's
-- name, SHA-256 with its hexadecimal form, the hash of a request and the version of a spec (both
-- hash a JSON form), the other JSON forms, the order of a map's keys, policy providers, the engine,
-- and whether the cache server answers. A float is what the code asks `math` and `strconv` for.
--
-- Not modelled: the Kubernetes controller, the servers and their protocols,
-- authentication and the clients of policy servers, database clients and catalogs. The
-- vendored MySQL driver, generated code and commands stay outside.
pub mod Prelude
pub mod Errors
pub mod Api
pub mod Governance
pub mod Expr
pub mod Emitter
pub mod Planner
pub mod Ossie
pub mod Serving
