-- ===== src/Serving/Views.antt =====
-- internal/serving/views/views.go: the DDL of governed views, and their publication. The engine is a
-- test of a statement after those that ran; reading a number from a text is a parameter.
pub mod Declared
mod Tests
use semantic_operator.Prelude.{
  Text, Bool, true, false, not, List, [], ◌∷◌, ◌++◌, map, Option, none, some, codes, if◌then◌else◌,
  is_nil, text_eq, Result, ok, err, ◌>>=◌,
}
use semantic_operator.Prelude.Strings.{join}
use semantic_operator.Errors.{Error, engine_failed}
use semantic_operator.Api.{ViewSpec, ViewFilter}
use semantic_operator.Emitter.{Dialect, Value, string, null}
use semantic_operator.Governance.{Glob, single}
use semantic_operator.Governance.Claims.{Part}
use semantic_operator.Planner.{CompiledModel}
use semantic_operator.Planner.Compile.{split_first}
use semantic_operator.Planner.Request.{Request, Filter}
use semantic_operator.Planner.Build.{Plan, build}

abbrev pub default_database : Text
default_database = codes "semantic_views"

abbrev pub database_or_default : Text → Text
database_or_default database = if is_nil database then default_database else database

-- `quoteDotted`
unfoldable pub quote_dotted : Dialect → Text → Text
unfolding split_first join
quote_dotted d name =
    join (codes ".") (map d.quote_ident ((split_first name).0 ∷ (split_first name).1))

-- `coerce`; `read_number` tries an integer, then a float.
unfoldable pub coerce : (Text → Option Value) → Text → Text → Value
unfolding text_eq
coerce read_number s type =
    if text_eq type (codes "string")
    then string s
    else elim (read_number s) [ some v ↦ v | none ↦ string s ]

-- A value that is not set is nil.
unfoldable pub view_filter : (Text → Option Value) → ViewFilter → Filter
unfolding coerce
view_filter read_number f =
    if is_nil f.values
    then record {
      field = f.field;
      op = f.op;
      value = coerce read_number f.value f.value_type;
      values = [];
    }
    else record {
      field = f.field;
      op = f.op;
      value = null;
      values = map (λ (s : Text). coerce read_number s f.value_type) f.values;
    }

unfoldable pub view_request : (Text → Option Value) → ViewSpec → Request
unfolding view_filter
view_request read_number v = record {
  model = [];
  metrics = v.metrics;
  dimensions = v.dimensions;
  filters = map (view_filter read_number) v.filters;
  metric_filters = [];
  time_grain = v.time_grain;
  order_by = [];
  limit = 0;
}

abbrev pub view_role : Text → ViewSpec → Text
view_role default_role v = if is_nil v.role then default_role else v.role

-- What became of a publication: the names of the views that were created, the statements that ran,
-- and the error if there was one.
pub record Publication : Type 0 where
  pub created : List Text
  pub ran : List Text
  pub failure : Option Error

module _ (compile : Text → Option Glob) (split_claims : Text → List Part) (sha256_hex : Text → Text)
    (request_hash : Request → Text → Text) (read_number : Text → Option Value) (cm : CompiledModel)
    (d : Dialect) where
  -- `BuildViewSQL`
  unfoldable pub build_view_sql : ViewSpec → Text → Text → Result Error Text
  unfolding build view_request quote_dotted single
  build_view_sql v database default_role = do
    p ←
        build compile split_claims sha256_hex request_hash cm d (view_request read_number v)
          (single (view_role default_role v))
    ok (
        codes "CREATE OR REPLACE VIEW "
        ++ quote_dotted d database
        ++ b'.' ∷ d.quote_ident v.name
        ++ codes " AS\n"
        ++ p.sql)

  module _ (accepts : List Text → Text → Bool) (database default_role : Text) where
    -- The loop of `Publish`, after the views created and the statements run before.
    unfoldable pub publish_views : List ViewSpec → List Text → List Text → Publication
    unfolding build_view_sql
    publish_views [] created ran = record { created = created; ran = ran; failure = none }
    publish_views (v ∷ vs) created ran = elim (build_view_sql v database default_role) [
      | err e ↦ record { created = created; ran = ran; failure = some e }
      | ok ddl ↦ elim (accepts ran ddl) [
        | false ↦ record { created = created; ran = ran; failure = some (engine_failed v.name) }
        | true ↦ publish_views vs (created ++ v.name ∷ []) (ran ++ ddl ∷ [])
      ]
    ]

  -- `Publish`
  unfoldable pub publish : (List Text → Text → Bool) → List ViewSpec → Text → Text → Publication
  unfolding publish_views quote_dotted
  publish accepts [] database default_role = record { created = []; ran = []; failure = none }
  publish accepts (v ∷ vs) database default_role =
      let schema = d.create_schema (quote_dotted d (database_or_default database)) in
      elim (accepts [] schema) [
        | false ↦ record {
          created = [];
          ran = [];
          failure = some (engine_failed (database_or_default database));
        }
        | true ↦
            publish_views accepts (database_or_default database) default_role (v ∷ vs) []
              (schema ∷ [])
      ]

  -- `Drop`: the names that the engine refused to drop, and the statements that ran.
  unfoldable pub drop_views :
      (List Text → Text → Bool) → Text → List Text → List Text → List Text × List Text
  unfolding quote_dotted
  drop_views accepts database [] ran = ([], ran)
  drop_views accepts database (n ∷ names) ran =
      let ddl =
        codes "DROP VIEW IF EXISTS "
        ++ quote_dotted d (database_or_default database)
        ++ b'.' ∷ d.quote_ident n in
      elim (accepts ran ddl) [
        | true ↦ drop_views accepts database names (ran ++ ddl ∷ [])
        | false ↦
            let (refused, after) = drop_views accepts database names ran in (n ∷ refused, after)
      ]
