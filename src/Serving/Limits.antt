-- ===== src/Serving/Limits.antt =====
-- internal/serving/limits.go: the bounds of a request. A bound that is not positive is unset, and
-- is 0 here; whether the request's limit is negative is an argument of its own.
pub mod Bounded
mod Tests
use semantic_operator.Prelude.{
  Text, ℕ, suc, ◌+◌, ◌*◌, Bool, List, [], ◌∷◌, if◌then◌else◌, ◌==◌, ltb, length, Result, ok, err,
  ◌>>=◌, ◌>>◌, fail_if,
}
use semantic_operator.Errors.{
  Error, too_many_metrics, too_many_dimensions, too_many_filters, too_many_values, negative_limit,
  limit_exceeded,
}
use semantic_operator.Planner.Request.{Request, Filter}

pub record Limits : Type 0 where
  pub default_row_limit : ℕ
  pub max_row_limit : ℕ
  pub max_metrics : ℕ
  pub max_dimensions : ℕ
  pub max_filters : ℕ
  pub max_filter_values : ℕ
  pub max_result_bytes : ℕ
  pub max_cache_entry_bytes : ℕ
  pub max_request_bytes : ℕ
  pub max_concurrent_queries : ℕ

abbrev pub default_limits : Limits
default_limits = record {
  default_row_limit = 1000;
  max_row_limit = 10000;
  max_metrics = 25;
  max_dimensions = 25;
  max_filters = 50;
  max_filter_values = 1000;
  max_result_bytes = 32 * 1048576;
  max_cache_entry_bytes = 8 * 1048576;
  max_request_bytes = 1048576;
  max_concurrent_queries = 4;
}

unfoldable pub or_default : ℕ → ℕ → ℕ
or_default n d = if n == 0 then d else n

unfoldable pub at_most : ℕ → ℕ → ℕ
at_most n bound = if ltb bound n then bound else n

-- `withDefaults`
unfoldable pub with_defaults : Limits → Limits
unfolding or_default at_most
with_defaults l = record {
  default_row_limit = or_default l.default_row_limit default_limits.default_row_limit;
  max_row_limit = or_default l.max_row_limit default_limits.max_row_limit;
  max_metrics = or_default l.max_metrics default_limits.max_metrics;
  max_dimensions = or_default l.max_dimensions default_limits.max_dimensions;
  max_filters = or_default l.max_filters default_limits.max_filters;
  max_filter_values = or_default l.max_filter_values default_limits.max_filter_values;
  max_result_bytes = or_default l.max_result_bytes default_limits.max_result_bytes;
  max_cache_entry_bytes =
      at_most (or_default l.max_cache_entry_bytes default_limits.max_cache_entry_bytes)
        (or_default l.max_result_bytes default_limits.max_result_bytes);
  max_request_bytes = or_default l.max_request_bytes default_limits.max_request_bytes;
  max_concurrent_queries =
      or_default l.max_concurrent_queries default_limits.max_concurrent_queries;
}

-- The loop on the filters.
unfoldable pub check_values : ℕ → List Filter → Result Error (Unit {0})
check_values bound [] = ok tt
check_values bound (f ∷ filters) = do
  fail_if (ltb bound (length f.values)) (too_many_values f.field)
  check_values bound filters

-- The switch on the limit.
unfoldable pub row_limit : Limits → ℕ → Result Error ℕ
row_limit l n =
    if n == 0
    then ok (suc l.default_row_limit)
    else if ltb l.max_row_limit n
    then err limit_exceeded
    else ok n

unfoldable pub check : Limits → Bool → Request → Result Error Request
check l negative req = do
  fail_if (ltb l.max_metrics (length req.metrics)) too_many_metrics
  fail_if (ltb l.max_dimensions (length req.dimensions)) too_many_dimensions
  fail_if (ltb l.max_filters (length req.filters + length req.metric_filters)) too_many_filters
  check_values l.max_filter_values req.filters
  fail_if negative negative_limit
  n ← row_limit l req.limit
  ok (record req { limit = n })

-- `apply`
unfoldable pub apply : Limits → Bool → Request → Result Error Request
unfolding check
apply l negative req = check (with_defaults l) negative req
