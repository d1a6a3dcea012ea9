-- ===== src/Serving/Limits/Tests.antt =====
-- Runs of the limits, and instances of their theorems.
use semantic_operator.Prelude.{false, [], ◌∷◌, codes, ok, err, ◌≡◌, refl}
use semantic_operator.Errors.{limit_exceeded, too_many_metrics}
use semantic_operator.Planner.Request.{Request}
use semantic_operator.Serving.Limits.{
  Limits, with_defaults, or_default, at_most, apply, check, check_values, row_limit,
}
use semantic_operator.Serving.Limits.Bounded.{
  IsInForce, IsAccepted, with_defaults-IsInForce, apply-IsAccepted,
}

-- A configuration that sets three bounds.
abbrev small : Limits
small = record {
  default_row_limit = 5;
  max_row_limit = 20;
  max_metrics = 1;
  max_dimensions = 0;
  max_filters = 0;
  max_filter_values = 0;
  max_result_bytes = 0;
  max_cache_entry_bytes = 0;
  max_request_bytes = 0;
  max_concurrent_queries = 0;
}

abbrev unlimited : Request
unlimited = record {
  model = [];
  metrics = codes "total" ∷ [];
  dimensions = [];
  filters = [];
  metric_filters = [];
  time_grain = [];
  order_by = [];
  limit = 0;
}

probe_run : apply small false unlimited ≡ ok (record unlimited { limit = 6 })
unfolding apply with_defaults check check_values row_limit or_default at_most
probe_run = refl

large_run : apply small false (record unlimited { limit = 21 }) ≡ err limit_exceeded
unfolding apply with_defaults check check_values row_limit or_default at_most
large_run = refl

many_run :
    apply small false (record unlimited { metrics = codes "a" ∷ codes "b" ∷ [] })
    ≡ err too_many_metrics
unfolding apply with_defaults check check_values row_limit or_default at_most
many_run = refl

with_defaults-IsInForce_example : IsInForce (with_defaults small)
with_defaults-IsInForce_example = with_defaults-IsInForce small

apply-IsAccepted_example :
    (false ≡ false) × IsAccepted (with_defaults small) unlimited (record unlimited { limit = 6 })
apply-IsAccepted_example =
    apply-IsAccepted small false unlimited (record unlimited { limit = 6 }) probe_run
