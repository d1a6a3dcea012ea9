-- ===== src/Errors.antt =====
-- The errors of the planning and serving path. A constructor stands for one `fmt.Errorf` of the
-- source and carries the values that the message names; `errors.Is` is a test on constructors.
use semantic_operator.Prelude.{ℕ, Text, List, Bool, true, false}

-- What stops one policy from authorizing a request (`blocker` of internal/governance).
pub data Blocker : Type 0 where
  metric field : Text → Blocker
  request : Blocker

pub data Error : Type 0 where
  -- internal/governance
  no_policy : List Text → Error
  refused_by : Text → Blocker → Error
  refused : List (Text × Blocker) → Error
  bad_pattern : Text → Text → Error
  missing_claim : Text → Error
  claim_literal : Text → Error → Error
  malformed_template : Error
  unsupported_literal : Error
  -- internal/planner/expr
  bare_identifier expected_aggregate : Text → Error
  expected_byte unexpected_byte : ℕ → Error
  unbalanced trailing_input : Error
  empty_argument no_reference : Text → Error
  -- internal/planner
  empty_requirement not_qualified : Error
  no_join_path : List Text → Error
  unknown_dataset unknown_field : Text → Error
  unknown_metric : Text → List Text → Error
  not_requested rejects_value needs_two_values : Text → Error
  needs_value rejects_values bad_operator : Text → Text → Error
  not_finite null_value unsupported_value : Error
  not_dimension bad_grain no_time_dimension : Text → Error
  not_ordered ambiguous_order repeated_order : Text → Error
  bad_direction : Text → Text → Error
  bad_source no_expression : Text → Error
  no_metrics : Error
  other_model : Text → Text → Error
  unknown_row_filter outside_tree needs_values no_primary_key : Text → Error
  several_datasets : Text → Text → Error
  -- internal/serving: `ErrRequestTooLarge`
  too_many_metrics too_many_dimensions too_many_filters negative_limit limit_exceeded : Error
  too_many_values : Text → Error
  -- internal/serving and internal/serving/authorization
  result_incomplete result_too_large canceled bad_provider_name nil_provider nil_registry : Error
  unavailable denied_by repeated_provider engine_failed : Text → Error
  execution_failed : Error → Error
  -- A nil dereference or an index out of range.
  panicked : Error

-- `errors.Is(err, governance.ErrUnauthorized)`
unfoldable pub is_unauthorized : Error → Bool
is_unauthorized (no_policy _) = true
is_unauthorized (refused_by _ _) = true
is_unauthorized (refused _) = true
is_unauthorized (missing_claim _) = true
is_unauthorized (denied_by _) = true
is_unauthorized _ = false

-- `errors.Is(err, authorization.ErrUnavailable)`
unfoldable pub is_unavailable : Error → Bool
is_unavailable (unavailable _) = true
is_unavailable _ = false
