-- ===== src/Serving/Limits/Bounded.antt =====
-- internal/serving/limits.go: the limits in force, and accepted requests.
use semantic_operator.Prelude.{
  ℕ, suc, ◌+◌, ◌≤◌, ◌<◌, Bool, false, List, [], ◌∷◌, ltb, ◌==◌, length, ok, ok_injective, >>=-eq-ok,
  >>-eq-ok, fail_if-eq-ok, ◌≡◌, ◌⊎◌, inl, inr, refl, sym, arith, Elem, Bool-cases,
}
use mathlib.Core.Path.{subst}
use semantic_operator.Planner.Request.{Request, Filter}
use semantic_operator.Serving.Limits.{
  Limits, default_limits, or_default, at_most, with_defaults, check_values, row_limit, check, apply,
}

-- The limits in force: every bound is positive, and a cached entry fits the result bound.
pub record IsInForce (l : Limits) : Type 0 where
  pub rows : 0 < l.default_row_limit
  pub explicit : 0 < l.max_row_limit
  pub metrics : 0 < l.max_metrics
  pub dimensions : 0 < l.max_dimensions
  pub filters : 0 < l.max_filters
  pub values : 0 < l.max_filter_values
  pub result : 0 < l.max_result_bytes
  pub cached : 0 < l.max_cache_entry_bytes
  pub fits : l.max_cache_entry_bytes ≤ l.max_result_bytes
  pub body : 0 < l.max_request_bytes
  pub slots : 0 < l.max_concurrent_queries

or_default_positive : (n d : ℕ) → 0 < d → 0 < or_default n d
unfolding or_default
or_default_positive n d h = ground arith

at_most_positive : (n bound : ℕ) → 0 < n → 0 < bound → 0 < at_most n bound
unfolding at_most
at_most_positive n bound h k = ground arith

at_most_bound : (n bound : ℕ) → at_most n bound ≤ bound
unfolding at_most
at_most_bound n bound = ground arith

-- Whatever is unset, the limits in force are all positive, and a cached entry fits the result bound.
pub with_defaults-IsInForce : (l : Limits) → IsInForce (with_defaults l)
unfolding with_defaults
with_defaults-IsInForce l = record {
  rows = or_default_positive l.default_row_limit 1000 (omega arith);
  explicit = or_default_positive l.max_row_limit 10000 (omega arith);
  metrics = or_default_positive l.max_metrics 25 (omega arith);
  dimensions = or_default_positive l.max_dimensions 25 (omega arith);
  filters = or_default_positive l.max_filters 50 (omega arith);
  values = or_default_positive l.max_filter_values 1000 (omega arith);
  result = or_default_positive l.max_result_bytes default_limits.max_result_bytes (omega arith);
  cached =
      at_most_positive (or_default l.max_cache_entry_bytes default_limits.max_cache_entry_bytes)
        (or_default l.max_result_bytes default_limits.max_result_bytes)
        (or_default_positive l.max_cache_entry_bytes default_limits.max_cache_entry_bytes
          (omega arith))
        (or_default_positive l.max_result_bytes default_limits.max_result_bytes (omega arith));
  fits =
      at_most_bound (or_default l.max_cache_entry_bytes default_limits.max_cache_entry_bytes)
        (or_default l.max_result_bytes default_limits.max_result_bytes);
  body = or_default_positive l.max_request_bytes default_limits.max_request_bytes (omega arith);
  slots = or_default_positive l.max_concurrent_queries 4 (omega arith);
}

check_values_sound :
    (bound : ℕ) (filters : List Filter)
    → check_values bound filters ≡ ok tt
    → (f : Filter) → Elem f filters
    → length f.values ≤ bound
unfolding check_values
check_values_sound bound [] e f m = absurd m
check_values_sound bound (g ∷ filters) e f m =
    let (n, e1) = fail_if-eq-ok (ltb bound (length g.values)) _ _ e in
    elim m [ inl i ↦ rw i (ground arith) | inr k ↦ check_values_sound bound filters e1 f k ]

-- What the row limit of an accepted request is: the caller's, or one past the default.
abbrev pub IsRowLimit : Limits → ℕ → ℕ → Type 0
IsRowLimit l asked n =
    ((asked ≡ 0) × (n ≡ suc l.default_row_limit))
    ⊎ ((0 < asked) × (asked ≤ l.max_row_limit) × (n ≡ asked))

row_limit-IsRowLimit : (l : Limits) (asked n : ℕ) → row_limit l asked ≡ ok n → IsRowLimit l asked n
unfolding row_limit
row_limit-IsRowLimit l asked n e = elim (Bool-cases (asked == 0)) [
  | inl z ↦ inl (ground arith, sym (ok_injective _ n (rw (z, row_limit) at e)))
  | inr z ↦ elim (Bool-cases (ltb l.max_row_limit asked)) [
    | inl b ↦ absurd (cc (rw (z, b, row_limit) at e))
    | inr b ↦ inr (ground arith, ground arith, sym (ok_injective _ n (rw (z, b, row_limit) at e)))
  ]
]

-- An accepted request: only its limit may change, and everything in it is bounded.
pub record IsAccepted (l : Limits) (req out : Request) : Type 0 where
  pub same : out ≡ record req { limit = out.limit }
  pub limit : IsRowLimit l req.limit out.limit
  pub metrics : length req.metrics ≤ l.max_metrics
  pub dimensions : length req.dimensions ≤ l.max_dimensions
  pub filters : length req.filters + length req.metric_filters ≤ l.max_filters
  pub values : (f : Filter) → Elem f req.filters → length f.values ≤ l.max_filter_values

within : (n bound : ℕ) → ltb bound n ≡ false → n ≤ bound
within n bound e = ground arith

-- A request that the limits accept has no negative limit, is unchanged but for its row limit, which
-- is the caller's within the maximum or one past the default, and is within all bounds in force.
pub apply-IsAccepted :
    (l : Limits) (negative : Bool) (req out : Request)
    → apply l negative req ≡ ok out
    → (negative ≡ false) × IsAccepted (with_defaults l) req out
unfolding apply check
apply-IsAccepted l negative req out e =
    let b = with_defaults l in
    let (m, e1) = fail_if-eq-ok (ltb b.max_metrics (length req.metrics)) _ _ e in
    let (d, e2) = fail_if-eq-ok (ltb b.max_dimensions (length req.dimensions)) _ _ e1 in
    let (f, e3) =
      fail_if-eq-ok (ltb b.max_filters (length req.filters + length req.metric_filters)) _ _ e2 in
    let (v, e4) = >>-eq-ok (check_values b.max_filter_values req.filters) _ e3 in
    let (p, e5) = fail_if-eq-ok negative _ _ e4 in
    let (n, r, e6) = >>=-eq-ok (row_limit b req.limit) _ e5 in
    (
      p,
      subst (IsAccepted b req) (ok_injective _ out e6) (record {
        same = refl;
        limit = row_limit-IsRowLimit b req.limit n r;
        metrics = within (length req.metrics) b.max_metrics m;
        dimensions = within (length req.dimensions) b.max_dimensions d;
        filters = within (length req.filters + length req.metric_filters) b.max_filters f;
        values = check_values_sound b.max_filter_values req.filters v;
      }),
    )
