-- ===== src/Serving/Limiter/Tests.antt =====
-- Instances of the limiter's theorems.
use semantic_operator.Prelude.{◌≤◌, List, [], ◌∷◌, ◌++◌, ◌≡◌, refl, arith}
use semantic_operator.Serving.Limits.{default_limits}
use semantic_operator.Serving.Limiter.{
  Phase, waiting, running, served, refused, Limiter, Step, new_limiter, capacity, arrive, acquire,
  Steps, stay, then,
}
use semantic_operator.Serving.Limiter.InFlight.{handlers, in_flight_bounded, in_flight_drains}

default_capacity : capacity 0 ≡ default_limits.max_concurrent_queries
unfolding capacity
default_capacity = refl

-- Two requests and one slot: the second still waits.
abbrev busy : Limiter
busy = record { requests = waiting ∷ running ∷ []; in_flight = 1 }

busy-Steps : Steps (capacity 1) new_limiter busy
unfolding capacity
busy-Steps =
    then (arrive [] 0) (then (acquire [] [] 0 (omega arith)) (then (arrive (running ∷ []) 1) stay))

in_flight_bounded_example : (1 ≡ handlers (waiting ∷ running ∷ [])) × (1 ≤ capacity 1)
in_flight_bounded_example = in_flight_bounded 1 busy busy-Steps

in_flight_drains_example :
    Steps (capacity 1) busy (record { requests = refused ∷ served ∷ []; in_flight = 0 })
    × ((before after : List Phase)
        → busy.requests ≡ before ++ waiting ∷ after
        → Step (capacity 1) busy (record { requests = before ++ refused ∷ after; in_flight = 1 }))
in_flight_drains_example = in_flight_drains 1 busy busy-Steps
