-- ===== src/Serving/Limiter.antt =====
-- internal/serving/limiter.go: the bound on requests in flight. A state is what each request waits
-- for or does, and how many slots of the channel are taken; a step is one way that the `select` of
-- `Middleware` goes, or the deferred receive when the handler returns.
pub mod InFlight
mod Tests
use semantic_operator.Prelude.{ℕ, zero, suc, ◌+◌, ◌<◌, List, [], ◌∷◌, ◌++◌}
use semantic_operator.Serving.Limits.{Limits, default_limits}

-- A request waits for a slot, has its handler running, or is over: it was served, it got the
-- status 503 after the wait, or its caller gave up.
pub data Phase : Type 0 where
  waiting running served refused cancelled : Phase

pub record Limiter : Type 0 where
  pub requests : List Phase
  pub in_flight : ℕ

-- The capacity of the channel that `NewLimiter` makes; an n that is not positive is 0.
unfoldable pub capacity : ℕ → ℕ
capacity zero = default_limits.max_concurrent_queries
capacity (suc n) = suc n

abbrev pub new_limiter : Limiter
new_limiter = record { requests = []; in_flight = 0 }

-- One step of some request, with the others before and after it in the list.
pub data Step (n : ℕ) : Limiter → Limiter → Type 0 where
  arrive :
      (requests : List Phase) (k : ℕ)
      → Step n
          (record { requests = requests; in_flight = k })
          (record { requests = waiting ∷ requests; in_flight = k })
  acquire :
      (before after : List Phase) (k : ℕ)
      → k < n
      → Step n
          (record { requests = before ++ waiting ∷ after; in_flight = k })
          (record { requests = before ++ running ∷ after; in_flight = suc k })
  time_out :
      (before after : List Phase) (k : ℕ)
      → Step n
          (record { requests = before ++ waiting ∷ after; in_flight = k })
          (record { requests = before ++ refused ∷ after; in_flight = k })
  give_up :
      (before after : List Phase) (k : ℕ)
      → Step n
          (record { requests = before ++ waiting ∷ after; in_flight = k })
          (record { requests = before ++ cancelled ∷ after; in_flight = k })
  finish :
      (before after : List Phase) (k : ℕ)
      → Step n
          (record { requests = before ++ running ∷ after; in_flight = suc k })
          (record { requests = before ++ served ∷ after; in_flight = k })

pub data Steps (n : ℕ) : Limiter → Limiter → Type 0 where
  stay : {s : Limiter} → Steps n s s
  then : {s t u : Limiter} → Step n s t → Steps n t u → Steps n s u
