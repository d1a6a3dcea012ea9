-- ===== src/Serving/Limiter/InFlight.antt =====
-- How many handlers run at once, and how the requests come to their end.
use mathlib.Core.Path.{subst}
use semantic_operator.Prelude.{
  ℕ, zero, suc, ◌+◌, ◌≤◌, List, [], ◌∷◌, ◌++◌, map, ◌≡◌, refl, sym, arith, append_assoc,
}
use semantic_operator.Serving.Limiter.{
  Phase, waiting, running, served, refused, cancelled, Limiter, new_limiter, capacity, Step, arrive,
  acquire, time_out, give_up, finish, Steps, stay, then,
}

slot : Phase → ℕ
slot waiting = 0
slot running = 1
slot served = 0
slot refused = 0
slot cancelled = 0

-- How many handlers run.
unfoldable pub handlers : List Phase → ℕ
unfolding slot
handlers [] = 0
handlers (p ∷ ps) = slot p + handlers ps

handlers-append : (ps qs : List Phase) → handlers (ps ++ qs) ≡ handlers ps + handlers qs
unfolding handlers
handlers-append [] qs = omega arith
handlers-append (p ∷ ps) qs = omega (arith, handlers-append ps qs)

abbrev pub IsBounded : ℕ → Limiter → Type 0
IsBounded n s = (s.in_flight ≡ handlers s.requests) × (s.in_flight ≤ n)

Step-IsBounded : {n : ℕ} {s t : Limiter} → Step n s t → IsBounded n s → IsBounded n t
unfolding handlers slot
Step-IsBounded (arrive requests k) h = omega arith
Step-IsBounded (acquire before after k l) h =
    omega
      (arith, handlers-append before (waiting ∷ after), handlers-append before (running ∷ after))
Step-IsBounded (time_out before after k) h =
    omega
      (arith, handlers-append before (waiting ∷ after), handlers-append before (refused ∷ after))
Step-IsBounded (give_up before after k) h =
    omega
      (arith, handlers-append before (waiting ∷ after), handlers-append before (cancelled ∷ after))
Step-IsBounded (finish before after k) h =
    omega (arith, handlers-append before (running ∷ after), handlers-append before (served ∷ after))

Steps-IsBounded : {n : ℕ} {s t : Limiter} → Steps n s t → IsBounded n s → IsBounded n t
Steps-IsBounded stay h = h
Steps-IsBounded (then st more) h = Steps-IsBounded more (Step-IsBounded st h)

-- In every interleaving of the requests, the slots taken are as many as the handlers that run, and
-- no more than the capacity.
pub in_flight_bounded :
    (n : ℕ) (s : Limiter)
    → Steps (capacity n) new_limiter s
    → (s.in_flight ≡ handlers s.requests) × (s.in_flight ≤ capacity n)
unfolding handlers
in_flight_bounded n s r = Steps-IsBounded r (refl, omega arith)

-- What the server alone makes of a request: one that waits is refused, a handler that runs is served,
-- and what is over stays as it is.
abbrev pub settled : Phase → Phase
settled waiting = refused
settled running = served
settled served = served
settled refused = refused
settled cancelled = cancelled

-- Some steps lead from the state to the one with these requests and every slot free.
abbrev Drains : ℕ → Limiter → List Phase → Type 0
Drains n s ps = Steps n s (record { requests = ps; in_flight = 0 })

module _ (n : ℕ) where
  abbrev state : List Phase → ℕ → Limiter
  state ps k = record { requests = ps; in_flight = k }

  regroup :
      (before : List Phase) (q : Phase) (after : List Phase) (k : ℕ)
      → Drains n (state ((before ++ q ∷ []) ++ after) k) ((before ++ q ∷ []) ++ map settled after)
      → Drains n (state (before ++ q ∷ after) k) (before ++ q ∷ map settled after)
  regroup before q after k d =
      subst (λ ps. Drains n (state (before ++ q ∷ after) k) ps)
        (append_assoc before (q ∷ []) (map settled after))
        (subst (λ ps. Drains n (state ps k) ((before ++ q ∷ []) ++ map settled after))
          (append_assoc before (q ∷ []) after) d)

  drain :
      (before after : List Phase) (k : ℕ)
      → k ≡ handlers after
      → Drains n (state (before ++ after) k) (before ++ map settled after)
  unfolding handlers slot
  drain before [] k e = subst (λ j. Drains n (state (before ++ []) j) (before ++ [])) (sym e) stay
  drain before (waiting ∷ after) k e =
      then (time_out before after k)
        (regroup before refused after k (drain (before ++ refused ∷ []) after k (omega arith)))
  drain before (running ∷ after) zero e = absurd (omega arith)
  drain before (running ∷ after) (suc k) e =
      then (finish before after k)
        (regroup before served after k (drain (before ++ served ∷ []) after k (omega arith)))
  drain before (served ∷ after) k e =
      regroup before served after k (drain (before ++ served ∷ []) after k (omega arith))
  drain before (refused ∷ after) k e =
      regroup before refused after k (drain (before ++ refused ∷ []) after k (omega arith))
  drain before (cancelled ∷ after) k e =
      regroup before cancelled after k (drain (before ++ cancelled ∷ []) after k (omega arith))

-- From every state that the requests can bring about, further steps lead to the one where each
-- request that waited is refused, each handler that ran has finished, and every slot is free: no slot
-- is lost. And in every such state, each request that waits can be refused at once, in one step that
-- changes nothing else: it depends neither on its caller nor on other requests.
pub in_flight_drains :
    (n : ℕ) (s : Limiter)
    → Steps (capacity n) new_limiter s
    → Steps (capacity n) s (record { requests = map settled s.requests; in_flight = 0 })
      × ((before after : List Phase)
          → s.requests ≡ before ++ waiting ∷ after
          → Step
              (capacity n)
              s
              (record { requests = before ++ refused ∷ after; in_flight = s.in_flight }))
in_flight_drains n s r =
    let (e, _) = in_flight_bounded n s r in
    (
      drain (capacity n) [] s.requests s.in_flight e,
      λ before after q.
          subst
            (λ ps.
              Step (capacity n) (record { requests = ps; in_flight = s.in_flight })
                (record { requests = before ++ refused ∷ after; in_flight = s.in_flight }))
            (sym q) (time_out before after s.in_flight),
    )
