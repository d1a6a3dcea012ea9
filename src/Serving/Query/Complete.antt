-- ===== src/Serving/Query/Complete.antt =====
-- How many rows an answer has, and what the cache of results holds.
use mathlib.Core.Path.{subst}
use mathlib.Core.Option.{some-injective}
use semantic_operator.Prelude.{
  Text, ℕ, ◌≤◌, Bool, true, false, not, ◌&&◌, ◌==◌, ltb, List, [], ◌∷◌, if◌then◌else◌, is_nil, ◌≢◌,
  Option, none, some, length, ok, ◌≡◌, ◌⊎◌, inl, inr, refl, arith, All,
}
use semantic_operator.Governance.{Identity}
use semantic_operator.Emitter.{Dialect}
use semantic_operator.Planner.{CompiledModel}
use semantic_operator.Planner.Request.{Request}
use semantic_operator.Serving.Limits.{Limits, with_defaults}
use semantic_operator.Serving.Authorization.{Environment}
use semantic_operator.Serving.Query.{
  Credential, Caches, QueryResult, World, cacheable, exceeds, query,
}
use semantic_operator.Serving.Query.Answered.{IsChecked, query_ok}

module _ (w : World) (limits : Limits) (d : Dialect) where
  -- Every result in the cache is within the bound on an entry.
  abbrev pub IsSmall : List (Text × Text) → Type 0
  IsSmall m = All (λ (e : Text × Text). length e.1 ≤ (with_defaults limits).max_cache_entry_bytes) m

  -- An answer has all its rows. One from the cache is for a static credential, or one with a user to
  -- tell it by; one from the engine is within the bound on its size, if it has a JSON form.
  abbrev pub IsComplete : Request → Credential → QueryResult → Type 0
  IsComplete req cred res =
      (req.limit ≡ 0 → length res.table.rows ≤ (with_defaults limits).default_row_limit)
      × (((res.cached_result ≡ true) × ((cred.token ≡ []) ⊎ (cred.engine_user ≢ [])))
          ⊎ ((res.cached_result ≡ false)
              × ((blob : Text)
                  → w.table_json res.table ≡ some blob
                  → length blob ≤ (with_defaults limits).max_result_bytes)))

  IsChecked-IsComplete :
      (req : Request) (cred : Credential) (res : QueryResult)
      → IsChecked w limits d req cred res
      → IsComplete req cred res
  unfolding cacheable
  IsChecked-IsComplete req cred res (all, from) = (
    few req.limit (length res.table.rows) (with_defaults limits).default_row_limit all,
    elim from [
      | inl (e, may) ↦ inl (e, told cred.token cred.engine_user may)
      | inr (e, small) ↦ inr (
        e,
        λ blob j.
            bounded (with_defaults limits).max_result_bytes blob (w.table_json res.table) j small,
      )
    ],
  )
    where
      few : (l rows n : ℕ) → (l == 0 && ltb n rows) ≡ false → l ≡ 0 → rows ≤ n
      few l rows n h e = ground arith

      told :
          (token user : Text)
          → (if is_nil token then true else not (is_nil user)) ≡ true
          → (token ≡ []) ⊎ (user ≢ [])
      told [] user h = inl refl
      told (c ∷ token) [] h = cc
      told (c ∷ token) (u ∷ user) h = inr (λ e. cc)

      bounded :
          (n : ℕ) (blob : Text) (o : Option Text)
          → o ≡ some blob
          → exceeds w limits d n o ≡ false
          → length blob ≤ n
      bounded n blob none e h = cc
      bounded n blob (some b) e h =
          let same = some-injective b blob e in
          subst (λ (x : Text). length x ≤ n) same (ground arith)

  -- An answer to a query without a limit of its own has no more rows than the default limit, be it
  -- new or from the cache. A result from the engine is within the bound on its size, if its JSON form
  -- can be made, and a result comes from the cache only for a credential without a token of the
  -- caller's, or one with a user to tell it by.
  pub query-IsComplete :
      (negative : Bool) (m : CompiledModel) (req : Request) (id : Identity)
      (environment : Environment) (cred : Credential) (c : Caches) (res : QueryResult)
      (after : Caches)
      → query w limits d negative m req id environment cred c ≡ ok (res, after)
      → IsComplete req cred res
  query-IsComplete negative m req id environment cred c res after h =
      let (_, checked, _) = query_ok w limits d negative m req id environment cred c res after h in
      IsChecked-IsComplete req cred res checked
