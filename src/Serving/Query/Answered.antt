-- ===== src/Serving/Query/Answered.antt =====
-- The tests that an answer passes, and what a query leaves in the cache of results.
use mathlib.Core.Path.{subst}
use semantic_operator.Prelude.{
  Text, ℕ, ◌≤◌, Bool, true, false, not, ◌&&◌, ◌∷◌, Option, none, some, length, ok, Bool-cases,
  Option-cases, Result-cases, ok_injective, >>=-eq-ok, fail_if-eq-ok, ◌≡◌, ◌⊎◌, inl, inr, refl, sym,
  ap, ◌∙◌, arith,
}
use semantic_operator.Governance.{Identity}
use semantic_operator.Emitter.{Dialect}
use semantic_operator.Planner.{CompiledModel}
use semantic_operator.Planner.Request.{Request}
use semantic_operator.Planner.Build.{build}
use semantic_operator.Serving.Limits.{Limits, with_defaults, apply}
use semantic_operator.Serving.Authorization.{Environment}
use semantic_operator.Serving.Query.{
  Credential, Entry, Table, Caches, QueryResult, World, external_ref, store, external_scope,
  fresh_plan, key_of_plan, plan, cacheable, cached_table, exceeds, incomplete, store_result,
  execute, answer, query, key_of_result,
}

module _ (w : World) (limits : Limits) (d : Dialect) where
  -- The tests that an answer passed.
  abbrev pub IsChecked : Request → Credential → QueryResult → Type 0
  IsChecked req cred res =
      (incomplete w limits d req res.table ≡ false)
      × (((res.cached_result ≡ true) × (cacheable w limits d cred ≡ true))
          ⊎ ((res.cached_result ≡ false)
              × (exceeds w limits d (with_defaults limits).max_result_bytes (w.table_json res.table)
                  ≡ false)))

  -- What an answer leaves in the cache: the results as they were, or one more.
  abbrev pub Leaves : CompiledModel → Entry → Credential → Caches → Caches → Type 0
  Leaves m e cred c after =
      (after.results ≡ c.results)
      ⊎ ((blob : Text) × (cacheable w limits d cred ≡ true)
          × (length blob ≤ (with_defaults limits).max_cache_entry_bytes)
          × (after.results ≡ (key_of_result w limits d m e cred, blob) ∷ c.results))

  within :
      (n : ℕ) (b : Bool) (blob : Text)
      → (b && not (exceeds w limits d n (some blob))) ≡ true
      → (b ≡ true) × (length blob ≤ n)
  within n b blob h = ground arith

  store_result-Leaves :
      (m : CompiledModel) (e : Entry) (cred : Credential) (o : Option Text) (c : Caches)
      → Leaves m e cred c (store_result w limits d m e cred o c)
  unfolding store_result store
  store_result-Leaves m e cred none c = elim (Bool-cases (cacheable w limits d cred && true)) [
    | inl b ↦ inl (rw (b, store_result) refl)
    | inr b ↦ inl (rw (b, store_result) refl)
  ]
  store_result-Leaves m e cred (some blob) c =
      let n = (with_defaults limits).max_cache_entry_bytes in
      elim (Bool-cases (cacheable w limits d cred && not (exceeds w limits d n (some blob)))) [
        | inr b ↦ inl (rw (b, store_result) refl)
        | inl b ↦
            let (may, small) = within n (cacheable w limits d cred) blob b in
            elim (Bool-cases (w.reachable (key_of_result w limits d m e cred))) [
              | inl r ↦ inr (blob, may, small, rw (b, r, store_result, store) refl)
              | inr r ↦ inl (rw (b, r, store_result, store) refl)
            ]
      ]

  execute_ok :
      (m : CompiledModel) (req : Request) (cred : Credential) (e : Entry) (flag : Bool) (c : Caches)
      (res : QueryResult) (after : Caches)
      → execute w limits d m req cred e flag c ≡ ok (res, after)
      → IsChecked req cred res × Leaves m e cred c after
  unfolding execute
  execute_ok m req cred e flag c res after h = elim (Result-cases (w.engine cred e.plan.sql)) [
    | inr (failure, x) ↦ cc (rw (x, execute) at h)
    | inl (t, x) ↦
        let (all, rest) = fail_if-eq-ok (incomplete w limits d req t) _ _ (rw (x, execute) at h) in
        let (small, q) =
          fail_if-eq-ok
            (exceeds w limits d (with_defaults limits).max_result_bytes (w.table_json t)) _ _
            rest in
        let out : QueryResult × Caches = (
          record { table = t; entry = e; cached_plan = flag; cached_result = false },
          store_result w limits d m e cred (w.table_json t) c,
        ) in
        subst (λ (x : QueryResult × Caches). IsChecked req cred x.0 × Leaves m e cred c x.1)
          (ok_injective out (res, after) q)
          ((all, inr (refl, small)), store_result-Leaves m e cred (w.table_json t) c)
  ]

  answer_ok :
      (m : CompiledModel) (req : Request) (cred : Credential) (e : Entry) (flag : Bool) (c : Caches)
      (res : QueryResult) (after : Caches)
      → answer w limits d m req cred e flag c ≡ ok (res, after)
      → IsChecked req cred res × Leaves m e cred c after
  unfolding answer cached_table
  answer_ok m req cred e flag c res after h =
      elim (Option-cases (cached_table w limits d m e cred c)) [
        | inl x ↦ execute_ok m req cred e flag c res after (rw (x, answer) at h)
        | inr (t, x) ↦
            let (all, q) = fail_if-eq-ok (incomplete w limits d req t) _ _ (rw (x, answer) at h) in
            let out : QueryResult × Caches =
              (record { table = t; entry = e; cached_plan = flag; cached_result = true }, c) in
            subst (λ (x : QueryResult × Caches). IsChecked req cred x.0 × Leaves m e cred c x.1)
              (ok_injective out (res, after) q) ((all, inl (refl, shared t x)), inl refl)
      ]
    where
      shared :
          (t : Table)
          → cached_table w limits d m e cred c ≡ some t
          → cacheable w limits d cred ≡ true
      shared t x = elim (Bool-cases (cacheable w limits d cred)) [
        | inl b ↦ b
        | inr b ↦ cc (rw (b, cached_table) at x)
      ]

  plan_results :
      (negative : Bool) (m : CompiledModel) (req : Request) (id : Identity)
      (environment : Environment) (c : Caches) (e : Entry) (flag : Bool) (after : Caches)
      → plan w limits d negative m req id environment c ≡ ok (e, flag, after)
      → after.results ≡ c.results
  unfolding plan fresh_plan
  plan_results negative m req id environment c e flag after h =
      let (limited, _, rest) = >>=-eq-ok (apply limits negative req) _ h in
      let (scope, _, q) =
        >>=-eq-ok (external_scope w limits d m limited id environment (external_ref m.governance)) _
          rest in
      from_either m limited id scope c _ e flag after q
    where
      from_fresh :
          (m : CompiledModel) (req : Request) (id : Identity) (scope : Text) (c : Caches)
          (e : Entry) (flag : Bool) (after : Caches)
          → fresh_plan w limits d m req id scope c ≡ ok (e, flag, after)
          → after.results ≡ c.results
      from_fresh m req id scope c e flag after h =
          let (p, _, q) =
            >>=-eq-ok (build w.compile w.split_claims w.sha256_hex w.request_hash m d req id) _ h in
          let out : Entry × Bool × Caches = (
            record { plan = p; authorization = scope },
            false,
            record c {
              plans =
                  store w limits d (key_of_plan w limits d m req id scope)
                    (w.plan_json (record { plan = p; authorization = scope })) c.plans;
            },
          ) in
          sym
            (ap (λ (x : Entry × Bool × Caches). x.2.results) (ok_injective out (e, flag, after) q))

      from_either :
          (m : CompiledModel) (req : Request) (id : Identity) (scope : Text) (c : Caches)
          (o : Option Entry) (e : Entry) (flag : Bool) (after : Caches)
          → (elim o [ some x ↦ ok (x, true, c) | none ↦ fresh_plan w limits d m req id scope c ])
            ≡ ok (e, flag, after)
          → after.results ≡ c.results
      from_either m req id scope c (some x) e flag after q = sym (
          ap (λ (y : Entry × Bool × Caches). y.2.results)
            (ok_injective (x, true, c) (e, flag, after) q))
      from_either m req id scope c none e flag after q = from_fresh m req id scope c e flag after q

  pub query_ok :
      (negative : Bool) (m : CompiledModel) (req : Request) (id : Identity)
      (environment : Environment) (cred : Credential) (c : Caches) (res : QueryResult)
      (after : Caches)
      → query w limits d negative m req id environment cred c ≡ ok (res, after)
      → (e : Entry) × IsChecked req cred res × Leaves m e cred c after
  unfolding query
  query_ok negative m req id environment cred c res after h =
      let ((e, flag, mid), p, q) =
        >>=-eq-ok (plan w limits d negative m req id environment c) _ h in
      let same = plan_results negative m req id environment c e flag mid p in
      let (complete, left) = answer_ok m req cred e flag mid res after q in
      (
        e,
        complete,
        elim left [
          | inl k ↦ inl (k ∙ same)
          | inr (blob, may, small, k) ↦
              inr (blob, may, small, k ∙ ap ((key_of_result w limits d m e cred, blob) ∷◌) same)
        ],
      )
