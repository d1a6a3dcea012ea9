-- ===== src/Serving/Views/Declared.antt =====
-- What a publication leaves in the engine.
use semantic_operator.Prelude.{
  Text, Bool, true, false, List, [], ◌∷◌, ◌++◌, map, Option, none, some, Result, ok, err, ◌≡◌, ◌⊎◌,
}
use semantic_operator.Errors.{Error, engine_failed}
use semantic_operator.Api.{ViewSpec}
use semantic_operator.Emitter.{Dialect, Value}
use semantic_operator.Governance.{Glob}
use semantic_operator.Governance.Claims.{Part}
use semantic_operator.Planner.{CompiledModel}
use semantic_operator.Planner.Request.{Request}
use semantic_operator.Serving.Views.{Publication, build_view_sql}

module _ (compile : Text → Option Glob) (split_claims : Text → List Part) (sha256_hex : Text → Text)
    (request_hash : Request → Text → Text) (read_number : Text → Option Value) (cm : CompiledModel)
    (d : Dialect) where
  module _ (accepts : List Text → Text → Bool) (database default_role : Text) where
    -- The statement of a view.
    abbrev pub ddl : ViewSpec → Result Error Text
    ddl v =
        build_view_sql compile split_claims sha256_hex request_hash read_number cm d v database
          default_role

    -- The statements are those of the views one by one, and the engine accepted each of them after
    -- the statements before it.
    abbrev pub AreCreated : List Text → List ViewSpec → List Text → Type 0
    AreCreated ran [] [] = Unit
    AreCreated ran (v ∷ vs) (s ∷ ss) =
        (ddl v ≡ ok s) × (accepts ran s ≡ true) × AreCreated (ran ++ s ∷ []) vs ss
    AreCreated ran _ _ = ⊥

    -- Why it ended: no view is left, or the next one has no statement, or the engine refuses its
    -- statement.
    abbrev pub Ended : List Text → List ViewSpec → Option Error → Type 0
    Ended ran [] failure = failure ≡ none
    Ended ran (v ∷ vs) failure =
        ((e : Error) × (ddl v ≡ err e) × (failure ≡ some e))
        ⊎ ((s : Text) × (ddl v ≡ ok s)
            × (accepts ran s ≡ false)
            × (failure ≡ some (engine_failed v.name)))

    -- The views before the end are created, by their own statements in order.
    abbrev pub Publishes : List ViewSpec → List Text → List Text → Publication → Type 0
    Publishes vs created ran p =
        (done : List ViewSpec) × (rest : List ViewSpec) × (statements : List Text) × (vs
          ≡ done ++ rest)
        × (p.created ≡ created ++ map (λ (v : ViewSpec). v.name) done)
        × (p.ran ≡ ran ++ statements)
        × AreCreated ran done statements
        × Ended p.ran rest p.failure
