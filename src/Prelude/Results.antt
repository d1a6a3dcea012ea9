-- ===== src/Prelude/Results.antt =====
-- A Go function that returns a value and an error, and its early returns as a monad.
use mathlib.Core.Path.{◌≡◌, refl}
use mathlib.Core.Bool.{Bool, true, false}
use mathlib.Core.List.{List, [], ◌∷◌}
use mathlib.Core.Logic.{◌⊎◌, inl, inr}

pub data Result (E : Type 0) (A : Type 0) : Type 0 where
  ok : A → Result E A
  err : E → Result E A

infixl 5 ◌>>=◌ ◌>>◌
-- `if err != nil { return err }` after a call.
abbrev pub ◌>>=◌ : {E A B : Type 0} → Result E A → (A → Result E B) → Result E B
◌>>=◌ outcome next = elim outcome [ err failure ↦ err failure | ok value ↦ next value ]

abbrev pub ◌>>◌ : {E B : Type 0} → Result E (Unit {0}) → Result E B → Result E B
◌>>◌ check rest = elim check [ err failure ↦ err failure | ok _ ↦ rest ]

-- `if bad { return err }`
abbrev pub fail_if : {E : Type 0} → Bool → E → Result E (Unit {0})
fail_if bad failure = elim bad [ true ↦ err failure | false ↦ ok tt ]

abbrev pub map_err : {E F A : Type 0} → (E → F) → Result E A → Result F A
map_err f (ok a) = ok a
map_err f (err e) = err (f e)

-- A loop that appends one result for each element, and returns at the first error.
unfoldable pub traverse : {E A B : Type 0} → (A → Result E B) → List A → Result E (List B)
traverse f [] = ok []
traverse f (x ∷ xs) = do y ← f x; ys ← traverse f xs; ok (y ∷ ys)

-- A call sequence that returns a value had a value at each step.
pub >>=-eq-ok :
    {E A B : Type 0} (first : Result E A) (next : A → Result E B) {result : B}
    → (first >>= next) ≡ ok result
    → (value : A) × (first ≡ ok value) × (next value ≡ ok result)
>>=-eq-ok (err failure) next returns = cc
>>=-eq-ok (ok value) next returns = (value, refl, returns)

pub Result-cases :
    {E A : Type 0} (m : Result E A) → ((a : A) × (m ≡ ok a)) ⊎ ((e : E) × (m ≡ err e))
Result-cases (ok a) = inl (a, refl)
Result-cases (err e) = inr (e, refl)

pub ok_injective : {E A : Type 0} (a b : A) → ◌≡◌ {A = Result E A} (ok a) (ok b) → a ≡ b
ok_injective a b e = cc

-- Code behind a guard runs only where the guard lets it pass.
pub fail_if-eq-ok :
    {E B : Type 0} (bad : Bool) (failure : E) (rest : Result E B) {result : B}
    → (fail_if bad failure >> rest) ≡ ok result
    → (bad ≡ false) × (rest ≡ ok result)
fail_if-eq-ok true failure rest returns = cc
fail_if-eq-ok false failure rest returns = (refl, returns)

-- A check that passes, and what is left.
pub >>-eq-ok :
    {E B : Type 0} (test : Result E (Unit {0})) (rest : Result E B) {result : B}
    → (test >> rest) ≡ ok result
    → (test ≡ ok tt) × (rest ≡ ok result)
>>-eq-ok (err failure) rest returns = cc
>>-eq-ok (ok _) rest returns = (refl, returns)
