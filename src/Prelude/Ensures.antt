-- ===== src/Prelude/Ensures.antt =====
-- Postconditions of a result: a condition on its value, and one on its error.
use mathlib.Core.Path.{◌≡◌, refl, subst}
use mathlib.Core.Bool.{Bool, true, false}
use semantic_operator.Prelude.Tests.{if◌then◌else◌}
use semantic_operator.Prelude.Results.{Result, ok, err, ◌>>=◌, ◌>>◌, fail_if, ok_injective}

pub data Ensures {E A : Type 0} (Refuses : E → Type 0) (P : A → Type 0) : Result E A → Type 0 where
  holds : {a : A} → P a → Ensures Refuses P (ok a)
  rejected : {e : E} → Refuses e → Ensures Refuses P (err e)

module _ {E : Type 0} {Refuses : E → Type 0} where
  pub Ensures-ok :
      {A : Type 0} {P : A → Type 0} {r : Result E A} (a : A) → Ensures Refuses P r → r ≡ ok a → P a
  Ensures-ok {P} a (holds {a = b} h) e = subst P (ok_injective b a e) h
  Ensures-ok a (rejected h) e = cc

  pub Ensures-err :
      {A : Type 0} {P : A → Type 0} {r : Result E A} (e : E)
      → Ensures Refuses P r
      → r ≡ err e
      → Refuses e
  Ensures-err e (holds h) q = cc
  Ensures-err e (rejected {e = f} h) q = subst Refuses (cc) h

  pub Ensures->>= :
      {A B : Type 0} {P : A → Type 0} {Q : B → Type 0} {r : Result E A} {f : A → Result E B}
      → Ensures Refuses P r
      → ((a : A) → P a → Ensures Refuses Q (f a))
      → Ensures Refuses Q (r >>= f)
  Ensures->>= (holds {a} h) k = k a h
  Ensures->>= (rejected h) k = rejected h

  pub Ensures-fail_if :
      {A : Type 0} {P : A → Type 0} (bad : Bool) (failure : E) {rest : Result E A}
      → Refuses failure
      → (bad ≡ false → Ensures Refuses P rest)
      → Ensures Refuses P (fail_if bad failure >> rest)
  Ensures-fail_if true failure h k = rejected h
  Ensures-fail_if false failure h k = k refl

  pub Ensures-weaken :
      {A : Type 0} {P Q : A → Type 0} {r : Result E A}
      → ((a : A) → P a → Q a)
      → Ensures Refuses P r
      → Ensures Refuses Q r
  Ensures-weaken k (holds {a} h) = holds (k a h)
  Ensures-weaken k (rejected h) = rejected h

  pub Ensures-if :
      {A : Type 0} {P : A → Type 0} (b : Bool) {x y : Result E A}
      → (b ≡ true → Ensures Refuses P x)
      → (b ≡ false → Ensures Refuses P y)
      → Ensures Refuses P (if b then x else y)
  Ensures-if true h k = h refl
  Ensures-if false h k = k refl
