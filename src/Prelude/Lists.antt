-- ===== src/Prelude/Lists.antt =====
-- Lists measured by native numbers, and the loops of the program that walk a list with a test.
use Prim.Native.Nat.{ℕ, zero, suc, ◌+◌}
use mathlib.Core.Path.{◌≡◌, refl}
use mathlib.Core.Logic.{◌⊎◌, inl, inr, ◌↔◌}
use mathlib.Core.Bool.{Bool, true, false, ◌&&◌, ◌||◌}
use mathlib.Core.List.{List, [], ◌∷◌, ◌++◌, map}
use mathlib.Core.Option.{Option, none, some}
use native.Mathlib.Omega.{arith}
use semantic_operator.Prelude.Tests.{Bool-cases, if◌then◌else◌}

module _ {ℓ} {A : Type ℓ} where
  abbrev pub length : List A → ℕ
  length [] = 0
  length (x ∷ xs) = suc (length xs)

  abbrev pub get_elem? : List A → ℕ → Option A
  get_elem? [] i = none
  get_elem? (x ∷ xs) zero = some x
  get_elem? (x ∷ xs) (suc i) = get_elem? xs i

  abbrev pub drop : ℕ → List A → List A
  drop zero xs = xs
  drop (suc n) [] = []
  drop (suc n) (x ∷ xs) = drop n xs

  abbrev pub is_nil : List A → Bool
  is_nil [] = true
  is_nil (x ∷ xs) = false

  -- A loop that ends at the first element that fails the test.
  unfoldable pub all : (A → Bool) → List A → Bool
  all p [] = true
  all p (x ∷ xs) = p x && all p xs

  -- A loop that ends at the first element that passes the test.
  unfoldable pub any : (A → Bool) → List A → Bool
  any p [] = false
  any p (x ∷ xs) = p x || any p xs

  -- A loop that keeps the elements that pass the test, in order.
  unfoldable pub keep : (A → Bool) → List A → List A
  keep p [] = []
  keep p (x ∷ xs) = let rest = keep p xs in if p x then x ∷ rest else rest

  pub length-append : (xs ys : List A) → length (xs ++ ys) ≡ length xs + length ys
  length-append [] ys = omega arith
  length-append (x ∷ xs) ys = omega (arith, length-append xs ys)

abbrev pub Elem : {A : Type 0} → A → List A → Type 0
Elem a [] = ⊥
Elem a (x ∷ xs) = (a ≡ x) ⊎ Elem a xs

abbrev pub All : {A : Type 0} → (A → Type 0) → List A → Type 0
All P [] = Unit
All P (x ∷ xs) = P x × All P xs

module _ {A : Type 0} where
  pub Elem-append_left : (a : A) (xs ys : List A) → Elem a xs → Elem a (xs ++ ys)
  Elem-append_left a [] ys m = absurd m
  Elem-append_left a (x ∷ xs) ys (inl e) = inl e
  Elem-append_left a (x ∷ xs) ys (inr m) = inr (Elem-append_left a xs ys m)

  pub Elem-append_right : (a : A) (xs ys : List A) → Elem a ys → Elem a (xs ++ ys)
  Elem-append_right a [] ys m = m
  Elem-append_right a (x ∷ xs) ys m = inr (Elem-append_right a xs ys m)

  pub Elem-append : (a : A) (xs ys : List A) → Elem a (xs ++ ys) → Elem a xs ⊎ Elem a ys
  Elem-append a [] ys m = inr m
  Elem-append a (x ∷ xs) ys (inl e) = inl (inl e)
  Elem-append a (x ∷ xs) ys (inr m) = elim (Elem-append a xs ys m) [
    | inl l ↦ inl (inr l)
    | inr r ↦ inr r
  ]

  pub Elem-snoc : (a x : A) (xs : List A) → Elem a (xs ++ x ∷ []) ↔ (Elem a xs ⊎ (a ≡ x))
  Elem-snoc a x [] = ground arith
  Elem-snoc a x (y ∷ xs) = ground (arith, Elem-snoc a x xs)

  pub Elem-map : {B : Type 0} (f : A → B) (a : A) (xs : List A) → Elem a xs → Elem (f a) (map f xs)
  Elem-map f a [] m = absurd m
  Elem-map f a (x ∷ xs) (inl e) = inl (rw e)
  Elem-map f a (x ∷ xs) (inr m) = inr (Elem-map f a xs m)

  pub Elem-map_inv :
      {B : Type 0} (f : A → B) (b : B) (xs : List A)
      → Elem b (map f xs)
      → (a : A) × Elem a xs × (b ≡ f a)
  Elem-map_inv f b [] m = absurd m
  Elem-map_inv f b (x ∷ xs) (inl e) = (x, inl refl, e)
  Elem-map_inv f b (x ∷ xs) (inr m) = let (a, l, e) = Elem-map_inv f b xs m in (a, inr l, e)

  pub All-Elem : (P : A → Type 0) (xs : List A) → All P xs → (a : A) → Elem a xs → P a
  All-Elem P [] h a m = absurd m
  All-Elem P (x ∷ xs) h a (inl e) = rw e h.0
  All-Elem P (x ∷ xs) h a (inr m) = All-Elem P xs h.1 a m

  pub All-of_Elem : (P : A → Type 0) (xs : List A) → ((a : A) → Elem a xs → P a) → All P xs
  All-of_Elem P [] h = tt
  All-of_Elem P (x ∷ xs) h = (h x (inl refl), All-of_Elem P xs (λ a m. h a (inr m)))

  pub All-iff : (P Q : A → Type 0) (xs : List A) → ((a : A) → P a ↔ Q a) → All P xs ↔ All Q xs
  All-iff P Q [] h = (λ _. tt, λ _. tt)
  All-iff P Q (x ∷ xs) h =
      (λ p. ((h x).0 p.0, (All-iff P Q xs h).0 p.1), λ q. ((h x).1 q.0, (All-iff P Q xs h).1 q.1))

  pub all_iff : (p : A → Bool) (xs : List A) → (all p xs ≡ true) ↔ All (λ x. p x ≡ true) xs
  unfolding all
  all_iff p [] = (λ _. tt, λ _. refl)
  all_iff p (x ∷ xs) = ground (arith, all_iff p xs)

  pub all-Elem : (p : A → Bool) (xs : List A) → all p xs ≡ true → (a : A) → Elem a xs → p a ≡ true
  all-Elem p xs h = All-Elem (λ x. p x ≡ true) xs ((all_iff p xs).0 h)

  pub all-of_Elem :
      (p : A → Bool) (xs : List A) → ((a : A) → Elem a xs → p a ≡ true) → all p xs ≡ true
  all-of_Elem p xs h = (all_iff p xs).1 (All-of_Elem (λ x. p x ≡ true) xs h)

  pub any-Elem : (p : A → Bool) (xs : List A) → any p xs ≡ true → (a : A) × Elem a xs × (p a ≡ true)
  unfolding any
  any-Elem p [] h = cc
  any-Elem p (x ∷ xs) h = elim (Bool-cases (p x)) [
    | inl e ↦ (x, inl refl, e)
    | inr e ↦ let (a, m, q) = any-Elem p xs (rw e at h) in (a, inr m, q)
  ]

  pub any-of_Elem : (p : A → Bool) (xs : List A) (a : A) → Elem a xs → p a ≡ true → any p xs ≡ true
  unfolding any
  any-of_Elem p [] a m h = absurd m
  any-of_Elem p (x ∷ xs) a (inl e) h = rw (rw e at h)
  any-of_Elem p (x ∷ xs) a (inr m) h = ground (arith, any-of_Elem p xs a m h)

  -- What a filtering loop keeps: the elements that pass.
  pub Elem-keep :
      (p : A → Bool) (xs : List A) (a : A) → Elem a (keep p xs) ↔ (Elem a xs × (p a ≡ true))
  unfolding keep
  Elem-keep p [] a = (λ m. absurd m, λ m. absurd m.0)
  Elem-keep p (x ∷ xs) a = ground (arith, Elem-keep p xs a)
