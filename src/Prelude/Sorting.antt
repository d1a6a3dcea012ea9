-- ===== src/Prelude/Sorting.antt =====
-- `sort.Strings`, and `sort.Slice` by a string key, as insertion sort; a strictly sorted list is
-- determined by its elements, so with distinct keys every sorting algorithm gives this result.
use mathlib.Core.Path.{◌≡◌, refl, ap₂, sym, ◌∙◌}
use mathlib.Core.Logic.{◌≢◌, ◌⊎◌, inl, inr, ◌↔◌}
use mathlib.Core.Bool.{true, false}
use mathlib.Core.List.{List, [], ◌∷◌, ◌++◌}
use native.Mathlib.Omega.{arith}
use semantic_operator.Prelude.Tests.{Bool-cases, if◌then◌else◌}
use semantic_operator.Prelude.Lists.{Elem, Elem-snoc, All, All-Elem, All-of_Elem}
use semantic_operator.Prelude.Strings.{
  Text, text_le, text_le_total, text_le_antisymm, text_le_trans, text_le_refl,
}

module _ {A : Type 0} (key : A → Text) where
  insert_by : A → List A → List A
  insert_by x [] = x ∷ []
  insert_by x (y ∷ ys) =
      let rest = insert_by x ys in if text_le (key x) (key y) then x ∷ y ∷ ys else y ∷ rest

  unfoldable pub sort_by : List A → List A
  unfolding insert_by
  sort_by [] = []
  sort_by (x ∷ xs) = insert_by x (sort_by xs)

  Elem-insert_by : (x : A) (ys : List A) (a : A) → Elem a (insert_by x ys) ↔ ((a ≡ x) ⊎ Elem a ys)
  unfolding insert_by
  Elem-insert_by x [] a = (λ m. m, λ m. m)
  Elem-insert_by x (y ∷ ys) a = ground (arith, Elem-insert_by x ys a)

  -- Sorting keeps the elements.
  pub Elem-sort_by : (xs : List A) (a : A) → Elem a (sort_by xs) ↔ Elem a xs
  unfolding sort_by
  Elem-sort_by [] a = (λ m. m, λ m. m)
  Elem-sort_by (x ∷ xs) a = ground (arith, Elem-sort_by xs a, Elem-insert_by x (sort_by xs) a)

  abbrev pub Below : A → A → Type 0
  Below x y = text_le (key y) (key x) ≡ false

  -- Every element is strictly below those that follow it.
  abbrev pub IsStrict : List A → Type 0
  IsStrict [] = Unit
  IsStrict (x ∷ xs) = All (Below x) xs × IsStrict xs

  -- No two elements have one key.
  abbrev pub HasDistinctKeys : List A → Type 0
  HasDistinctKeys [] = Unit
  HasDistinctKeys (x ∷ xs) = All (λ y. key x ≢ key y) xs × HasDistinctKeys xs

  pub HasDistinctKeys-snoc :
      (xs : List A) (x : A)
      → HasDistinctKeys xs
      → ((a : A) → Elem a xs → key a ≢ key x)
      → HasDistinctKeys (xs ++ x ∷ [])
  HasDistinctKeys-snoc [] x d h = (tt, tt)
  HasDistinctKeys-snoc (y ∷ ys) x d h = (
    All-of_Elem (λ z. key y ≢ key z) (ys ++ x ∷ []) differs,
    HasDistinctKeys-snoc ys x d.1 (λ a m. h a (inr m)),
  )
    where
      differs : (a : A) → Elem a (ys ++ x ∷ []) → key y ≢ key a
      differs a m = elim ((Elem-snoc a x ys).0 m) [
        | inl l ↦ All-Elem (λ z. key y ≢ key z) ys d.0 a l
        | inr e ↦ rw e (h y (inl refl))
      ]

  Below-of_le : (x y : A) → key x ≢ key y → text_le (key x) (key y) ≡ true → Below x y
  Below-of_le x y d h = elim (Bool-cases (text_le (key y) (key x))) [
    | inl e ↦ absurd (d (text_le_antisymm (key x) (key y) h e))
    | inr e ↦ e
  ]

  Below-trans : (x y z : A) → Below x y → Below y z → Below x z
  Below-trans x y z h k = elim (Bool-cases (text_le (key z) (key x))) [
    | inl e ↦ cc (text_le_trans (key z) (key x) (key y) e (text_le_total (key y) (key x) h))
    | inr e ↦ e
  ]

  Below-irrefl : (x : A) → Below x x → ⊥
  Below-irrefl x h = cc (text_le_refl (key x))

  insert_by-IsStrict :
      (x : A) (ys : List A) → All (λ y. key x ≢ key y) ys → IsStrict ys → IsStrict (insert_by x ys)
  unfolding insert_by
  insert_by-IsStrict x [] d s = (tt, tt)
  insert_by-IsStrict x (y ∷ ys) d s = elim (Bool-cases (text_le (key x) (key y))) [
    | inl e ↦ rw e (
      (
        Below-of_le x y d.0 e,
        All-of_Elem (Below x) ys
            (λ a m. Below-trans x y a (Below-of_le x y d.0 e) (All-Elem (Below y) ys s.0 a m)),
      ),
      s,
    )
    | inr e ↦ rw e (
      All-of_Elem (Below y) (insert_by x ys) (λ a m. elim ((Elem-insert_by x ys a).0 m) [
        | inl q ↦ rw q e
        | inr l ↦ All-Elem (Below y) ys s.0 a l
      ]),
      insert_by-IsStrict x ys d.1 s.1,
    )
  ]

  -- Sorting elements with distinct keys gives a strictly sorted list.
  pub sort_by-IsStrict : (xs : List A) → HasDistinctKeys xs → IsStrict (sort_by xs)
  unfolding sort_by
  sort_by-IsStrict [] d = tt
  sort_by-IsStrict (x ∷ xs) d =
      insert_by-IsStrict x (sort_by xs)
        (All-of_Elem (λ y. key x ≢ key y) (sort_by xs)
          (λ a m. All-Elem (λ y. key x ≢ key y) xs d.0 a ((Elem-sort_by xs a).0 m)))
        (sort_by-IsStrict xs d.1)

  -- Strictly sorted lists with the same elements are equal.
  pub IsStrict-ext :
      (xs ys : List A) → IsStrict xs → IsStrict ys → ((a : A) → Elem a xs ↔ Elem a ys) → xs ≡ ys
  IsStrict-ext [] [] s t h = refl
  IsStrict-ext [] (y ∷ ys) s t h = absurd ((h y).1 (inl refl))
  IsStrict-ext (x ∷ xs) [] s t h = absurd ((h x).0 (inl refl))
  IsStrict-ext (x ∷ xs) (y ∷ ys) s t h =
      let e = heads in
      ap₂ (◌∷◌) e (
        IsStrict-ext xs ys s.1 t.1 (λ a. (
          λ m. elim ((h a).0 (inr m)) [
            | inl q ↦ absurd (Below-irrefl x (rw (q ∙ sym e) at (All-Elem (Below x) xs s.0 a m)))
            | inr l ↦ l
          ],
          λ m. elim ((h a).1 (inr m)) [
            | inl q ↦ absurd (Below-irrefl y (rw (q ∙ e) at (All-Elem (Below y) ys t.0 a m)))
            | inr l ↦ l
          ],
        )))
    where
      heads : x ≡ y
      heads = elim ((h x).0 (inl refl)) [
        | inl q ↦ q
        | inr l ↦ elim ((h y).1 (inl refl)) [
          | inl q ↦ sym q
          | inr r ↦ absurd (
              Below-irrefl x
                (Below-trans x y x (All-Elem (Below x) xs s.0 y r) (All-Elem (Below y) ys t.0 x l)))
        ]
      ]
