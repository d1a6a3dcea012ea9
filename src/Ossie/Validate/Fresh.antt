-- ===== src/Ossie/Validate/Fresh.antt =====
-- Loops that add no problem, and sets of names that a loop fills.
use mathlib.Core.Path.{subst}
use mathlib.Core.Option.{some-injective}
use semantic_operator.Prelude.{
  Text, Bool, true, false, not, ◌&&◌, ◌||◌, List, [], ◌∷◌, ◌++◌, Option, none, some, if◌then◌else◌,
  is_nil, contains, contains_iff, Bool-cases, Option-cases, ap, ◌≡◌, ◌≢◌, ◌⊎◌, inl, inr, refl, sym,
  Elem, arith,
}
use semantic_operator.Prelude.Lists.{All-of_Elem}
use semantic_operator.Prelude.Strings.{split_at_byte}
use semantic_operator.Prelude.Splits.{split_at_byte-append}
use semantic_operator.Prelude.Sorting.{HasDistinctKeys}
use semantic_operator.Ossie.{split_field_ref, Problem, add_if, is_none, mark_named, all_named}

pub append-eq-nil : {A : Type 0} (xs ys : List A) → xs ++ ys ≡ [] → (xs ≡ []) × (ys ≡ [])
append-eq-nil [] ys h = (refl, h)
append-eq-nil (x ∷ xs) ys h = cc

pub add_if-eq-nil : (b : Bool) (p : Problem) → add_if b p ≡ [] → b ≡ false
unfolding add_if
add_if-eq-nil true p h = cc
add_if-eq-nil false p h = refl

-- A round that is left with a problem, or goes on.
pub if-eq-nil :
    (b : Bool) (p : Problem) (rest : List Problem)
    → (if b then p ∷ [] else rest) ≡ []
    → (b ≡ false) × (rest ≡ [])
if-eq-nil true p rest h = cc
if-eq-nil false p rest h = (refl, h)

pub is_none-false : {A : Type 0} (o : Option A) → is_none o ≡ false → (a : A) × (o ≡ some a)
unfolding is_none
is_none-false none h = cc
is_none-false (some a) h = (a, refl)

pub is_none-true : {A : Type 0} (o : Option A) → is_none o ≡ true → o ≡ none
unfolding is_none
is_none-true none h = refl
is_none-true (some a) h = cc

pub contains-false : (xs : List Text) (s : Text) → contains xs s ≡ false → Elem s xs → ⊥
contains-false xs s h m = cc ((contains_iff xs s).1 m)

pub not-false : (b : Bool) → not b ≡ false → b ≡ true
not-false true h = refl
not-false false h = cc

pub not-true : (b : Bool) → not b ≡ true → b ≡ false
not-true true h = cc
not-true false h = refl

pub both_false : (a b : Bool) → (a || b) ≡ false → (a ≡ false) × (b ≡ false)
both_false a b h = ground arith

pub both_true : (a b : Bool) → (a && b) ≡ true → (a ≡ true) × (b ≡ true)
both_true a b h = ground arith

-- A reference is two names with a dot between them.
pub split_field_ref-append :
    (s dataset field : Text)
    → split_field_ref s ≡ some (dataset, field)
    → (s ≡ dataset ++ b'.' ∷ field) × (is_nil dataset ≡ false) × (is_nil field ≡ false)
unfolding split_field_ref
split_field_ref-append s dataset field e = elim (Option-cases (split_at_byte b'.' s)) [
  | inl n ↦ cc (rw (n, split_field_ref) at e)
  | inr ((l, r), n) ↦
      let (a, b, c, d) = two l r (rw (n, split_field_ref) at e) in
      (
        subst (λ x. s ≡ x ++ b'.' ∷ field) c
            (subst (λ y. s ≡ l ++ b'.' ∷ y) d (sym (split_at_byte-append b'.' s l r n))),
        subst (λ x. is_nil x ≡ false) c a,
        subst (λ x. is_nil x ≡ false) d b,
      )
]
  where
    two :
        (l r : Text)
        → (if◌then◌else◌ {A = Option (Text × Text)} (is_nil l || is_nil r) none (some (l, r)))
          ≡ some (dataset, field)
        → (is_nil l ≡ false) × (is_nil r ≡ false) × (l ≡ dataset) × (r ≡ field)
    two [] r h = cc
    two (x ∷ l) [] h = cc
    two (x ∷ l) (y ∷ r) h =
        let same = some-injective (x ∷ l, y ∷ r) (dataset, field) h in
        (refl, refl, ap (λ (p : Text × Text). p.0) same, ap (λ (p : Text × Text). p.1) same)

-- A check that is made only where something is declared.
pub not_and-false : (a b : Bool) → (not a && b) ≡ false → (a ≡ true) ⊎ (b ≡ false)
not_and-false true b h = inl refl
not_and-false false b h = inr h

pub mark_named-eq :
    (name : Text) (seen : List Text) → is_nil name ≡ false → mark_named name seen ≡ name ∷ seen
unfolding mark_named
mark_named-eq name seen h = rw (h, mark_named) refl

-- What stands in the set of names was in the loop's list.
Elem-all_named :
    (names seen : List Text) (n : Text) → Elem n (all_named names seen) → Elem n names ⊎ Elem n seen
unfolding all_named mark_named
Elem-all_named [] seen n m = inr m
Elem-all_named (x ∷ names) seen n m = elim (Bool-cases (is_nil x)) [
  | inl e ↦ elim (Elem-all_named names seen n (rw (e, all_named, mark_named) at m)) [
    | inl l ↦ inl (inr l)
    | inr r ↦ inr r
  ]
  | inr e ↦ elim (Elem-all_named names (x ∷ seen) n (rw (e, all_named, mark_named) at m)) [
    | inl l ↦ inl (inr l)
    | inr (inl q) ↦ inl (inl q)
    | inr (inr r) ↦ inr r
  ]
]

pub names_known :
    (names : List Text) (n : Text) → contains (all_named names []) n ≡ true → Elem n names
names_known names n h =
    elim (Elem-all_named names [] n ((contains_iff (all_named names []) n).0 h)) [
      | inl l ↦ l
      | inr e ↦ absurd e
    ]

module _ {A : Type 0} (key : A → Text) where
  -- No key is in the set that the loop has when it comes to it.
  abbrev pub IsFresh : List Text → List A → Type 0
  IsFresh seen [] = Unit
  IsFresh seen (x ∷ xs) = (Elem (key x) seen → ⊥) × IsFresh (key x ∷ seen) xs

  IsFresh-apart :
      (seen : List Text) (xs : List A) (a : A) → IsFresh seen xs → Elem a xs → Elem (key a) seen → ⊥
  IsFresh-apart seen [] a f m s = absurd m
  IsFresh-apart seen (x ∷ xs) a f (inl e) s = f.0 (rw (sym e) s)
  IsFresh-apart seen (x ∷ xs) a f (inr m) s = IsFresh-apart (key x ∷ seen) xs a f.1 m (inr s)

  pub IsFresh-HasDistinctKeys :
      (seen : List Text) (xs : List A) → IsFresh seen xs → HasDistinctKeys key xs
  IsFresh-HasDistinctKeys seen [] f = tt
  IsFresh-HasDistinctKeys seen (x ∷ xs) f = (
    All-of_Elem (λ y. key x ≢ key y) xs
        (λ a m e. IsFresh-apart (key x ∷ seen) xs a f.1 m (inl (sym e))),
    IsFresh-HasDistinctKeys (key x ∷ seen) xs f.1,
  )
