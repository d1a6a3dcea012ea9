-- ===== src/Serving/Store/Entries.antt =====
-- The entries of a map: writing, deleting and finding one.
use mathlib.Core.Path.{subst}
use mathlib.Core.Option.{some-injective}
use semantic_operator.Prelude.{
  Text, Bool, true, false, List, [], ◌∷◌, Option, none, some, if◌then◌else◌, text_eq, text_eq_iff,
  keep, lookup, Bool-cases, ◌≡◌, ◌≢◌, ◌↔◌, ◌⊎◌, inl, inr, refl, sym, ap, ◌∙◌, arith, Elem,
}
use semantic_operator.Prelude.Lists.{All-Elem, All-of_Elem}
use semantic_operator.Prelude.Sorting.{HasDistinctKeys}
use semantic_operator.Planner.{CompiledModel}
use semantic_operator.Serving.Store.{put_entry, delete_entry}

-- Each key stands once, as in a Go map.
abbrev pub IsMap : List (Text × CompiledModel) → Type 0
IsMap m = HasDistinctKeys (λ (e : Text × CompiledModel). e.0) m

abbrev update :
    Text → Option CompiledModel → (Text → Option CompiledModel) → Text → Option CompiledModel
update key o f k = if text_eq key k then o else f k

pub lookup-put_entry :
    (m : List (Text × CompiledModel)) (key : Text) (p : CompiledModel) (k : Text)
    → lookup (put_entry key p m) k ≡ (if text_eq key k then some p else lookup m k)
unfolding put_entry lookup
lookup-put_entry [] key p k = refl
lookup-put_entry ((j, q) ∷ m) key p k =
    ground
      (arith, lookup-put_entry m key p k, text_eq_iff j key, text_eq_iff j k, text_eq_iff key k)

Elem-put_entry :
    (m : List (Text × CompiledModel)) (key : Text) (p : CompiledModel) (e : Text × CompiledModel)
    → Elem e (put_entry key p m)
    → (e.0 ≡ key) ⊎ Elem e m
unfolding put_entry
Elem-put_entry [] key p e (inl q) = inl (ap (λ (x : Text × CompiledModel). x.0) q)
Elem-put_entry [] key p e (inr q) = absurd q
Elem-put_entry ((j, q) ∷ m) key p e l = ground (arith, Elem-put_entry m key p e, text_eq_iff j key)

pub put_entry-IsMap :
    (m : List (Text × CompiledModel)) (key : Text) (p : CompiledModel)
    → IsMap m
    → IsMap (put_entry key p m)
unfolding put_entry
put_entry-IsMap [] key p h = (tt, tt)
put_entry-IsMap ((j, q) ∷ m) key p h = elim (Bool-cases (text_eq j key)) [
  | inl e ↦ rw (e, put_entry) (h.0, h.1)
  | inr e ↦
      rw (e, put_entry)
        (
          All-of_Elem (λ (x : Text × CompiledModel). j ≢ x.0) (put_entry key p m)
              (λ x l n. elim (Elem-put_entry m key p x l) [
                | inl same ↦ cc ((text_eq_iff j key).1 (n ∙ same))
                | inr old ↦ All-Elem (λ (y : Text × CompiledModel). j ≢ y.0) m h.0 x old n
              ]),
          put_entry-IsMap m key p h.1,
        )
]

lookup-absent :
    (m : List (Text × CompiledModel)) (k : Text)
    → ((e : Text × CompiledModel) → Elem e m → e.0 ≢ k)
    → lookup m k ≡ none
unfolding lookup
lookup-absent [] k h = refl
lookup-absent ((j, q) ∷ m) k h = elim (Bool-cases (text_eq j k)) [
  | inl e ↦ absurd (h (j, q) (inl refl) ((text_eq_iff j k).0 e))
  | inr e ↦ rw (e, lookup) (lookup-absent m k (λ x l. h x (inr l)))
]

pub lookup-delete_entry :
    (m : List (Text × CompiledModel)) (key k : Text)
    → IsMap m
    → lookup (delete_entry key m) k ≡ (if text_eq key k then none else lookup m k)
unfolding delete_entry lookup
lookup-delete_entry [] key k h = ground arith
lookup-delete_entry ((j, q) ∷ m) key k h =
    let gone : text_eq j k ≡ true → lookup m k ≡ none = λ e. lookup-absent m k (λ x l n.
      All-Elem (λ (y : Text × CompiledModel). j ≢ y.0) m h.0 x l ((text_eq_iff j k).0 e ∙ sym n)) in
    ground (
      arith,
      gone,
      lookup-delete_entry m key k h.1,
      text_eq_iff j key,
      text_eq_iff j k,
      text_eq_iff key k,
    )

Elem-delete_entry :
    (m : List (Text × CompiledModel)) (key : Text) (e : Text × CompiledModel)
    → Elem e (delete_entry key m)
    → Elem e m
unfolding delete_entry
Elem-delete_entry [] key e l = l
Elem-delete_entry ((j, q) ∷ m) key e l = elim (Bool-cases (text_eq j key)) [
  | inl b ↦ inr (rw (b, delete_entry) at l)
  | inr b ↦ elim (rw (b, delete_entry) at l) [
    | inl same ↦ inl same
    | inr r ↦ inr (Elem-delete_entry m key e r)
  ]
]

pub delete_entry-IsMap :
    (m : List (Text × CompiledModel)) (key : Text) → IsMap m → IsMap (delete_entry key m)
unfolding delete_entry
delete_entry-IsMap [] key h = tt
delete_entry-IsMap ((j, q) ∷ m) key h = elim (Bool-cases (text_eq j key)) [
  | inl b ↦ rw (b, delete_entry) h.1
  | inr b ↦
      rw (b, delete_entry)
        (
          All-of_Elem (λ (x : Text × CompiledModel). j ≢ x.0) (delete_entry key m)
              (λ x l.
                All-Elem (λ (y : Text × CompiledModel). j ≢ y.0) m h.0 x
                  (Elem-delete_entry m key x l)),
          delete_entry-IsMap m key h.1,
        )
]

-- An entry of the list is what a lookup of its key finds.
pub lookup_iff :
    (m : List (Text × CompiledModel)) (k : Text) (p : CompiledModel)
    → IsMap m
    → (lookup m k ≡ some p) ↔ Elem (k, p) m
unfolding lookup
lookup_iff [] k p h = (λ e. cc, λ l. absurd l)
lookup_iff ((j, q) ∷ m) k p h = elim (Bool-cases (text_eq j k)) [
  | inl e ↦
      let same = (text_eq_iff j k).0 e in
      rw (e, lookup)
        (
          λ s. inl (rw (same, some-injective q p s) refl),
          λ l. elim l [
            | inl s ↦ ap (λ (x : Text × CompiledModel). some x.1) (sym s)
            | inr r ↦ absurd (All-Elem (λ (y : Text × CompiledModel). j ≢ y.0) m h.0 (k, p) r same)
          ],
        )
  | inr e ↦
      rw (e, lookup)
        (
          λ s. inr ((lookup_iff m k p h.1).0 s),
          λ l. elim l [
            | inl s ↦ cc ((text_eq_iff j k).1 (sym (ap (λ (x : Text × CompiledModel). x.0) s)))
            | inr r ↦ (lookup_iff m k p h.1).1 r
          ],
        )
]

module _ (f : Text × CompiledModel → Bool) where
  keep-none :
      (m : List (Text × CompiledModel))
      → ((e : Text × CompiledModel) → Elem e m → f e ≡ false)
      → keep f m ≡ []
  unfolding keep
  keep-none [] h = refl
  keep-none (x ∷ m) h = rw (h x (inl refl), keep) (keep-none m (λ e l. h e (inr l)))

  -- One entry passes the test, and it is the only one that does.
  pub keep-single :
      (m : List (Text × CompiledModel)) (e : Text × CompiledModel)
      → IsMap m
      → Elem e m
      → f e ≡ true
      → ((d : Text × CompiledModel) → Elem d m → f d ≡ true → d.0 ≡ e.0)
      → keep f m ≡ e ∷ []
  unfolding keep
  keep-single [] e h l t u = absurd l
  keep-single (x ∷ m) e h (inl q) t u =
      let passes : f x ≡ true = subst (λ y. f y ≡ true) q t in
      let others = keep-none m (λ d r. elim (Bool-cases (f d)) [
        | inr b ↦ b
        | inl b ↦ absurd (
            All-Elem (λ (y : Text × CompiledModel). x.0 ≢ y.0) m h.0 d r
              (sym (u d (inr r) b ∙ ap (λ (y : Text × CompiledModel). y.0) q)))
      ]) in
      rw (passes, others, keep) (ap (λ (y : Text × CompiledModel). y ∷ []) (sym q))
  keep-single (x ∷ m) e h (inr l) t u = elim (Bool-cases (f x)) [
    | inl b ↦
        absurd (All-Elem (λ (y : Text × CompiledModel). x.0 ≢ y.0) m h.0 e l (u x (inl refl) b))
    | inr b ↦ rw (b, keep) (keep-single m e h.1 l t (λ d r. u d (inr r)))
  ]
