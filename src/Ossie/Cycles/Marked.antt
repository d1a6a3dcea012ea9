-- ===== src/Ossie/Cycles/Marked.antt =====
-- What the colours of the search say, and that every node is entered at most once.
use mathlib.Core.Path.{subst}
use semantic_operator.Prelude.{
  Text, ℕ, ◌+◌, ◌<◌, ◌≤◌, List, [], ◌∷◌, ◌++◌, text_eq, text_eq_iff, text_eq_refl, Bool-cases, ◌≡◌,
  ◌≢◌, ◌↔◌, ◌⊎◌, inl, inr, refl, ap, sym, ◌∙◌, arith, Elem, Map, lookup, insert, length,
}
use semantic_operator.Prelude.Lists.{Elem-snoc}
use semantic_operator.Ossie.Cycles.{
  Color, white, gray, black, Marks, color_of, drop_last, enter, leave, targets,
}
use semantic_operator.Ossie.Cycles.Walks.{IsTopological}

pub Color-cases : (c : Color) → (c ≡ white) ⊎ ((c ≡ gray) ⊎ (c ≡ black))
Color-cases white = inl refl
Color-cases gray = inr (inl refl)
Color-cases black = inr (inr refl)

pub drop_last-snoc : {A : Type 0} (xs : List A) (x : A) → drop_last (xs ++ x ∷ []) ≡ xs
unfolding drop_last
drop_last-snoc [] x = refl
drop_last-snoc (y ∷ []) x = refl
drop_last-snoc (y ∷ z ∷ xs) x = ap (y ∷◌) (drop_last-snoc (z ∷ xs) x)

color_of-insert : (m : Map Color) (n : Text) (c : Color) → color_of (insert n c m) n ≡ c
unfolding color_of lookup
color_of-insert m n c = rw (text_eq_refl n, color_of, lookup) refl

color_of-insert_other :
    (m : Map Color) (n x : Text) (c : Color) → x ≢ n → color_of (insert n c m) x ≡ color_of m x
unfolding color_of lookup
color_of-insert_other m n x c h = elim (Bool-cases (text_eq n x)) [
  | inl e ↦ absurd (h (sym ((text_eq_iff n x).0 e)))
  | inr e ↦ rw (e, color_of, lookup) refl
]

pub color_of-insert_cases :
    (m : Map Color) (n x : Text) (c : Color)
    → ((x ≡ n) × (color_of (insert n c m) x ≡ c))
      ⊎ ((x ≢ n) × (color_of (insert n c m) x ≡ color_of m x))
color_of-insert_cases m n x c = elim (Bool-cases (text_eq x n)) [
  | inl e ↦ let q = (text_eq_iff x n).0 e in inl (q, rw q (color_of-insert m n c))
  | inr e ↦
      let apart : x ≢ n = λ q. cc ((text_eq_iff x n).1 q) in
      inr (apart, color_of-insert_other m n x c apart)
]

weight : Color → ℕ
weight white = 1
weight gray = 0
weight black = 0

-- How many of the nodes are white.
pub whites : Map Color → List Text → ℕ
whites m [] = 0
whites m (n ∷ ns) = weight (color_of m n) + whites m ns

weight-le : (c d : Color) → (d ≡ white → c ≡ white) → weight d ≤ weight c
unfolding weight
weight-le white d h = ground arith
weight-le gray white h = cc (h refl)
weight-le gray gray h = omega arith
weight-le gray black h = omega arith
weight-le black white h = cc (h refl)
weight-le black gray h = omega arith
weight-le black black h = omega arith

weight-lt : (c d : Color) → c ≡ white → d ≢ white → weight d < weight c
unfolding weight
weight-lt white white e h = absurd (h refl)
weight-lt white gray e h = omega arith
weight-lt white black e h = omega arith
weight-lt gray d e h = cc
weight-lt black d e h = cc

-- The search turns no node white.
abbrev pub IsDarker : Map Color → Map Color → Type 0
IsDarker m k = (x : Text) → color_of k x ≡ white → color_of m x ≡ white

pub whites-IsDarker : (m k : Map Color) (ns : List Text) → IsDarker m k → whites k ns ≤ whites m ns
unfolding whites
whites-IsDarker m k [] h = omega arith
whites-IsDarker m k (n ∷ ns) h =
    omega (arith, weight-le (color_of m n) (color_of k n) (h n), whites-IsDarker m k ns h)

-- Entering a white node leaves fewer.
pub whites-lt :
    (m k : Map Color) (ns : List Text) (n : Text)
    → IsDarker m k
    → Elem n ns
    → color_of m n ≡ white
    → color_of k n ≢ white
    → whites k ns < whites m ns
unfolding whites
whites-lt m k [] n h e w d = absurd e
whites-lt m k (x ∷ ns) n h (inl e) w d =
    let now = weight-lt (color_of m x) (color_of k x) (rw (sym e) w) (λ q. d (rw e q)) in
    omega (arith, now, whites-IsDarker m k ns h)
whites-lt m k (x ∷ ns) n h (inr e) w d =
    omega (arith, weight-le (color_of m x) (color_of k x) (h x), whites-lt m k ns n h e w d)

pub whites-le : (m : Map Color) (ns : List Text) → whites m ns ≤ length ns
unfolding whites weight
whites-le m [] = omega arith
whites-le m (n ∷ ns) = omega (arith, weight-le white (color_of m n) (λ _. refl), whites-le m ns)

-- The gray nodes are those on the path, the black ones those that are done, the latest first, and
-- every edge of a node that is done goes to one that was done before.
pub record IsMarked (edges : List (Text × Text)) (s : Marks) (done : List Text) : Type 0 where
  pub gray_path : (n : Text) → (color_of s.color n ≡ gray) ↔ Elem n s.path
  pub black_done : (n : Text) → (color_of s.color n ≡ black) ↔ Elem n done
  pub ordered : IsTopological edges done

module _ (edges : List (Text × Text)) where
  -- Between two states with one path and a longer list of done nodes, no node turns white.
  pub IsMarked-IsDarker :
      (s t : Marks) (done later : List Text)
      → IsMarked edges s done
      → IsMarked edges t later
      → t.path ≡ s.path
      → ((n : Text) → Elem n done → Elem n later)
      → IsDarker s.color t.color
  IsMarked-IsDarker s t done later i k p h x w = elim (Color-cases (color_of s.color x)) [
    | inl e ↦ e
    | inr (inl g) ↦ cc ((k.gray_path x).1 (rw p ((i.gray_path x).0 g)))
    | inr (inr b) ↦ cc ((k.black_done x).1 (h x ((i.black_done x).0 b)))
  ]

  pub enter-IsMarked :
      (s : Marks) (done : List Text) (n : Text)
      → color_of s.color n ≡ white
      → IsMarked edges s done
      → IsMarked edges (enter n s) done
  unfolding enter
  enter-IsMarked s done n w i = record {
    gray_path = λ x. elim (color_of-insert_cases s.color n x gray) [
      | inl (q, e) ↦ (λ _. (Elem-snoc x n s.path).1 (inr q), λ _. e)
      | inr (d, e) ↦ (
        λ h. (Elem-snoc x n s.path).1 (inl ((i.gray_path x).0 (sym e ∙ h))),
        λ m. elim ((Elem-snoc x n s.path).0 m) [
          | inl l ↦ e ∙ (i.gray_path x).1 l
          | inr q ↦ absurd (d q)
        ],
      )
    ];
    black_done = λ x. elim (color_of-insert_cases s.color n x gray) [
      | inl (q, e) ↦ (
        λ h. cc,
        λ m. absurd (apart (sym w ∙ ap (color_of s.color) (sym q) ∙ (i.black_done x).1 m)),
      )
      | inr (d, e) ↦ (λ h. (i.black_done x).0 (sym e ∙ h), λ m. e ∙ (i.black_done x).1 m)
    ];
    ordered = i.ordered;
  }
    where
      apart : white ≢ black
      apart = cc

  pub leave-IsMarked :
      (s : Marks) (p done : List Text) (n : Text)
      → s.path ≡ p ++ n ∷ []
      → (Elem n p → ⊥)
      → ((m : Text) → Elem m (targets edges n) → Elem m done)
      → IsMarked edges s done
      → IsMarked edges (leave n s) (n ∷ done)
  unfolding leave
  leave-IsMarked s p done n e fresh h i = record {
    gray_path = λ x. elim (color_of-insert_cases s.color n x black) [
      | inl (q, c) ↦ (
        λ h. absurd (apart (sym h ∙ c)),
        λ m. absurd (fresh (subst (λ y. Elem y p) q (rw (e, drop_last-snoc) at m))),
      )
      | inr (d, c) ↦ (
        λ h. elim ((Elem-snoc x n p).0 (rw e at ((i.gray_path x).0 (sym c ∙ h)))) [
          | inl l ↦ rw (e, drop_last-snoc) l
          | inr q ↦ absurd (d q)
        ],
        λ m. c ∙ (i.gray_path x).1 (rw e ((Elem-snoc x n p).1 (inl (rw (e, drop_last-snoc) at m)))),
      )
    ];
    black_done = λ x. elim (color_of-insert_cases s.color n x black) [
      | inl (q, c) ↦ (λ _. inl q, λ _. c)
      | inr (d, c) ↦ (
        λ h. inr ((i.black_done x).0 (sym c ∙ h)),
        λ m. elim m [ inl q ↦ absurd (d q) | inr l ↦ c ∙ (i.black_done x).1 l ],
      )
    ];
    ordered = (h, λ m. apart (sym gray_now ∙ (i.black_done n).1 m), i.ordered);
  }
    where
      apart : gray ≢ black
      apart = cc

      gray_now : color_of s.color n ≡ gray
      gray_now = (i.gray_path n).1 (rw e ((Elem-snoc n n p).1 (inr refl)))
