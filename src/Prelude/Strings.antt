-- ===== src/Prelude/Strings.antt =====
-- Go strings as lists of bytes: comparison, membership, and the functions of `strings` that the
-- program calls.
use Prim.Native.Nat.{ℕ, ◌-◌, compare, Ordering}
use Prim.Native.Char.{code}
use Prim.Native.String.{String}
use mathlib.Core.Path.{◌≡◌, refl}
use mathlib.Core.Logic.{◌↔◌}
use mathlib.Core.Bool.{Bool, true, false, ◌&&◌}
use mathlib.Core.List.{List, [], ◌∷◌, ◌++◌}
use mathlib.Core.Option.{Option, none, some}
use native.Mathlib.Omega.{arith}
use semantic_operator.Prelude.Tests.{◌==◌, leb, if◌then◌else◌}
use semantic_operator.Prelude.Lists.{any, Elem, any-Elem, any-of_Elem}

abbrev pub Text : Type 0
Text = List ℕ

-- The bytes of an ASCII literal. `String` has its own `[]` and `∷`.
abbrev pub codes : String → Text
codes String.[] = []
codes (String.◌∷◌ c s) = code c ∷ codes s

unfoldable pub text_eq : Text → Text → Bool
text_eq [] [] = true
text_eq [] (b ∷ t) = false
text_eq (a ∷ s) [] = false
text_eq (a ∷ s) (b ∷ t) = a == b && text_eq s t

pub text_eq_iff : (s t : Text) → (text_eq s t ≡ true) ↔ (s ≡ t)
unfolding text_eq
text_eq_iff [] [] = (λ _. refl, λ _. refl)
text_eq_iff [] (b ∷ t) = ground arith
text_eq_iff (a ∷ s) [] = ground arith
text_eq_iff (a ∷ s) (b ∷ t) = ground (arith, text_eq_iff s t)

pub text_eq_refl : (s : Text) → text_eq s s ≡ true
text_eq_refl s = (text_eq_iff s s).1 refl

-- The byte-wise lexicographic order of Go's `<=` on strings.
unfoldable pub text_le : Text → Text → Bool
text_le [] t = true
text_le (a ∷ s) [] = false
text_le (a ∷ s) (b ∷ t) = elim (compare a b) [
  | Ordering.lt ↦ true
  | Ordering.eq ↦ text_le s t
  | Ordering.gt ↦ false
]

pub text_le_refl : (s : Text) → text_le s s ≡ true
unfolding text_le
text_le_refl [] = refl
text_le_refl (a ∷ s) = ground (arith, text_le_refl s)

pub text_le_total : (s t : Text) → text_le s t ≡ false → text_le t s ≡ true
unfolding text_le
text_le_total [] t h = cc
text_le_total (a ∷ s) [] h = refl
text_le_total (a ∷ s) (b ∷ t) h = ground (arith, text_le_total s t)

pub text_le_antisymm : (s t : Text) → text_le s t ≡ true → text_le t s ≡ true → s ≡ t
unfolding text_le
text_le_antisymm [] [] h k = refl
text_le_antisymm [] (b ∷ t) h k = cc
text_le_antisymm (a ∷ s) [] h k = cc
text_le_antisymm (a ∷ s) (b ∷ t) h k = ground (arith, text_le_antisymm s t)

pub text_le_trans : (s t u : Text) → text_le s t ≡ true → text_le t u ≡ true → text_le s u ≡ true
unfolding text_le
text_le_trans [] t u h k = refl
text_le_trans (a ∷ s) [] u h k = cc
text_le_trans (a ∷ s) (b ∷ t) [] h k = cc
text_le_trans (a ∷ s) (b ∷ t) (c ∷ u) h k = ground (arith, text_le_trans s t u)

-- A lookup in a set of strings, the set being the list of what was put in.
unfoldable pub contains : List Text → Text → Bool
unfolding any
contains xs s = any (text_eq s) xs

pub contains_iff : (xs : List Text) (s : Text) → (contains xs s ≡ true) ↔ Elem s xs
unfolding contains
contains_iff xs s = (
  λ h. let (a, m, e) = any-Elem (text_eq s) xs h in rw ((text_eq_iff s a).0 e) m,
  λ m. any-of_Elem (text_eq s) xs s m (text_eq_refl s),
)

-- `strings.HasPrefix(s, p)`
unfoldable pub has_prefix : Text → Text → Bool
has_prefix s [] = true
has_prefix [] (b ∷ p) = false
has_prefix (a ∷ s) (b ∷ p) = a == b && has_prefix s p

-- `strings.IndexByte`, as the parts before and after the first occurrence.
unfoldable pub split_at_byte : ℕ → Text → Option (Text × Text)
split_at_byte b [] = none
split_at_byte b (c ∷ s) =
    let rest = split_at_byte b s in
    if c == b then some ([], s) else elim rest [ none ↦ none | some (l, r) ↦ some (c ∷ l, r) ]

-- `strings.ReplaceAll` of a one-byte string.
unfoldable pub replace_byte : ℕ → Text → Text → Text
replace_byte b new [] = []
replace_byte b new (c ∷ s) =
    let rest = replace_byte b new s in if c == b then new ++ rest else c ∷ rest

abbrev pub upper : ℕ → ℕ
upper c = if leb b'a' c && leb c b'z' then c - 32 else c

-- `strings.ToUpper` on ASCII.
unfoldable pub to_upper : Text → Text
to_upper [] = []
to_upper (c ∷ s) = upper c ∷ to_upper s

-- `strings.Join`
unfoldable pub join : Text → List Text → Text
join sep [] = []
join sep (s ∷ []) = s
join sep (s ∷ t ∷ ts) = s ++ sep ++ join sep (t ∷ ts)
