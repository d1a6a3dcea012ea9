-- ===== src/Prelude/Splits.antt =====
-- Cutting a text at a byte.
use Prim.Native.Nat.{ℕ}
use mathlib.Core.Path.{◌≡◌, sym, ap, subst}
use mathlib.Core.Logic.{inl, inr}
use mathlib.Core.List.{[], ◌∷◌, ◌++◌}
use mathlib.Core.Option.{some, some-injective}
use native.Mathlib.Omega.{arith}
use semantic_operator.Prelude.Tests.{◌==◌, Bool-cases, Option-cases}
use semantic_operator.Prelude.Strings.{Text, split_at_byte}

-- The two sides and the byte between them are the text.
pub split_at_byte-append : (b : ℕ) (s l r : Text) → split_at_byte b s ≡ some (l, r) → l ++ b ∷ r ≡ s
unfolding split_at_byte
split_at_byte-append b [] l r e = cc
split_at_byte-append b (c ∷ s) l r e = elim (Bool-cases (c == b)) [
  | inl q ↦
      let same = some-injective ([], s) (l, r) (rw (q, split_at_byte) at e) in
      at_byte c b l r s (ground (arith, q)) same
  | inr q ↦ elim (Option-cases (split_at_byte b s)) [
    | inl n ↦ cc (rw (q, n, split_at_byte) at e)
    | inr (p, n) ↦
        let same = some-injective (c ∷ p.0, p.1) (l, r) (rw (q, n, split_at_byte) at e) in
        later c b l r s p.0 p.1 same (split_at_byte-append b s p.0 p.1 n)
  ]
]
  where
    at_byte :
        (c b : ℕ) (l r s : Text) → c ≡ b → ◌≡◌ {A = Text × Text} ([], s) (l, r) → l ++ b ∷ r ≡ c ∷ s
    at_byte c b l r s e q =
        subst (λ (p : Text × Text). p.0 ++ b ∷ p.1 ≡ c ∷ s) q (ap (λ x. x ∷ s) (sym e))

    later :
        (c b : ℕ) (l r s x y : Text)
        → ◌≡◌ {A = Text × Text} (c ∷ x, y) (l, r)
        → x ++ b ∷ y ≡ s
        → l ++ b ∷ r ≡ c ∷ s
    later c b l r s x y q h = subst (λ (p : Text × Text). p.0 ++ b ∷ p.1 ≡ c ∷ s) q (ap (c ∷◌) h)
