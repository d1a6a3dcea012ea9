-- ===== src/Ossie/Validate/Providers.antt =====
-- References to external providers without a problem.
use semantic_operator.Prelude.{
  Text, ℕ, true, not, ◌||◌, ◌==◌, ◌≤◌, [], ◌∷◌, ◌++◌, all, length, Option, none, some, Bool-cases,
  ◌≡◌, ◌⊎◌, inl, inr, ap, arith, All,
}
use semantic_operator.Ossie.Validate.{
  is_label_start, last_is, valid_provider_ref, external_problems,
}
use semantic_operator.Ossie.Validate.Fresh.{add_if-eq-nil, not-false, not-true, both_true}

-- A provider reference is a DNS label: at most 63 bytes, lower-case letters, digits and dashes, with
-- no dash at either end.
abbrev pub IsLabelByte : ℕ → Type 0
IsLabelByte b = ((b'a' ≤ b) × (b ≤ b'z')) ⊎ ((b'0' ≤ b) × (b ≤ b'9'))

abbrev pub IsProviderRef : Text → Type 0
IsProviderRef [] = ⊥
IsProviderRef (c ∷ s) =
    (length (c ∷ s) ≤ 63)
    × IsLabelByte c
    × All (λ b. IsLabelByte b ⊎ (b ≡ b'-')) s
    × ((before : Text) → (c ∷ s) ≡ before ++ b'-' ∷ [] → ⊥)

abbrev pub IsValidProvider : Option Text → Type 0
IsValidProvider none = Unit
IsValidProvider (some ref) = IsProviderRef ref

label_byte : (b : ℕ) → is_label_start b ≡ true → IsLabelByte b
unfolding is_label_start
label_byte b h = ground (arith, h)

label_bytes :
    (s : Text)
    → all (λ b. is_label_start b || b == b'-') s ≡ true
    → All (λ b. IsLabelByte b ⊎ (b ≡ b'-')) s
unfolding all
label_bytes [] h = tt
label_bytes (b ∷ s) h =
    let (now, later) = both_true (is_label_start b || b == b'-') _ h in
    (label_or_dash b now, label_bytes s later)
  where
    label_or_dash : (b : ℕ) → (is_label_start b || b == b'-') ≡ true → IsLabelByte b ⊎ (b ≡ b'-')
    label_or_dash b h = elim (Bool-cases (is_label_start b)) [
      | inl e ↦ inl (label_byte b e)
      | inr e ↦ inr (ground (arith, h, e))
    ]

last_is-snoc : (x : ℕ) (before : Text) → last_is x (before ++ x ∷ []) ≡ true
unfolding last_is
last_is-snoc x [] = ground arith
last_is-snoc x (c ∷ []) = ground arith
last_is-snoc x (c ∷ d ∷ before) = last_is-snoc x (d ∷ before)

valid_provider_ref-IsProviderRef : (ref : Text) → valid_provider_ref ref ≡ true → IsProviderRef ref
unfolding valid_provider_ref
valid_provider_ref-IsProviderRef [] h = cc
valid_provider_ref-IsProviderRef (c ∷ s) h =
    let (three, dash) = both_true _ (not (last_is b'-' (c ∷ s))) h in
    let (two, bytes) = both_true _ (all (λ b. is_label_start b || b == b'-') s) three in
    let (short, start) = both_true _ (is_label_start c) two in
    (
      ground (arith, short),
      label_byte c start,
      label_bytes s bytes,
      λ before e. cc (last_is-snoc b'-' before, ap (last_is b'-') e, not-true _ dash),
    )

pub provider_valid :
    (external : Option Text) → external_problems external ≡ [] → IsValidProvider external
unfolding external_problems
provider_valid none h = tt
provider_valid (some ref) h =
    valid_provider_ref-IsProviderRef ref (not-false _ (add_if-eq-nil _ _ h))
