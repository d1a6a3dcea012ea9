-- ===== src/Governance/Claims.antt =====
-- internal/governance/governance.go: the placeholders of row filters, and the keys of an identity.
-- The regular expression of a placeholder, and SHA-256 with its hexadecimal form, are parameters.
use semantic_operator.Prelude.{
  Text, List, [], ◌∷◌, ◌++◌, map, Option, none, some, codes, length, text_eq, if◌then◌else◌, Map,
  lookup, Result, ok, err, ◌>>=◌, ◌>>◌, fail_if, map_err, ℕ, Bool, false, ◌==◌, ◌&&◌, ◌||◌,
}
use semantic_operator.Prelude.Strings.{join}
use semantic_operator.Prelude.Sorting.{sort_by}
use semantic_operator.Errors.{Error, missing_claim, claim_literal, malformed_template}
use semantic_operator.Emitter.{Value, string, decimal}
use semantic_operator.Api.{GovernanceSpec}
use semantic_operator.Governance.{Identity, Glob, Visibility, policy_roles, visible, role_key}

-- What the regular expression makes of a predicate: text between the matches, and the claims that
-- the matches name.
pub data Part : Type 0 where
  plain claim : Text → Part

-- What the function given to `ReplaceAllStringFunc` returns, or its first error.
unfoldable pub expand_part : Map Text → (Value → Result Error Text) → Part → Result Error Text
expand_part claims literal (plain s) = ok s
expand_part claims literal (claim name) = elim (lookup claims name) [
  | none ↦ err (missing_claim name)
  | some v ↦ map_err (claim_literal name) (literal (string v))
]

unfoldable pub expand_parts : Map Text → (Value → Result Error Text) → List Part → Result Error Text
expand_parts claims literal [] = ok []
expand_parts claims literal (p ∷ ps) = do
  s ← expand_part claims literal p
  rest ← expand_parts claims literal ps
  ok (s ++ rest)

-- `claimRef.ReplaceAllString(pred, placeholderLiteral)`
unfoldable pub fill_parts : List Part → Text
fill_parts [] = []
fill_parts (plain s ∷ ps) = s ++ fill_parts ps
fill_parts (claim name ∷ ps) = codes "'x'" ++ fill_parts ps

-- `strings.Contains` of one byte twice.
unfoldable pub has_pair : ℕ → Text → Bool
has_pair b [] = false
has_pair b (c ∷ []) = false
has_pair b (c ∷ d ∷ s) = c == b && d == b || has_pair b (d ∷ s)

-- `ValidatablePredicate` of the parts of a predicate.
unfoldable pub validatable_predicate : List Part → Result Error Text
unfolding fill_parts has_pair
validatable_predicate parts = do
  fail_if (has_pair b'{' (fill_parts parts) || has_pair b'}' (fill_parts parts)) malformed_template
  ok (fill_parts parts)

-- `sortedUniqueCopy` after its sort: an element goes where it repeats the one before.
unfoldable pub drop_repeats : List Text → List Text
drop_repeats [] = []
drop_repeats (s ∷ []) = s ∷ []
drop_repeats (s ∷ t ∷ more) =
    let rest = drop_repeats (t ∷ more) in if text_eq s t then rest else s ∷ rest

unfoldable pub sorted_unique : List Text → List Text
unfolding drop_repeats
sorted_unique names = drop_repeats (sort_by (λ n. n) names)

-- `writeIdentityValue`
unfoldable pub identity_value : Text → Text → Text
identity_value kind value =
    decimal (length kind)
    ++ b':' ∷ kind
    ++ b'=' ∷ decimal (length value)
    ++ b':' ∷ value
    ++ b';' ∷ []

unfoldable pub identity_values : Text → List Text → Text
identity_values kind [] = []
identity_values kind (v ∷ vs) = identity_value kind v ++ identity_values kind vs

-- A claim is written where its name is found in the map.
unfoldable pub claim_value : Map Text → Text → Text
claim_value claims name = elim (lookup claims name) [ none ↦ [] | some v ↦ v ]

unfoldable pub claim_values : Map Text → List Text → Text
claim_values claims [] = []
claim_values claims (n ∷ ns) =
    identity_value (codes "claim-name") n
    ++ identity_value (codes "claim-value") (claim_value claims n)
    ++ claim_values claims ns

-- The names of a Go map, each once.
abbrev pub claim_names : Identity → List Text
claim_names id = sorted_unique (map (λ (c : Text × Text). c.0) id.claims)

-- What `IdentityDigest` hashes.
unfoldable pub identity_text : Identity → Text
unfolding identity_values claim_values
identity_text id =
    identity_value (codes "principal") id.principal
    ++ identity_values (codes "group") (sorted_unique id.groups)
    ++ identity_values (codes "role") (sorted_unique id.roles)
    ++ claim_values id.claims (claim_names id)

unfoldable pub identity_digest : (Text → Text) → Identity → Text
unfolding identity_text
identity_digest sha256_hex id = sha256_hex (identity_text id)

unfoldable pub key_roles : Identity → Result Error Visibility → Text
key_roles id (err _) = join (codes ",") (sorted_unique (policy_roles id))
key_roles id (ok v) = role_key v

-- `IdentityKey`
unfoldable pub identity_key :
    (Text → Option Glob) → (Text → Text) → Option GovernanceSpec → Identity → Text
unfolding key_roles
identity_key compile sha256_hex g id =
    key_roles id (visible compile g id) ++ b'|' ∷ identity_digest sha256_hex id
