-- ===== src/Governance/Roles.antt =====
-- The role set of an identity: `PolicyRoles`, and the roles that `Visible` looks up.
use semantic_operator.Prelude.{
  Text, ◌||◌, List, [], ◌∷◌, ◌++◌, ◌≡◌, ◌≢◌, ◌↔◌, ◌⊎◌, inl, refl, arith, Elem, is_nil, contains,
  contains_iff, if◌then◌else◌,
}
use semantic_operator.Prelude.Lists.{Elem-snoc}
use semantic_operator.Api.{GovernanceSpec}
use semantic_operator.Governance.{Identity, collect_roles, policy_roles, wanted}

abbrev next : List Text → Text → List Text
next roles value = if is_nil value || contains roles value then roles else roles ++ value ∷ []

Elem-next :
    (roles : List Text) (value x : Text)
    → Elem x (next roles value) ↔ (Elem x roles ⊎ ((x ≡ value) × (x ≢ [])))
Elem-next roles [] x = ground arith
Elem-next roles (c ∷ v) x = ground (arith, contains_iff roles (c ∷ v), Elem-snoc x (c ∷ v) roles)

Elem-collect_roles :
    (roles values : List Text) (x : Text)
    → Elem x (collect_roles roles values) ↔ (Elem x roles ⊎ (Elem x values × (x ≢ [])))
unfolding collect_roles
Elem-collect_roles roles [] x = ground arith
Elem-collect_roles roles (v ∷ vs) x =
    ground (arith, Elem-collect_roles (next roles v) vs x, Elem-next roles v x)

-- The policy roles are the names among groups and roles that are not empty.
pub Elem-policy_roles :
    (id : Identity) (x : Text)
    → Elem x (policy_roles id) ↔ ((Elem x id.groups ⊎ Elem x id.roles) × (x ≢ []))
unfolding policy_roles
Elem-policy_roles id x = ground (
  arith,
  Elem-collect_roles (collect_roles [] id.groups) id.roles x,
  Elem-collect_roles [] id.groups x,
)

-- Two identities that name the same roles, in whatever order and claim.
abbrev pub SameRoles : Identity → Identity → Type 0
SameRoles a b = (x : Text) → Elem x (policy_roles a) ↔ Elem x (policy_roles b)

is_nil-SameRoles :
    (xs ys : List Text) → ((x : Text) → Elem x xs ↔ Elem x ys) → is_nil xs ≡ is_nil ys
is_nil-SameRoles [] [] h = refl
is_nil-SameRoles [] (y ∷ ys) h = absurd ((h y).1 (inl refl))
is_nil-SameRoles (x ∷ xs) [] h = absurd ((h x).0 (inl refl))
is_nil-SameRoles (x ∷ xs) (y ∷ ys) h = refl

-- The roles that are looked up depend on the set of names only.
pub Elem-wanted_same :
    (g : GovernanceSpec) (a b : Identity) (x : Text)
    → SameRoles a b
    → Elem x (wanted g a) ↔ Elem x (wanted g b)
unfolding wanted
Elem-wanted_same g a b x same =
    ground (arith, is_nil-SameRoles (policy_roles a) (policy_roles b) same, same x)
