-- ===== src/Serving/Authorization/Tests.antt =====
-- Runs of the registry, and an instance of its theorem.
use semantic_operator.Prelude.{
  true, false, [], ◌∷◌, codes, some, none, ok, err, text_eq, ◌≡◌, ◌↔◌, refl,
}
use semantic_operator.Errors.{denied_by, unavailable, repeated_provider, nil_registry}
use semantic_operator.Governance.{no_identity}
use semantic_operator.Serving.Authorization.{
  Input, Verdict, Provider, failed, Registry, register_provider, authorize_external,
}
use semantic_operator.Serving.Authorization.Decided.{IsAllowed, authorize_external_exact}

abbrev input : Input
input = record {
  identity = no_identity;
  model = record {
    name = codes "m";
    version = codes "1";
    namespace = codes "ns";
    resource = codes "cr";
  };
  request = record {
    model = [];
    metrics = [];
    dimensions = [];
    filters = [];
    metric_filters = [];
    time_grain = [];
    order_by = [];
    limit = 0;
  };
  environment = record { access_time = 0; adapter = [] };
}

abbrev yes : Verdict
yes = record { allow = true; revision = [] }

abbrev allows : Provider
allows i = ok yes

abbrev denies : Provider
denies i = ok (record { allow = false; revision = [] })

abbrev breaks : Provider
breaks i = err failed

abbrev registry : Registry
registry = (codes "a", allows) ∷ (codes "d", denies) ∷ (codes "b", breaks) ∷ []

denied_run : authorize_external (some registry) (codes "d") input ≡ err (denied_by (codes "d"))
unfolding authorize_external text_eq
denied_run = refl

broken_run : authorize_external (some registry) (codes "b") input ≡ err (unavailable (codes "b"))
unfolding authorize_external text_eq
broken_run = refl

missing_run : authorize_external (some registry) (codes "x") input ≡ err (unavailable (codes "x"))
unfolding authorize_external text_eq
missing_run = refl

repeated_run :
    register_provider (λ s. true) (codes "a") (some denies) (some registry)
    ≡ err (repeated_provider (codes "a"))
unfolding register_provider text_eq
repeated_run = refl

nil_run : register_provider (λ s. true) (codes "a") (some denies) none ≡ err nil_registry
unfolding register_provider
nil_run = refl

authorize_external_exact_example :
    (authorize_external (some registry) (codes "a") input ≡ ok yes)
    ↔ IsAllowed (some registry) (codes "a") input yes
authorize_external_exact_example = authorize_external_exact (some registry) (codes "a") input yes
