-- ===== src/Serving/Views/Tests.antt =====
-- Runs of the DDL of views, and an instance of the theorem on publication.
use semantic_operator.Prelude.{
  Text, Bool, true, false, List, [], ◌∷◌, codes, Option, none, some, ◌≡◌, refl, text_eq,
}
use semantic_operator.Prelude.Strings.{replace_byte}
use semantic_operator.Api.{ViewSpec}
use semantic_operator.Emitter.{quoted, Value, string, int}
use semantic_operator.Emitter.Trino
use semantic_operator.Emitter.Trino.{trino}
use semantic_operator.Planner.{CompiledModel}
use semantic_operator.Planner.Build.Tests.{model, spec, analyst}
use semantic_operator.Serving.Views.{quote_dotted, coerce}

abbrev open_model : CompiledModel
open_model = record model {
  governance = some (record spec { roles = record analyst { row_filters = [] } ∷ [] });
}

abbrev by_city : ViewSpec
by_city = record {
  name = codes "by_city";
  metrics = codes "total" ∷ [];
  dimensions = codes "u.city" ∷ [];
  filters = [];
  time_grain = [];
  role = codes "analyst";
}

abbrev no_number : Text → Option Value
no_number s = none

abbrev accepts_all : List Text → Text → Bool
accepts_all ran sql = true

dotted_run : quote_dotted trino (codes "iceberg.views") ≡ codes "\"iceberg\".\"views\""
unfolding quote_dotted Trino.quote_ident quoted replace_byte
dotted_run = refl

coerce_run : coerce (λ s. some (int false 7)) (codes "7") (codes "string") ≡ string (codes "7")
unfolding coerce text_eq
coerce_run = refl
