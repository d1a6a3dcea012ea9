-- ===== src/Api.antt =====
-- api/v1alpha1: the SemanticModel resource, and the lookups of helpers.go. Descriptions, labels,
-- AI contexts and custom extensions are left out: no modelled operation reads them.
use semantic_operator.Prelude.{
  Text, Bool, List, [], ◌∷◌, Option, none, some, if◌then◌else◌, text_eq, codes,
}

pub record ConnectionSpec : Type 0 where
  pub catalog : Text
  pub database : Text
  pub view_database : Text

pub record DialectExpression : Type 0 where
  pub dialect : Text
  pub expression : Text

-- `Expression` is the list of its dialects.
abbrev pub Expression : Type 0
Expression = List DialectExpression

pub record Dimension : Type 0 where
  pub is_time : Bool

pub record Field : Type 0 where
  pub name : Text
  pub expression : Expression
  pub dimension : Option Dimension

pub record Dataset : Type 0 where
  pub name : Text
  pub source : Text
  pub primary_key : List Text
  pub fields : List Field

pub record Relationship : Type 0 where
  pub name : Text
  pub from : Text
  pub to : Text
  pub from_columns : List Text
  pub to_columns : List Text

pub record Metric : Type 0 where
  pub name : Text
  pub expression : Expression

pub record OssieModel : Type 0 where
  pub name : Text
  pub datasets : List Dataset
  pub relationships : List Relationship
  pub metrics : List Metric

pub record RelationshipJoin : Type 0 where
  pub relationship : Text
  pub type : Text

pub record RowFilter : Type 0 where
  pub dataset : Text
  pub predicate : Text

pub record RolePolicy : Type 0 where
  pub name : Text
  pub allow_metrics : List Text
  pub deny_fields : List Text
  pub row_filters : List RowFilter

-- `external` is `External.ProviderRef`, where `External` is set.
pub record GovernanceSpec : Type 0 where
  pub default_role : Text
  pub roles : List RolePolicy
  pub external : Option Text

pub record ViewFilter : Type 0 where
  pub field : Text
  pub op : Text
  pub value : Text
  pub values : List Text
  pub value_type : Text

pub record ViewSpec : Type 0 where
  pub name : Text
  pub metrics : List Text
  pub dimensions : List Text
  pub filters : List ViewFilter
  pub time_grain : Text
  pub role : Text

pub record SemanticModelSpec : Type 0 where
  pub connection : ConnectionSpec
  pub ossie : OssieModel
  pub governance : Option GovernanceSpec
  pub views : List ViewSpec
  pub joins : List RelationshipJoin

-- The inner loop of `Select`: the first expression of one dialect.
unfoldable pub find_dialect : Text → Expression → Option Text
find_dialect d [] = none
find_dialect d (e ∷ es) = if text_eq e.dialect d then some e.expression else find_dialect d es

-- The outer loop of `Select`.
unfoldable pub first_dialect : List Text → Expression → Option Text
first_dialect [] e = none
first_dialect (d ∷ ds) e =
    let rest = first_dialect ds e in elim (find_dialect d e) [ some body ↦ some body | none ↦ rest ]

abbrev pub dialect_preference : List Text
dialect_preference = codes "STARROCKS" ∷ codes "ANSI_SQL" ∷ []

unfoldable pub select : Expression → Option Text
unfolding first_dialect find_dialect
select e = first_dialect dialect_preference e

unfoldable pub find_field : Text → List Field → Option Field
find_field name [] = none
find_field name (f ∷ fs) = if text_eq f.name name then some f else find_field name fs

unfoldable pub find_role : Text → List RolePolicy → Option RolePolicy
find_role name [] = none
find_role name (r ∷ rs) = if text_eq r.name name then some r else find_role name rs

-- `(*GovernanceSpec).Role`, nil receiver included.
unfoldable pub role : Option GovernanceSpec → Text → Option RolePolicy
unfolding find_role
role none name = none
role (some g) name = find_role name g.roles
