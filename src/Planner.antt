-- ===== src/Planner.antt =====
-- internal/planner/model.go: the compiled model. The version hash, the descriptions and the AI
-- contexts are left out, since no modelled operation reads them.
pub mod Joins
pub mod Request
pub mod Render
pub mod Queries
pub mod Composite
pub mod Build
pub mod Compile
use semantic_operator.Prelude.{Text, Bool, List, Option, Map}
use semantic_operator.Api.{ConnectionSpec, GovernanceSpec}
use semantic_operator.Expr.Metric.{MetricExpr}

pub record CompiledField : Type 0 where
  pub name : Text
  pub expr : Text
  pub is_dimension : Bool
  pub is_time : Bool

pub record CompiledDataset : Type 0 where
  pub name : Text
  pub catalog : Text
  pub database : Text
  pub table : Text
  pub primary_key : List Text
  pub fields : Map CompiledField
  pub field_order : List Text

pub record CompiledRelationship : Type 0 where
  pub name : Text
  pub from : Text
  pub to : Text
  pub from_columns : List Text
  pub to_columns : List Text
  pub join_type : Text

pub record CompiledMetric : Type 0 where
  pub name : Text
  pub raw : Text
  pub expr : MetricExpr

pub record CompiledModel : Type 0 where
  pub name : Text
  pub version : Text
  pub namespace : Text
  pub resource : Text
  pub connection : ConnectionSpec
  pub datasets : Map CompiledDataset
  pub dataset_order : List Text
  pub relationships : List CompiledRelationship
  pub metrics : Map CompiledMetric
  pub metric_order : List Text
  pub governance : Option GovernanceSpec
