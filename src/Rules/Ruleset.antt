-- ===== src/Rules/Ruleset.antt =====
-- internal/rules/format.go: the compiled part of a ruleset, which Resolve reads.
use vtt_platform.Prelude.{String, Bool, Option, List}
use vtt_platform.Prelude.Int.{ℤ}
use vtt_platform.Go.GoMap.{Map}
use vtt_platform.Rules.Syntax.{Node}

pub record Threshold : Type 0 where
  pub when_expr : Node
  pub apply_condition : String
  pub remove_when_false : Bool

pub record ResourceDef : Type 0 where
  pub thresholds : List Threshold

pub record Property : Type 0 where
  pub key : String
  pub resource : Option ResourceDef

pub record LimitedUsage : Type 0 where
  pub resource : String
  pub cost : ℤ

pub record Targeting : Type 0 where
  pub range : ℤ
  pub max_targets : ℤ

pub record ResourceChangeOutcome : Type 0 where
  pub resource : String
  pub delta_expr : Node
  pub delta_expr_src : String

-- One constructor for each OutcomeKind.
pub data OutcomeDef : Type 0 where
  resource_change : ResourceChangeOutcome → OutcomeDef
  apply_condition remove_condition : String → OutcomeDef

pub record CompiledResolution : Type 0 where
  pub roll : Node
  pub vs : Node
  pub roll_src : String
  pub vs_src : String
  pub branches : String × String

-- A usage that is not limited is at will.
pub record CompiledPower : Type 0 where
  pub id : String
  pub name : String
  pub limited : Option LimitedUsage
  pub targeting : Targeting
  pub resolution : Option CompiledResolution
  pub branch_outcomes : List OutcomeDef × List OutcomeDef
  pub effects : List OutcomeDef

pub record Ruleset : Type 0 where
  pub properties : List Property
  pub compiled : Map CompiledPower
