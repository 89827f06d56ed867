-- ===== src/Domain/Programs.antt =====
-- The structs of accts-api/domain/types.go on programs, rule versions, enrollments and assignments.
use paisa.Prelude.{String, Bool, Option, List}
use paisa.Prelude.Int.{ℤ}
use paisa.Domain.Config.{Fields}
use paisa.Domain.Constants.{Status, RuleStatus}

pub record Program : Type 0 where
  pub id : String
  pub partner_id : String
  pub name : String
  pub tier_code : String
  pub status : Status
  pub priority : ℤ

-- A version of the rules of a program; `scope` tells the program's own from the add-on packages.
pub record RuleVersion : Type 0 where
  pub id : String
  pub partner_id : String
  pub program_id : String
  pub version : ℤ
  pub status : RuleStatus
  pub scope : String
  pub rule_set_key : String
  pub name : String
  pub description : String
  pub earn_basis : String
  pub published_at : Option ℤ

-- A row of rule_groups.
pub record RuleGroup : Type 0 where
  pub id : String
  pub rule_version_id : String
  pub name : String
  pub priority : ℤ
  pub resolution_strategy : String

-- A row of earning_rules.
pub record EarningRule : Type 0 where
  pub id : String
  pub rule_group_id : String
  pub rule_key : String
  pub name : String
  pub rule_type : String
  pub priority : ℤ
  pub status : Status
  pub eligibility_config : Fields
  pub formula_config : Fields

pub record ProgramRequest : Type 0 where
  pub name : String
  pub tier_code : String
  pub priority : ℤ

pub record RuleLimitRequest : Type 0 where
  pub scope : String
  pub period : String
  pub max_points : ℤ
  pub max_basis_amount_minor : ℤ

pub record RuleDependencyRequest : Type 0 where
  pub depends_on_rule_key : String
  pub dependency_type : String

-- The configurations are nil where they are missing.
pub record RuleRequest : Type 0 where
  pub rule_key : String
  pub name : String
  pub rule_type : String
  pub priority : ℤ
  pub status : String
  pub eligibility_config : Option Fields
  pub formula_config : Option Fields
  pub limits : List RuleLimitRequest
  pub dependencies : List RuleDependencyRequest

pub record RuleGroupRequest : Type 0 where
  pub name : String
  pub resolution_strategy : String
  pub priority : ℤ
  pub rules : List RuleRequest

pub record RuleVersionRequest : Type 0 where
  pub earn_basis : String
  pub scope : String
  pub rule_set_key : String
  pub name : String
  pub description : String
  pub rule_groups : List RuleGroupRequest

pub record RuleValidationResult : Type 0 where
  pub valid : Bool
  pub errors : List String
