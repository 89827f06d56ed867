-- ===== src/Domain/Rules.antt =====
-- accts-api/domain/rules.go: the graph of a rule version, and the validation before it is published.
use paisa.Prelude.{
  String, ◌==◌, Bool, not, ◌&&◌, ◌||◌, Option, none, some, List, [], ◌∷◌, any, if◌then◌else◌,
}
use paisa.Prelude.Int.{ℤ, pos, leb_ℤ}
use Prim.Native.String.{◌++◌ as concat}
use paisa.Domain.Errors.{Error, invalid_error}
use paisa.Domain.Config.{Fields}
use paisa.Db.Result.{Result, ok, err, all_ok}

pub record RuleGraphGroup : Type 0 where
  pub id : String
  pub strategy : String
  pub priority : ℤ

pub record RuleGraphRule : Type 0 where
  pub id : String
  pub group_id : String
  pub rule_key : String
  pub rule_type : String
  pub priority : ℤ
  pub eligibility : Fields
  pub formula : Fields

pub record RuleGraphLimit : Type 0 where
  pub id : String
  pub rule_id : String
  pub scope : String
  pub period : String
  pub max_points : ℤ
  pub max_basis_amount_minor : ℤ

pub record RuleGraphDependency : Type 0 where
  pub rule_id : String
  pub depends_on_rule_id : String
  pub dependency_type : String

pub record RuleGraph : Type 0 where
  pub groups : List RuleGraphGroup
  pub rules : List RuleGraphRule
  pub limits : List RuleGraphLimit
  pub dependencies : List RuleGraphDependency

pub record SelectedAward : Type 0 where
  pub rule_id : String
  pub rule_version_id : String
  pub basis_amount_minor : ℤ
  pub points : ℤ

-- `SupportedRuleStrategy`
abbrev pub supported_rule_strategy : String → Bool
supported_rule_strategy s = s == "stack" || s == "max_of" || s == "waterfall"

-- `SupportedRuleType`
abbrev pub supported_rule_type : String → Bool
supported_rule_type s =
    s == "points_per_dollar"
    || s == "fixed_per_transaction"
    || s == "first_purchase_bonus"
    || s == "spend_window_bonus"

-- `SupportedLimitPeriod`
abbrev pub supported_limit_period : String → Bool
supported_limit_period s =
    s == "" || s == "lifetime" || s == "day" || s == "calendar_month" || s == "calendar_year"

-- `SupportedLimitScope`
abbrev pub supported_limit_scope : String → Bool
supported_limit_scope s = s == "" || s == "member"

-- A map from ids to rules: a later rule with the same id takes the place of an earlier one.
abbrev pub RuleMap : Type 0
RuleMap = String → Option RuleGraphRule

abbrev pub rules_by_id : List RuleGraphRule → RuleMap
rules_by_id [] id = none
rules_by_id (r ∷ rs) id =
    let later = rules_by_id rs id in
    elim later [ some s ↦ some s | none ↦ if r.id == id then some r else none ]

abbrev pub group_strategy : List RuleGraphGroup → String → String
group_strategy [] id = ""
group_strategy (g ∷ gs) id =
    let later = group_strategy gs id in
    if any (λ h. h.id == id) gs then later else if g.id == id then g.strategy else ""

-- A check of every element, in order, up to the first error.
abbrev check_limit : RuleGraphLimit → Result (Unit {0})
check_limit limit =
    if not (supported_limit_scope limit.scope)
    then err (invalid_error (concat "unsupported limit scope " limit.scope))
    else if not (supported_limit_period limit.period)
    then err (invalid_error (concat "unsupported limit period " limit.period))
    else if leb_ℤ limit.max_points (pos 0) && leb_ℤ limit.max_basis_amount_minor (pos 0)
    then err (invalid_error "rule limit must set maxPoints or maxBasisAmountMinor")
    else ok tt

-- `ValidateRuleLimitsForPublish`
unfoldable pub validate_rule_limits_for_publish : List RuleGraphLimit → Result (Unit {0})
validate_rule_limits_for_publish limits = all_ok check_limit limits

-- The switch on the dependency's type.
abbrev check_type : String → String → Result (Unit {0})
check_type strategy dependency_type =
    if dependency_type == "requires_match"
      || dependency_type == "requires_award"
      || dependency_type == "requires_exhausted"
      || dependency_type == "blocked_if_awarded"
    then ok tt
    else if dependency_type == "applies_to_remainder"
    then (if strategy == "waterfall"
        then ok tt
        else err (invalid_error "applies_to_remainder is only supported in waterfall groups"))
    else err (invalid_error (concat "unsupported dependency type " dependency_type))

abbrev check_pair :
    List RuleGraphGroup → RuleGraphDependency → RuleGraphRule → RuleGraphRule → Result (Unit {0})
check_pair groups dep rule depends_on =
    if not (rule.group_id == depends_on.group_id)
    then err (invalid_error "dependencies must stay within the same rule group")
    else if leb_ℤ rule.priority depends_on.priority
    then err (invalid_error "dependency must point backward")
    else let strategy = group_strategy groups rule.group_id in
      elim (check_type strategy dep.dependency_type) [
        | err e ↦ err e
        | ok _ ↦
            if strategy == "max_of" && not (dep.dependency_type == "requires_match")
            then err (invalid_error "max_of groups only support requires_match dependencies")
            else ok tt
      ]

abbrev pub unknown_rule : Error
unknown_rule = invalid_error "dependency references unknown or disabled rule"

abbrev pub check_dependency :
    RuleMap → List RuleGraphGroup → RuleGraphDependency → Result (Unit {0})
check_dependency rules groups dep = elim (rules dep.rule_id) [
  | none ↦ ok tt
  | some rule ↦ elim (rules dep.depends_on_rule_id) [
    | none ↦ err unknown_rule
    | some depends_on ↦ check_pair groups dep rule depends_on
  ]
]

-- `validateDependencies`
unfoldable pub validate_dependencies :
    RuleMap → List RuleGraphGroup → List RuleGraphDependency → Result (Unit {0})
validate_dependencies rules groups deps = all_ok (check_dependency rules groups) deps
