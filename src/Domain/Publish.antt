-- ===== src/Domain/Publish.antt =====
-- `ValidateNoDependencyCycles` and `ValidateRuleGraphForPublish` of accts-api/domain/rules.go.
use Prim.Native.String.{◌++◌ as concat}
use paisa.Prelude.{
  String, ◌==◌, ℕ, zero, suc, length, ltb, eqb, not, ◌&&◌, ◌||◌, Option, none, some, List, [], ◌∷◌,
  keep, any, if◌then◌else◌,
}
use paisa.Prelude.Int.{pos, leb_ℤ}
use paisa.Domain.Errors.{invalid_error}
use paisa.Domain.Config.{Runtime, config_int, config_float, string_slice_config}
use paisa.Domain.Rules.{
  RuleGraphGroup, RuleGraphRule, RuleGraphLimit, RuleGraphDependency, RuleMap, rules_by_id,
  unknown_rule, supported_rule_type, supported_rule_strategy, validate_dependencies,
  validate_rule_limits_for_publish,
}
use paisa.Db.Result.{Result, ok, err, all_ok}

-- The map `state`: 0 for a rule not yet seen, 1 for one on the path, 2 for one that is done.
abbrev pub Marks : Type 0
Marks = String → ℕ

abbrev pub mark : String → ℕ → Marks → Marks
mark id n s other = if other == id then n else s other

-- `graph[ruleID]`
abbrev pub edges : RuleMap → List RuleGraphDependency → String → List String
edges rules [] id = []
edges rules (d ∷ ds) id =
    let rest = edges rules ds id in
    elim (rules d.rule_id) [
      | none ↦ rest
      | some _ ↦ if d.rule_id == id then d.depends_on_rule_id ∷ rest else rest
    ]

-- Visits in order, up to the first error; `none` stands for no fuel left.
abbrev pub visit_all :
    (String → Marks → Option (Result Marks)) → List String → Marks → Option (Result Marks)
visit_all f [] s = some (ok s)
visit_all f (x ∷ xs) s = elim (f x s) [
  | none ↦ none
  | some (err e) ↦ some (err e)
  | some (ok s') ↦ visit_all f xs s'
]

abbrev pub close : String → Option (Result Marks) → Option (Result Marks)
close id none = none
close id (some (err e)) = some (err e)
close id (some (ok s)) = some (ok (mark id 2 s))

-- `visit`, on fuel.
unfoldable pub visit : ℕ → (String → List String) → String → Marks → Option (Result Marks)
visit zero graph id s = none
visit (suc n) graph id s =
    let deeper = visit_all (visit n graph) (graph id) (mark id 1 s) in
    if eqb (s id) 1
    then some (err (invalid_error "dependency cycle detected"))
    else if eqb (s id) 2
    then some (ok s)
    else close id deeper

-- The first loop of `ValidateNoDependencyCycles`, which stops at a dependency on an unknown rule.
abbrev pub check_known : RuleMap → RuleGraphDependency → Result (Unit {0})
check_known rules dep = elim (rules dep.rule_id) [
  | none ↦ ok tt
  | some _ ↦ elim (rules dep.depends_on_rule_id) [ none ↦ err unknown_rule | some _ ↦ ok tt ]
]

abbrev pub outcome : Option (Result Marks) → Option (Result (Unit {0}))
outcome none = none
outcome (some (err e)) = some (err e)
outcome (some (ok _)) = some (ok tt)

-- `ValidateNoDependencyCycles`. Go ranges over the map of rules in any order: `order` is the one
-- that it takes. The path of visits is at most as long as there are rules.
unfoldable pub validate_no_dependency_cycles :
    List String → List RuleGraphRule → List RuleGraphDependency → Option (Result (Unit {0}))
unfolding visit
validate_no_dependency_cycles order rules deps =
    let known = rules_by_id rules in
    elim (all_ok (check_known known) deps) [
      | err e ↦ some (err e)
      | ok _ ↦ outcome (visit_all (visit (suc (length rules)) (edges known deps)) order (λ id. 0))
    ]

module _ (rt : Runtime) where
  abbrev transaction_types : RuleGraphRule → List String
  transaction_types rule =
      let types = string_slice_config rt rule.eligibility "transaction_types" in
      elim types [
        | [] ↦ string_slice_config rt rule.eligibility "transactionTypes"
        | t ∷ ts ↦ t ∷ ts
      ]

  abbrev needs_points : RuleGraphRule → Result (Unit {0})
  needs_points rule =
      if leb_ℤ (config_int rt rule.formula ("points" ∷ "fixedPoints" ∷ [])) (pos 0)
      then err (invalid_error (concat (concat "rule " rule.id) " must set points"))
      else ok tt

  abbrev needs_window : RuleGraphRule → Result (Unit {0})
  needs_window rule =
      if leb_ℤ (config_int rt rule.formula ("points" ∷ "fixedPoints" ∷ [])) (pos 0)
      then err (invalid_error (concat (concat "rule " rule.id) " must set points"))
      else if leb_ℤ (config_int rt rule.eligibility ("window_days" ∷ "windowDays" ∷ [])) (pos 0)
      then err (invalid_error (concat (concat "rule " rule.id) " must set windowDays"))
      else if leb_ℤ
          (config_int rt rule.eligibility
            ("spend_threshold_minor" ∷ "spendThresholdMinor" ∷ "thresholdMinor" ∷ []))
          (pos 0)
      then err (invalid_error (concat (concat "rule " rule.id) " must set spendThresholdMinor"))
      else ok tt

  -- `validateRuleConfig`
  unfoldable pub validate_rule_config : RuleGraphRule → Result (Unit {0})
  validate_rule_config rule =
      if any (λ t. not (t == "purchase")) (transaction_types rule)
      then err (invalid_error "earning rules can only target purchase transaction types")
      else if rule.rule_type == "points_per_dollar"
      then (if rt.at_most_zero
            (config_float rt rule.formula ("points_per_dollar" ∷ "pointsPerDollar" ∷ []))
          then err (invalid_error (concat (concat "rule " rule.id) " must set pointsPerDollar"))
          else ok tt)
      else if rule.rule_type == "fixed_per_transaction" || rule.rule_type == "first_purchase_bonus"
      then needs_points rule
      else if rule.rule_type == "spend_window_bonus"
      then needs_window rule
      else ok tt

  abbrev check_rule : RuleGraphRule → Result (Unit {0})
  check_rule rule =
      if not (supported_rule_type rule.rule_type)
      then err (invalid_error (concat "unsupported rule type " rule.rule_type))
      else validate_rule_config rule

  abbrev check_group : List RuleGraphRule → RuleGraphGroup → Result (Unit {0})
  check_group rules group =
      if not (supported_rule_strategy group.strategy)
      then err (invalid_error (concat "unsupported resolution strategy " group.strategy))
      else if group.strategy == "max_of"
          && ltb (length (keep (λ r. r.group_id == group.id) rules)) 2
      then err (
          invalid_error
            (concat (concat "max_of group " group.id) " must have at least two active rules"))
      else ok tt

  abbrev both : Result (Unit {0}) → Option (Result (Unit {0})) → Option (Result (Unit {0}))
  both (err e) k = some (err e)
  both (ok _) k = k

  -- `ValidateRuleGraphForPublish`, with the rules' limits where they are given.
  unfoldable pub validate_rule_graph_for_publish :
      List String
      → List RuleGraphGroup
      → List RuleGraphRule
      → List RuleGraphDependency
      → Option (List RuleGraphLimit)
      → Option (Result (Unit {0}))
  unfolding validate_rule_config validate_no_dependency_cycles validate_dependencies
      validate_rule_limits_for_publish
  validate_rule_graph_for_publish order groups rules deps limits =
      let limits_ok : Result (Unit {0}) = elim limits [
        | none ↦ ok tt
        | some ls ↦ validate_rule_limits_for_publish ls
      ] in
      if eqb (length rules) 0
      then some (err (invalid_error "rule version has no active rules"))
      else if eqb (length groups) 0
      then some (err (invalid_error "rule version has no active groups"))
      else both (all_ok check_rule rules) (
          both (all_ok (check_group rules) groups) (
            both (validate_dependencies (rules_by_id rules) groups deps)
              (both limits_ok (validate_no_dependency_cycles order rules deps))))
