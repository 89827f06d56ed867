-- ===== src/Rewards/Engine.antt =====
-- `calculatePurchase` of accts-api/application/rule_engine.go: the groups of a rule graph, in order
-- of priority, each by its own strategy.
use paisa.Prelude.{
  String, ◌==◌, Bool, Option, none, some, List, [], ◌∷◌, keep, length, ltb, if◌then◌else◌,
}
use paisa.Prelude.Int.{ℤ, pos}
use paisa.Prelude.Word.{◌⊞◌}
use paisa.Domain.Config.{Runtime, string_slice_config}
use paisa.Domain.Rules.{RuleGraphGroup, RuleGraphRule, RuleGraphLimit, RuleGraph}
use paisa.Domain.Transactions.{RewardProcessingEvent, RuleLimitUsageDelta}
use paisa.Db.State.{Tx, pure, ◌>>=◌, ◌>>◌}
use paisa.Rewards.Store.{commit_limit_usage}
use paisa.Rewards.Candidate.{CalcCandidate, new_candidate, evaluate_rule_candidate}
use paisa.Rewards.Groups.{
  Outcomes, dependencies_satisfied, Basis, basis_by_category, sum_basis, sum_categories, consume,
  GroupResult, TraceGroup, Calculation, has_points, select, add_candidate, pick_best, awards_of,
}

module _ (rt : Runtime) (event : RewardProcessingEvent) (graph : RuleGraph) where
  abbrev pub limits_of : String → List RuleGraphLimit
  limits_of id = keep (λ l. l.rule_id == id) graph.limits

  -- One rule of a group: blocked by a dependency, or evaluated.
  unfoldable pub candidate_of : RuleGraphRule → Option ℤ → Outcomes → Tx CalcCandidate
  unfolding evaluate_rule_candidate
  candidate_of rule forced outcomes =
      elim (dependencies_satisfied rule graph.dependencies outcomes) [
        | some reason ↦ pure (new_candidate rule.id reason)
        | none ↦ evaluate_rule_candidate rt event rule (limits_of rule.id) forced
      ]

  -- The loop of stack, which is the default.
  unfoldable pub stack_rules : List RuleGraphRule → Outcomes → Tx GroupResult
  unfolding candidate_of
  stack_rules [] outcomes = pure (record { selected = []; candidates = [] })
  stack_rules (rule ∷ rules) outcomes = do
    c ← candidate_of rule none outcomes
    g ← stack_rules rules ((rule.id, select "stack_selected" c) ∷ outcomes)
    pure (add_candidate (select "stack_selected" c) g)

  -- The first loop of max_of.
  unfoldable pub max_of_rules : List RuleGraphRule → Outcomes → Tx (List CalcCandidate)
  unfolding candidate_of
  max_of_rules [] outcomes = pure []
  max_of_rules (rule ∷ rules) outcomes = do
    c ← candidate_of rule none outcomes
    cs ← max_of_rules rules ((rule.id, c) ∷ outcomes)
    pure (c ∷ cs)

  abbrev categories_of : RuleGraphRule → List String
  categories_of rule = string_slice_config rt rule.eligibility "categories"

  -- `waterfallBasis`
  unfoldable pub waterfall_basis : RuleGraphRule → Basis → ℤ
  waterfall_basis rule remaining =
      if ltb 0 (length (categories_of rule))
      then sum_categories remaining (pos 0) (categories_of rule)
      else sum_basis (pos 0) remaining

  -- `consumeWaterfallBasis`
  unfoldable pub consume_waterfall_basis : RuleGraphRule → Basis → ℤ → Basis
  unfolding consume
  consume_waterfall_basis rule remaining amount =
      consume (if ltb 0 (length (categories_of rule)) then categories_of rule else "" ∷ [])
        remaining amount

  -- The loop of waterfall.
  unfoldable pub waterfall_rules : List RuleGraphRule → Basis → Outcomes → Tx GroupResult
  unfolding candidate_of waterfall_basis consume_waterfall_basis
  waterfall_rules [] remaining outcomes = pure (record { selected = []; candidates = [] })
  waterfall_rules (rule ∷ rules) remaining outcomes = do
    c ← candidate_of rule (some (waterfall_basis rule remaining)) outcomes
    let rest =
        if has_points c
        then consume_waterfall_basis rule remaining c.basis_amount_minor
        else remaining
    g ← waterfall_rules rules rest ((rule.id, select "waterfall_selected" c) ∷ outcomes)
    pure (add_candidate (select "waterfall_selected" c) g)

  -- `RulesForGroup`, whose sort is `sort_rules`, then the group's strategy.
  unfoldable pub run_group :
      (List RuleGraphRule → List RuleGraphRule) → RuleGraphGroup → Tx GroupResult
  unfolding stack_rules max_of_rules waterfall_rules pick_best basis_by_category
  run_group sort_rules group =
      let rules = sort_rules (keep (λ r. r.group_id == group.id) graph.rules) in
      if group.strategy == "max_of"
      then (do cs ← max_of_rules rules []; pure (pick_best cs))
      else if group.strategy == "waterfall"
      then waterfall_rules rules (basis_by_category event) []
      else stack_rules rules []

  -- The loop over the selected candidates: their usage of limits, and their points.
  unfoldable pub commit_selected : Bool → List CalcCandidate → ℤ → Tx ℤ
  commit_selected commit [] total = pure total
  commit_selected commit (c ∷ cs) total = do
    let delta : RuleLimitUsageDelta = record {
      limit_id = c.limit_id;
      usage_points = c.usage_points;
      usage_basis = c.usage_basis;
    }
    (if commit
        then commit_limit_usage rt event.partner_id event.member_id event.occurred_at delta
        else pure tt)
    commit_selected commit cs (total ⊞ c.points)

  -- The loop over the groups.
  unfoldable pub run_groups :
      (List RuleGraphRule → List RuleGraphRule)
      → Bool
      → List RuleGraphGroup
      → ℤ
      → Tx (ℤ × List TraceGroup)
  unfolding run_group commit_selected
  run_groups sort_rules commit [] total = pure (total, [])
  run_groups sort_rules commit (group ∷ groups) total = do
    g ← run_group sort_rules group
    next ← commit_selected commit g.selected total
    rest ← run_groups sort_rules commit groups next
    pure (
      rest.0,
      record { rule_group_id = group.id; strategy = group.strategy; candidates = g.candidates }
          ∷ rest.1,
    )

  -- `calculatePurchase`. The two sorts by priority are `sort.Slice`, which is not stable.
  unfoldable pub calculate_purchase :
      (List RuleGraphGroup → List RuleGraphGroup)
      → (List RuleGraphRule → List RuleGraphRule)
      → String
      → Bool
      → Tx Calculation
  unfolding run_groups
  calculate_purchase sort_groups sort_rules rule_version_id commit = do
    r ← run_groups sort_rules commit (sort_groups graph.groups) (pos 0)
    pure (record {
      groups = r.1;
      selected_awards = awards_of rule_version_id r.1;
      total_points = r.0;
    })
