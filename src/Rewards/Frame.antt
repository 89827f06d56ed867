-- ===== src/Rewards/Frame.antt =====
-- What the rule engine of accts-api/application/rule_engine.go leaves alone: it writes usages of
-- limits only.
use paisa.Prelude.{
  String, ◌==◌, ◌≡◌, refl, Bool, Option, none, some, List, [], ◌∷◌, find, update_first, arith,
  Option-cases, Bool-cases, inl, inr, not,
}
use paisa.Prelude.Int.{ℤ, pos}
use paisa.Domain.Config.{Runtime}
use paisa.Domain.Rules.{RuleGraph, RuleGraphGroup, RuleGraphRule, RuleGraphLimit}
use paisa.Domain.Transactions.{RewardProcessingEvent, RuleLimitUsage, RuleLimitUsageDelta}
use paisa.Db.State.{Db, Tx, pure, query_row, ◌>>=◌}
use paisa.Db.Frame.{Keeps, >>=-Keeps, query_row-Keeps, if-Keeps}
use paisa.Rewards.Store.{
  period_key, prior_processed_purchase_count, prior_processed_purchase_eligible_minor_sum, is_usage,
  add_usage, current_limit_usage, add_limit_usage, commit_limit_usage,
}
use paisa.Rewards.Candidate.{
  CalcCandidate, new_candidate, first_purchase_fits, spend_fits, eligible_for_rule, apply_limits,
  evaluate_rule_candidate,
}
use paisa.Rewards.Groups.{Outcomes, Basis, dependencies_satisfied}
use paisa.Rewards.Engine.{
  limits_of, waterfall_basis, candidate_of, stack_rules, max_of_rules, waterfall_rules, run_group,
  commit_selected, run_groups, calculate_purchase,
}

-- A part of the database without its usages of limits.
abbrev pub IsApart : {B : Type 0} → (Db → B) → Type 0
IsApart part =
    (db : Db) (us : List RuleLimitUsage) → part (record db { rule_limit_usage = us }) ≡ part db

module _ {B : Type 0} (part : Db → B) (apart : IsApart part) (rt : Runtime)
    (event : RewardProcessingEvent) where
  current_limit_usage-Keeps :
      (m : String) (limit : RuleGraphLimit) (t : ℤ) → Keeps part (current_limit_usage rt m limit t)
  unfolding current_limit_usage
  current_limit_usage-Keeps m limit t db =
      elim (Option-cases
        (find (is_usage limit.id m (period_key rt limit.period t)) db.rule_limit_usage)) [
          | inl e ↦ ground (arith, e)
          | inr (u, e) ↦ ground (arith, e)
        ]

  -- The usage of a limit is written.
  abbrev new_usage : String → String → String → RuleLimitUsageDelta → RuleLimitUsage
  new_usage p m key delta = record {
    partner_id = p;
    rule_limit_id = delta.limit_id;
    member_id = m;
    period_key = key;
    used_points = delta.usage_points;
    used_basis_amount_minor = delta.usage_basis;
  }

  add_limit_usage-Keeps :
      (p m key : String) (delta : RuleLimitUsageDelta)
      → Keeps part (add_limit_usage rt p m key delta)
  unfolding add_limit_usage
  add_limit_usage-Keeps p m key delta db =
      let test = is_usage delta.limit_id m key in
      elim (Option-cases (find test db.rule_limit_usage)) [
        | inl e ↦ ground (arith, e, apart db (new_usage p m key delta ∷ db.rule_limit_usage))
        | inr (u, e) ↦
            ground (arith, e, apart db (update_first test (add_usage delta) db.rule_limit_usage))
      ]

  commit_limit_usage-Keeps :
      (p m : String) (t : ℤ) (delta : RuleLimitUsageDelta)
      → Keeps part (commit_limit_usage rt p m t delta)
  unfolding commit_limit_usage
  commit_limit_usage-Keeps p m t delta db = elim (Bool-cases (delta.limit_id == "")) [
    | inl e ↦ rw e refl
    | inr e ↦ rw e (
        >>=-Keeps part (query_row (λ d. find (λ l. l.id == delta.limit_id) d.rule_limits))
          (λ limit. add_limit_usage rt p m (period_key rt limit.period t) delta)
          (query_row-Keeps part _)
          (λ limit. add_limit_usage-Keeps p m (period_key rt limit.period t) delta) db)
  ]

  first_purchase_fits-Keeps :
      (rule : RuleGraphRule) → Keeps part (first_purchase_fits rt event rule)
  unfolding first_purchase_fits prior_processed_purchase_count ◌>>=◌
  first_purchase_fits-Keeps rule = if-Keeps part _ _ _ (λ _. refl) (λ _. refl)

  spend_fits-Keeps : (rule : RuleGraphRule) → Keeps part (spend_fits rt event rule)
  unfolding spend_fits prior_processed_purchase_eligible_minor_sum ◌>>=◌
  spend_fits-Keeps rule = if-Keeps part _ _ _ (λ _. refl) (λ _. refl)

  eligible_for_rule-Keeps : (rule : RuleGraphRule) → Keeps part (eligible_for_rule rt event rule)
  unfolding eligible_for_rule
  eligible_for_rule-Keeps rule =
      if-Keeps part _ _ _ (λ _. refl)
        (>>=-Keeps part (first_purchase_fits rt event rule) _ (first_purchase_fits-Keeps rule)
          (λ first.
            if-Keeps part _ (pure _) (spend_fits rt event rule) (λ _. refl)
              (spend_fits-Keeps rule)))

  apply_limits-Keeps :
      (rule : RuleGraphRule) (limits : List RuleGraphLimit) (c : CalcCandidate)
      → Keeps part (apply_limits rt event rule limits c)
  unfolding apply_limits
  apply_limits-Keeps rule [] c = λ _. refl
  apply_limits-Keeps rule (limit ∷ limits) c =
      >>=-Keeps part (current_limit_usage rt event.member_id limit event.occurred_at) _
        (current_limit_usage-Keeps event.member_id limit event.occurred_at)
        (λ used. apply_limits-Keeps rule limits _)

  evaluate_rule_candidate-Keeps :
      (rule : RuleGraphRule) (limits : List RuleGraphLimit) (forced : Option ℤ)
      → Keeps part (evaluate_rule_candidate rt event rule limits forced)
  unfolding evaluate_rule_candidate
  evaluate_rule_candidate-Keeps rule limits forced =
      >>=-Keeps part (eligible_for_rule rt event rule) _ (eligible_for_rule-Keeps rule) (λ eligible.
        if-Keeps part (not eligible) (pure _) (apply_limits rt event rule limits _) (λ _. refl)
          (apply_limits-Keeps rule limits _))

  blocked-Keeps :
      (id : String) (o : Option String) (m : Tx CalcCandidate)
      → Keeps part m
      → Keeps part (elim o [ some reason ↦ pure (new_candidate id reason) | none ↦ m ])
  blocked-Keeps id none m h = h
  blocked-Keeps id (some reason) m h = λ _. refl

  module _ (graph : RuleGraph) where
    candidate_of-Keeps :
        (rule : RuleGraphRule) (forced : Option ℤ) (outcomes : Outcomes)
        → Keeps part (candidate_of rt event graph rule forced outcomes)
    unfolding candidate_of
    candidate_of-Keeps rule forced outcomes =
        blocked-Keeps rule.id (dependencies_satisfied rule graph.dependencies outcomes)
          (evaluate_rule_candidate rt event rule (limits_of rt event graph rule.id) forced)
          (evaluate_rule_candidate-Keeps rule (limits_of rt event graph rule.id) forced)

    stack_rules-Keeps :
        (rules : List RuleGraphRule) (outcomes : Outcomes)
        → Keeps part (stack_rules rt event graph rules outcomes)
    unfolding stack_rules
    stack_rules-Keeps [] outcomes = λ _. refl
    stack_rules-Keeps (rule ∷ rules) outcomes =
        >>=-Keeps part (candidate_of rt event graph rule none outcomes) _
          (candidate_of-Keeps rule none outcomes)
          (λ c.
            >>=-Keeps part (stack_rules rt event graph rules _) _ (stack_rules-Keeps rules _)
              (λ _ _. refl))

    max_of_rules-Keeps :
        (rules : List RuleGraphRule) (outcomes : Outcomes)
        → Keeps part (max_of_rules rt event graph rules outcomes)
    unfolding max_of_rules
    max_of_rules-Keeps [] outcomes = λ _. refl
    max_of_rules-Keeps (rule ∷ rules) outcomes =
        >>=-Keeps part (candidate_of rt event graph rule none outcomes) _
          (candidate_of-Keeps rule none outcomes)
          (λ c.
            >>=-Keeps part (max_of_rules rt event graph rules _) _ (max_of_rules-Keeps rules _)
              (λ _ _. refl))

    waterfall_rules-Keeps :
        (rules : List RuleGraphRule) (remaining : Basis) (outcomes : Outcomes)
        → Keeps part (waterfall_rules rt event graph rules remaining outcomes)
    unfolding waterfall_rules
    waterfall_rules-Keeps [] remaining outcomes = λ _. refl
    waterfall_rules-Keeps (rule ∷ rules) remaining outcomes =
        >>=-Keeps part
          (candidate_of rt event graph rule (some (waterfall_basis rt event graph rule remaining))
            outcomes)
          _
          (candidate_of-Keeps rule (some (waterfall_basis rt event graph rule remaining)) outcomes)
          (λ c.
            >>=-Keeps part (waterfall_rules rt event graph rules _ _) _
              (waterfall_rules-Keeps rules _ _) (λ _ _. refl))

    run_group-Keeps :
        (sort_rules : List RuleGraphRule → List RuleGraphRule) (group : RuleGraphGroup)
        → Keeps part (run_group rt event graph sort_rules group)
    unfolding run_group
    run_group-Keeps sort_rules group =
        if-Keeps part (group.strategy == "max_of") _ _
          (>>=-Keeps part (max_of_rules rt event graph _ []) _ (max_of_rules-Keeps _ [])
            (λ _ _. refl))
          (if-Keeps part (group.strategy == "waterfall") _ _ (waterfall_rules-Keeps _ _ [])
            (stack_rules-Keeps _ []))

    commit_selected-Keeps :
        (commit : Bool) (cs : List CalcCandidate) (total : ℤ)
        → Keeps part (commit_selected rt event graph commit cs total)
    unfolding commit_selected
    commit_selected-Keeps commit [] total = λ _. refl
    commit_selected-Keeps commit (c ∷ cs) total =
        >>=-Keeps part _ _
          (if-Keeps part commit _ (pure tt)
            (commit_limit_usage-Keeps event.partner_id event.member_id event.occurred_at _)
            (λ _. refl))
          (λ _. commit_selected-Keeps commit cs _)

    run_groups-Keeps :
        (sort_rules : List RuleGraphRule → List RuleGraphRule) (commit : Bool)
        (groups : List RuleGraphGroup) (total : ℤ)
        → Keeps part (run_groups rt event graph sort_rules commit groups total)
    unfolding run_groups
    run_groups-Keeps sort_rules commit [] total = λ _. refl
    run_groups-Keeps sort_rules commit (group ∷ groups) total =
        >>=-Keeps part (run_group rt event graph sort_rules group) _
          (run_group-Keeps sort_rules group)
          (λ g.
            >>=-Keeps part (commit_selected rt event graph commit g.selected total) _
              (commit_selected-Keeps commit g.selected total)
              (λ next.
                >>=-Keeps part (run_groups rt event graph sort_rules commit groups next) _
                  (run_groups-Keeps sort_rules commit groups next) (λ _ _. refl)))

    pub calculate_purchase-Keeps :
        (sort_groups : List RuleGraphGroup → List RuleGraphGroup)
        (sort_rules : List RuleGraphRule → List RuleGraphRule) (version : String) (commit : Bool)
        → Keeps part (calculate_purchase rt event graph sort_groups sort_rules version commit)
    unfolding calculate_purchase
    calculate_purchase-Keeps sort_groups sort_rules version commit =
        >>=-Keeps part
          (run_groups rt event graph sort_rules commit (sort_groups graph.groups) (pos 0)) _
          (run_groups-Keeps sort_rules commit (sort_groups graph.groups) (pos 0)) (λ _ _. refl)
