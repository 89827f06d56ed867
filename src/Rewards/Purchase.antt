-- ===== src/Rewards/Purchase.antt =====
-- Totals, previews and limits of `calculatePurchase`.
use paisa.Prelude.{
  String, ◌≡◌, refl, inl, inr, Bool, true, false, Option, none, some, List, [], ◌∷◌, arith,
  Bool-cases, Option-cases, find,
}
use paisa.Prelude.Int.{ℤ, pos, ◌≤ℤ◌, ◌<ℤ◌}
use paisa.Domain.Config.{Runtime}
use paisa.Domain.Rules.{RuleGraphGroup, RuleGraphRule, RuleGraphLimit, RuleGraph}
use paisa.Domain.Transactions.{RewardProcessingEvent}
use paisa.Db.Result.{ok}
use paisa.Db.State.{Db, ◌>>=◌}
use paisa.Db.Inversion.{>>=-eq-ok}
use paisa.Rewards.Store.{current_limit_usage, is_usage, period_key}
use paisa.Rewards.Candidate.{
  CalcCandidate, new_candidate, remaining, apply_limit, apply_limits, eligible_for_rule,
  evaluate_rule_candidate, basis_for_rule, matched_candidate,
}
use paisa.Rewards.Groups.{Calculation}
use paisa.Rewards.Engine.{run_groups, calculate_purchase}
use paisa.Rewards.Marks.{eligible_for_rule-keeps}
use paisa.Rewards.Totals.{sum_awards, run_groups-sum}

module _ (rt : Runtime) (event : RewardProcessingEvent) (graph : RuleGraph)
    (sort_groups : List RuleGraphGroup → List RuleGraphGroup)
    (sort_rules : List RuleGraphRule → List RuleGraphRule) (version : String) (db db' : Db)
    (calc : Calculation) where
  -- When a calculation of a purchase succeeds, its total is the sum of its selected awards, in
  -- Go's arithmetic and in their order, whatever the strategies of the groups and the order of
  -- the sorts.
  pub total-selected_awards :
      (commit : Bool)
      → calculate_purchase rt event graph sort_groups sort_rules version commit db ≡ (ok calc, db')
      → calc.total_points ≡ sum_awards (pos 0) calc.selected_awards
  unfolding calculate_purchase
  total-selected_awards commit h =
      let (r, db₁, e, h₁) =
        >>=-eq-ok (run_groups rt event graph sort_rules commit (sort_groups graph.groups) (pos 0)) _
          h in
      let s =
        (run_groups-sum rt event graph sort_rules version commit (sort_groups graph.groups) (pos 0)
          r db db₁ e).0 in
      ground (arith, h₁, s)

  -- A calculation that is not to commit, as for a refund, and that succeeds, leaves the database
  -- as it was: it spends no limit.
  pub preview-keeps :
      calculate_purchase rt event graph sort_groups sort_rules version false db ≡ (ok calc, db')
      → db' ≡ db
  unfolding calculate_purchase
  preview-keeps h =
      let (r, db₁, e, h₁) =
        >>=-eq-ok (run_groups rt event graph sort_rules false (sort_groups graph.groups) (pos 0)) _
          h in
      let k =
        (run_groups-sum rt event graph sort_rules version false (sort_groups graph.groups) (pos 0) r
            db db₁ e).1
          refl in
      ground (arith, h₁, k)

remaining_nonneg : (max used : ℤ) → pos 0 ≤ℤ remaining max used
remaining_nonneg max used = ground (arith)

apply_limit-capped :
    (rt : Runtime) (rule : RuleGraphRule) (limit : RuleGraphLimit) (used : ℤ × ℤ)
    (c : CalcCandidate)
    → pos 0 <ℤ limit.max_points
    → ((apply_limit rt rule limit used c).points ≤ℤ remaining limit.max_points used.0)
      × ((apply_limit rt rule limit used c).usage_points
          ≡ (apply_limit rt rule limit used c).points)
      × ((apply_limit rt rule limit used c).limit_id ≡ limit.id)
apply_limit-capped rt rule limit used c h = ground arith

current_limit_usage-total :
    (rt : Runtime) (member_id : String) (limit : RuleGraphLimit) (occurred_at : ℤ) (db : Db)
    → (used : ℤ × ℤ) × (current_limit_usage rt member_id limit occurred_at db ≡ (ok used, db))
unfolding current_limit_usage
current_limit_usage-total rt member_id limit occurred_at db =
    elim (Option-cases (
      find (is_usage limit.id member_id (period_key rt limit.period occurred_at))
        db.rule_limit_usage)) [
          | inl n ↦ ((pos 0, pos 0), ground (arith, n))
          | inr (u, n) ↦ ((u.used_points, u.used_basis_amount_minor), ground (arith, n))
        ]

apply_limits-one :
    (rt : Runtime) (event : RewardProcessingEvent) (rule : RuleGraphRule) (limit : RuleGraphLimit)
    (c c' : CalcCandidate) (used : ℤ × ℤ) (db m db' : Db)
    → current_limit_usage rt event.member_id limit event.occurred_at db ≡ (ok used, db)
    → m ≡ db
    → apply_limits rt event rule (limit ∷ []) c m ≡ (ok c', db')
    → c' ≡ apply_limit rt rule limit used c
unfolding apply_limits ◌>>=◌
apply_limits-one rt event rule limit c c' used db m db' e k h = ground (arith, e, k, h)

module _ (rt : Runtime) (event : RewardProcessingEvent) (rule : RuleGraphRule)
    (limit : RuleGraphLimit) (forced : Option ℤ) (db db' : Db) (c : CalcCandidate) where
  -- Where the evaluation of a rule with one limit, which limits the points, succeeds, the rule
  -- gives at most what the limit leaves for the member in the period, and if the rule matches it
  -- asks for a usage of that limit by exactly those points.
  pub limit_respected :
      pos 0 <ℤ limit.max_points
      → evaluate_rule_candidate rt event rule (limit ∷ []) forced db ≡ (ok c, db')
      → (used : ℤ × ℤ) × (current_limit_usage rt event.member_id limit event.occurred_at db
          ≡ (ok used, db))
        × (c.points ≤ℤ remaining limit.max_points used.0)
        × (c.matched ≡ true → (c.usage_points ≡ c.points) × (c.limit_id ≡ limit.id))
  unfolding evaluate_rule_candidate apply_limits current_limit_usage
  limit_respected positive h =
      let (b, m, e, h') = >>=-eq-ok (eligible_for_rule rt event rule) _ h in
      let read = eligible_for_rule-keeps rt event rule db m b e in
      let (used, u) = current_limit_usage-total rt event.member_id limit event.occurred_at db in
      elim (Bool-cases b) [
        | inl t ↦
            let basis : ℤ = elim forced [ none ↦ basis_for_rule rt event rule | some b ↦ b ] in
            let start = matched_candidate rt rule basis in
            let same =
              apply_limits-one rt event rule limit start c used db m db' u read (rw t at h') in
            let capped = apply_limit-capped rt rule limit used start positive in
            (used, u, rw same capped.0, λ _. rw same (capped.1, capped.2))
        | inr f ↦
            let same : c ≡ new_candidate rule.id "not_eligible" = ground (arith, f, h') in
            (
              used,
              u,
              rw same (remaining_nonneg limit.max_points used.0),
              λ k. absurd (ground (arith, same, k)),
            )
      ]
