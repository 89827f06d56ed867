-- ===== src/Rewards/Marks.antt =====
-- The selected candidates of a group against the marks in its trace.
use paisa.Prelude.{
  String, ◌==◌, ◌≡◌, sym, ap, ◌∙◌, inl, inr, Bool, false, Option, none, some, List, [], ◌∷◌, keep,
  arith, Bool-cases, Option-cases,
}
use paisa.Prelude.Int.{ℤ}
use paisa.Domain.Config.{Runtime}
use paisa.Domain.Rules.{RuleGraphRule, RuleGraphLimit, RuleGraph}
use paisa.Domain.Transactions.{RewardProcessingEvent}
use paisa.Db.Result.{Result, ok}
use paisa.Db.State.{Db, ◌>>=◌}
use paisa.Db.Inversion.{>>=-eq-ok}
use paisa.Rewards.Store.{
  current_limit_usage, prior_processed_purchase_count, prior_processed_purchase_eligible_minor_sum,
}
use paisa.Rewards.Candidate.{
  CalcCandidate, apply_limit, apply_limits, first_purchase_fits, spend_fits, eligible_for_rule,
  evaluate_rule_candidate,
}
use paisa.Rewards.Groups.{
  Outcomes, Basis, GroupResult, select, add_candidate, dependencies_satisfied,
}
use paisa.Rewards.Engine.{candidate_of, stack_rules, max_of_rules, waterfall_rules, waterfall_basis}

module _ (rt : Runtime) (event : RewardProcessingEvent) where
  first_purchase_fits-keeps :
      (rule : RuleGraphRule) (db : Db) → (first_purchase_fits rt event rule db).1 ≡ db
  unfolding first_purchase_fits prior_processed_purchase_count ◌>>=◌
  first_purchase_fits-keeps rule db = ground arith

  spend_fits-keeps : (rule : RuleGraphRule) (db : Db) → (spend_fits rt event rule db).1 ≡ db
  unfolding spend_fits prior_processed_purchase_eligible_minor_sum ◌>>=◌
  spend_fits-keeps rule db = ground arith

  pub eligible_for_rule-keeps :
      (rule : RuleGraphRule) (db db' : Db) (b : Bool)
      → eligible_for_rule rt event rule db ≡ (ok b, db')
      → db' ≡ db
  unfolding eligible_for_rule ◌>>=◌
  eligible_for_rule-keeps rule db db' b h = ground (
    arith,
    first_purchase_fits-keeps rule db,
    spend_fits-keeps rule (first_purchase_fits rt event rule db).1,
  )

  current_limit_usage-keeps :
      (limit : RuleGraphLimit) (db : Db)
      → (current_limit_usage rt event.member_id limit event.occurred_at db).1 ≡ db
  unfolding current_limit_usage
  current_limit_usage-keeps limit db = ground arith

  apply_limits-keeps :
      (rule : RuleGraphRule) (limits : List RuleGraphLimit) (c c' : CalcCandidate) (db db' : Db)
      → apply_limits rt event rule limits c db ≡ (ok c', db')
      → (c'.selected ≡ c.selected) × (db' ≡ db)
  unfolding apply_limits
  apply_limits-keeps rule [] c c' db db' h = (ground arith, ground arith)
  apply_limits-keeps rule (l ∷ ls) c c' db db' h =
      let (used, m, e, h') =
        >>=-eq-ok (current_limit_usage rt event.member_id l event.occurred_at) _ h in
      let (s, k) = apply_limits-keeps rule ls (apply_limit rt rule l used c) c' m db' h' in
      let same : (apply_limit rt rule l used c).selected ≡ c.selected = ground arith in
      let read : m ≡ db =
        sym (ap (λ (r : Result (ℤ × ℤ) × Db). r.1) e) ∙ current_limit_usage-keeps l db in
      (s ∙ same, k ∙ read)

  evaluate_rule_candidate-keeps :
      (rule : RuleGraphRule) (limits : List RuleGraphLimit) (forced : Option ℤ) (c : CalcCandidate)
      (db db' : Db)
      → evaluate_rule_candidate rt event rule limits forced db ≡ (ok c, db')
      → (c.selected ≡ false) × (db' ≡ db)
  unfolding evaluate_rule_candidate
  evaluate_rule_candidate-keeps rule limits forced c db db' h =
      let (b, m, e, h') = >>=-eq-ok (eligible_for_rule rt event rule) _ h in
      let read = eligible_for_rule-keeps rule db m b e in
      elim (Bool-cases b) [
        | inl t ↦
            let (s, k) = apply_limits-keeps rule limits _ c m db' (rw t at h') in (s, k ∙ read)
        | inr f ↦ (ground (arith, h', f), ground (arith, h', f, read))
      ]

  module _ (graph : RuleGraph) where
    pub candidate_of-keeps :
        (rule : RuleGraphRule) (forced : Option ℤ) (outcomes : Outcomes) (c : CalcCandidate)
        (db db' : Db)
        → candidate_of rt event graph rule forced outcomes db ≡ (ok c, db')
        → (c.selected ≡ false) × (db' ≡ db)
    unfolding candidate_of
    candidate_of-keeps rule forced outcomes c db db' h =
        elim (Option-cases (dependencies_satisfied rule graph.dependencies outcomes)) [
          | inl n ↦
              evaluate_rule_candidate-keeps rule (keep (λ l. l.rule_id == rule.id) graph.limits)
                forced c db db' (rw (n, candidate_of) at h)
          | inr (reason, n) ↦ (ground (arith, h, n), ground (arith, h, n))
        ]

    -- The selected candidates are those that are marked, in their order.
    abbrev pub IsMarked : GroupResult → Type 0
    IsMarked g = g.selected ≡ keep (λ c. c.selected) g.candidates

    add_candidate-IsMarked :
        (reason : String) (c : CalcCandidate) (g : GroupResult)
        → c.selected ≡ false
        → IsMarked g
        → IsMarked (add_candidate (select reason c) g)
    add_candidate-IsMarked reason c g f h = ground (arith, f, h)

    pub stack_rules-IsMarked :
        (rules : List RuleGraphRule) (outcomes : Outcomes) (g : GroupResult) (db db' : Db)
        → stack_rules rt event graph rules outcomes db ≡ (ok g, db')
        → IsMarked g × (db' ≡ db)
    unfolding stack_rules
    stack_rules-IsMarked [] outcomes g db db' h = (ground arith, ground arith)
    stack_rules-IsMarked (rule ∷ rules) outcomes g db db' h =
        let (c, db₁, e₁, h₁) = >>=-eq-ok (candidate_of rt event graph rule none outcomes) _ h in
        let (f, k₁) = candidate_of-keeps rule none outcomes c db db₁ e₁ in
        let (g', db₂, e₂, h₂) =
          >>=-eq-ok
            (stack_rules rt event graph rules ((rule.id, select "stack_selected" c) ∷ outcomes)) _
            h₁ in
        let (m, k₂) = stack_rules-IsMarked rules _ g' db₁ db₂ e₂ in
        let last : g ≡ add_candidate (select "stack_selected" c) g' = ground (arith, h₂) in
        (rw last (add_candidate-IsMarked "stack_selected" c g' f m), ground (arith, h₂, k₁, k₂))

    pub waterfall_rules-IsMarked :
        (rules : List RuleGraphRule) (remaining : Basis) (outcomes : Outcomes) (g : GroupResult)
        (db db' : Db)
        → waterfall_rules rt event graph rules remaining outcomes db ≡ (ok g, db')
        → IsMarked g × (db' ≡ db)
    unfolding waterfall_rules
    waterfall_rules-IsMarked [] remaining outcomes g db db' h = (ground arith, ground arith)
    waterfall_rules-IsMarked (rule ∷ rules) remaining outcomes g db db' h =
        let forced = some (waterfall_basis rt event graph rule remaining) in
        let (c, db₁, e₁, h₁) = >>=-eq-ok (candidate_of rt event graph rule forced outcomes) _ h in
        let (f, k₁) = candidate_of-keeps rule forced outcomes c db db₁ e₁ in
        let (g', db₂, e₂, h₂) = >>=-eq-ok (waterfall_rules rt event graph rules _ _) _ h₁ in
        let (m, k₂) = waterfall_rules-IsMarked rules _ _ g' db₁ db₂ e₂ in
        let last : g ≡ add_candidate (select "waterfall_selected" c) g' = ground (arith, h₂) in
        (rw last (add_candidate-IsMarked "waterfall_selected" c g' f m), ground (arith, h₂, k₁, k₂))

    pub max_of_rules-keeps :
        (rules : List RuleGraphRule) (outcomes : Outcomes) (cs : List CalcCandidate) (db db' : Db)
        → max_of_rules rt event graph rules outcomes db ≡ (ok cs, db')
        → (keep (λ c. c.selected) cs ≡ []) × (db' ≡ db)
    unfolding max_of_rules
    max_of_rules-keeps [] outcomes cs db db' h = (ground arith, ground arith)
    max_of_rules-keeps (rule ∷ rules) outcomes cs db db' h =
        let (c, db₁, e₁, h₁) = >>=-eq-ok (candidate_of rt event graph rule none outcomes) _ h in
        let (f, k₁) = candidate_of-keeps rule none outcomes c db db₁ e₁ in
        let (cs', db₂, e₂, h₂) =
          >>=-eq-ok (max_of_rules rt event graph rules ((rule.id, c) ∷ outcomes)) _ h₁ in
        let (m, k₂) = max_of_rules-keeps rules _ cs' db₁ db₂ e₂ in
        (ground (arith, h₂, f, m), ground (arith, h₂, k₁, k₂))
