-- ===== src/Rewards/Tests.antt =====
-- The theorems on the rule engine, at one rule of 5 points for each purchase, at most 8 a day.
use paisa.Prelude.{◌≡◌, refl, true, false, none, some, [], ◌∷◌, arith}
use paisa.Prelude.Int.{ℤ, pos, ◌≤ℤ◌, ◌+ℤ◌, ◌-ℤ◌}
use paisa.Prelude.Word.{◌⊞◌, ◌⊟◌, wrap}
use paisa.Domain.Config.{
  empty, field, int, lookup, config_int, int_from_any, string_slice_config, string_from_any,
  bool_config,
}
use paisa.Domain.Rules.{
  RuleGraphGroup, RuleGraphRule, RuleGraphLimit, RuleGraphDependency, RuleGraph,
  validate_dependencies,
}
use paisa.Domain.Publish.{validate_no_dependency_cycles}
use paisa.Domain.Acyclic.{no_cycles}
use paisa.Domain.Transactions.{RewardProcessingEvent}
use paisa.Db.Result.{ok}
use paisa.Db.State.{Db, ◌>>=◌}
use paisa.Redemption.Cafe.{cafe, plain}
use paisa.Rewards.Store.{current_limit_usage, period_key}
use paisa.Rewards.Candidate.{
  CalcCandidate, remaining, evaluate_rule_candidate, raw_points_of, basis_for_rule,
}
use paisa.Rewards.Groups.{Calculation, dependencies_satisfied}
use paisa.Rewards.Engine.{calculate_purchase}
use paisa.Rewards.Totals.{sum_awards}
use mathlib.Core.List.{Memᴰ}
use paisa.Prelude.{All, ◌⊎◌}
use paisa.Rewards.Groups.{pick_best}
use paisa.Rewards.Best.{IsAtMost, chosen, pick_best-max}
use paisa.Rewards.Purchase.{total-selected_awards, preview-keeps, limit_respected}

abbrev visit_rule : RuleGraphRule
visit_rule = record {
  id = "r1";
  group_id = "g";
  rule_key = "visit";
  rule_type = "fixed_per_transaction";
  priority = pos 1;
  eligibility = empty;
  formula = field "points" (int (pos 5)) empty;
}

abbrev second_rule : RuleGraphRule
second_rule = record visit_rule { id = "r2"; priority = pos 2 }

abbrev group : RuleGraphGroup
group = record { id = "g"; strategy = "stack"; priority = pos 1 }

abbrev needs_visit : RuleGraphDependency
needs_visit = record {
  rule_id = "r2";
  depends_on_rule_id = "r1";
  dependency_type = "requires_match";
}

abbrev daily : RuleGraphLimit
daily = record {
  id = "l1";
  rule_id = "r1";
  scope = "member";
  period = "day";
  max_points = pos 8;
  max_basis_amount_minor = pos 0;
}

abbrev rules : RuleGraph
rules = record {
  groups = group ∷ [];
  rules = visit_rule ∷ [];
  limits = daily ∷ [];
  dependencies = [];
}

abbrev lunch : RewardProcessingEvent
lunch = record {
  id = "t1";
  partner_id = "p1";
  member_id = "m1";
  external_transaction_id = "x1";
  original_external_transaction_id = "";
  type = "purchase";
  currency = "USD";
  subtotal_minor = pos 900;
  tax_minor = pos 100;
  total_minor = pos 1000;
  eligible_minor = pos 900;
  occurred_at = pos 1000;
  raw_payload = empty;
  lines = [];
}

no_cycles_example :
    validate_no_dependency_cycles
      ("r2" ∷ "r1" ∷ [])
      (second_rule ∷ visit_rule ∷ [])
      (needs_visit ∷ [])
    ≡ some (ok tt)
unfolding validate_dependencies
no_cycles_example =
    no_cycles (group ∷ []) (second_rule ∷ visit_rule ∷ []) (needs_visit ∷ []) refl
      ("r2" ∷ "r1" ∷ [])

-- 6 points were used today, so a lunch gives 2.
abbrev busy : Db
busy = record cafe {
  rule_limits = daily ∷ [];
  rule_limit_usage =
      record {
        partner_id = "p1";
        rule_limit_id = "l1";
        member_id = "m1";
        period_key = "2026-01-05";
        used_points = pos 6;
        used_basis_amount_minor = pos 0;
      }
      ∷ [];
}

abbrev two_points : CalcCandidate
two_points = record {
  rule_id = "r1";
  basis_amount_minor = pos 900;
  raw_points = pos 5;
  points = pos 2;
  matched = true;
  selected = false;
  exhausted = true;
  reason = "";
  limit_id = "l1";
  usage_points = pos 2;
  usage_basis = pos 0;
}

lunch_candidate :
    evaluate_rule_candidate plain lunch visit_rule (daily ∷ []) none busy ≡ (ok two_points, busy)
unfolding evaluate_rule_candidate ◌>>=◌ string_slice_config lookup bool_config basis_for_rule
    string_from_any current_limit_usage period_key ◌⊟◌ wrap ◌-ℤ◌ raw_points_of config_int
    int_from_any
lunch_candidate = refl

limit_respected_example :
    (used : ℤ × ℤ) × (current_limit_usage plain "m1" daily (pos 1000) busy ≡ (ok used, busy))
    × (two_points.points ≤ℤ remaining daily.max_points used.0)
    × (two_points.matched ≡ true
        → (two_points.usage_points ≡ two_points.points) × (two_points.limit_id ≡ daily.id))
limit_respected_example =
    limit_respected plain lunch visit_rule daily none busy busy two_points (omega arith)
      lunch_candidate

abbrev earned : Calculation
earned = record {
  groups =
      record {
        rule_group_id = "g";
        strategy = "stack";
        candidates = record two_points { selected = true; reason = "stack_selected" } ∷ [];
      }
      ∷ [];
  selected_awards =
      record {
        rule_id = "r1";
        rule_version_id = "v1";
        basis_amount_minor = pos 900;
        points = pos 2;
      }
      ∷ [];
  total_points = pos 2;
}

lunch_preview :
    calculate_purchase plain lunch rules (λ gs. gs) (λ rs. rs) "v1" false busy ≡ (ok earned, busy)
unfolding evaluate_rule_candidate ◌>>=◌ string_slice_config lookup bool_config basis_for_rule
    string_from_any current_limit_usage period_key ◌⊟◌ wrap ◌-ℤ◌ raw_points_of config_int
    int_from_any calculate_purchase ◌⊞◌ ◌+ℤ◌ dependencies_satisfied
lunch_preview = refl

total-selected_awards_example : pos 2 ≡ sum_awards (pos 0) earned.selected_awards
total-selected_awards_example =
    total-selected_awards plain lunch rules (λ gs. gs) (λ rs. rs) "v1" busy busy earned false
      lunch_preview

preview-keeps_example : busy ≡ busy
preview-keeps_example =
    preview-keeps plain lunch rules (λ gs. gs) (λ rs. rs) "v1" busy busy earned lunch_preview

pick_best-max_example :
    (((pick_best (two_points ∷ [])).selected ≡ []) × All (λ c. c.points ≡ pos 0) (two_points ∷ []))
    ⊎ ((b : CalcCandidate) × ((pick_best (two_points ∷ [])).selected ≡ chosen b ∷ [])
        × Memᴰ b (two_points ∷ [])
        × All (IsAtMost b) (two_points ∷ []))
pick_best-max_example = pick_best-max (two_points ∷ [])
