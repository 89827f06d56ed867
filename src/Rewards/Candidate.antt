-- ===== src/Rewards/Candidate.antt =====
-- One rule at one purchase: `evaluateRuleCandidate` of accts-api/application/rule_engine.go and what
-- it calls.
use paisa.Prelude.{
  String, ◌==◌, Bool, true, false, not, ◌&&◌, ◌||◌, Option, none, some, List, [], ◌∷◌, length, ltb,
  if◌then◌else◌,
}
use paisa.Prelude.Int.{ℤ, pos, ◌+ℤ◌, ltb_ℤ, leb_ℤ}
use paisa.Prelude.Word.{◌⊞◌, ◌⊟◌, ◌⊠◌, neg}
use paisa.Domain.Config.{
  Float, Runtime, lookup, config_int, config_float, string_slice_config, string_from_any,
  contains_string, bool_config,
}
use paisa.Domain.Rules.{RuleGraphRule, RuleGraphLimit}
use paisa.Domain.Transactions.{LineItemInput, RewardProcessingEvent}
use paisa.Db.State.{Tx, pure, ◌>>=◌}
use paisa.Rewards.Store.{
  current_limit_usage, prior_processed_purchase_count, prior_processed_purchase_eligible_minor_sum,
}

-- `calcCandidate`; its RuleVersionID is never set.
pub record CalcCandidate : Type 0 where
  pub rule_id : String
  pub basis_amount_minor : ℤ
  pub raw_points : ℤ
  pub points : ℤ
  pub matched : Bool
  pub selected : Bool
  pub exhausted : Bool
  pub reason : String
  pub limit_id : String
  pub usage_points : ℤ
  pub usage_basis : ℤ

abbrev pub new_candidate : String → String → CalcCandidate
new_candidate rule_id reason = record {
  rule_id = rule_id;
  basis_amount_minor = pos 0;
  raw_points = pos 0;
  points = pos 0;
  matched = false;
  selected = false;
  exhausted = false;
  reason = reason;
  limit_id = "";
  usage_points = pos 0;
  usage_basis = pos 0;
}

-- `lineBasis`
unfoldable pub line_basis : LineItemInput → String → ℤ
line_basis line name =
    if name == "subtotal" || name == "line_item_subtotal" || name == "lineItemSubtotal"
    then line.subtotal_minor
    else if name == "tax"
    then line.tax_minor
    else if name == "total" || name == "line_item_total" || name == "lineItemTotal"
    then line.total_minor
    else line.eligible_minor

abbrev pub is_line_item_basis : String → Bool
is_line_item_basis name =
    name == "line_item_subtotal"
    || name == "lineItemSubtotal"
    || name == "line_item_total"
    || name == "lineItemTotal"
    || name == "line_item_eligible"
    || name == "lineItemEligible"

-- The loops that add up the lines that pass a test.
abbrev pub sum_lines : (LineItemInput → Bool) → String → ℤ → List LineItemInput → ℤ
sum_lines test name total [] = total
sum_lines test name total (line ∷ lines) =
    sum_lines test name (if test line then total ⊞ line_basis line name else total) lines

-- `a - b`, but at least 0: what a limit leaves.
abbrev pub remaining : ℤ → ℤ → ℤ
remaining max used = let r = max ⊟ used in if ltb_ℤ r (pos 0) then pos 0 else r

module _ (rt : Runtime) where
  -- `basisForRule`
  unfoldable pub basis_for_rule : RewardProcessingEvent → RuleGraphRule → ℤ
  basis_for_rule event rule =
      let given = string_from_any rt (lookup rule.eligibility "basis") in
      let name = if given == "" then "eligible" else given in
      let categories = string_slice_config rt rule.eligibility "categories" in
      if ltb 0 (length categories)
      then sum_lines (λ line. contains_string rt categories line.category) name (pos 0) event.lines
      else if name == "subtotal"
      then event.subtotal_minor
      else if name == "tax"
      then event.tax_minor
      else if name == "total"
      then event.total_minor
      else if is_line_item_basis name
      then sum_lines (λ _. true) name (pos 0) event.lines
      else event.eligible_minor

  -- `pointsForBasis`
  unfoldable pub points_for_basis : ℤ → Float → ℤ
  points_for_basis basis_minor points_per_dollar =
      if leb_ℤ basis_minor (pos 0) || rt.at_most_zero points_per_dollar
      then pos 0
      else rt.int_of_float (
          rt.floor (
            rt.mul_float (rt.div_float (rt.float_of_int basis_minor) (rt.float_of_int (pos 100)))
              points_per_dollar))

  abbrev pub points_per_dollar : RuleGraphRule → Float
  points_per_dollar rule =
      config_float rt rule.formula ("points_per_dollar" ∷ "pointsPerDollar" ∷ [])

  abbrev is_bonus : String → Bool
  is_bonus t =
      t == "fixed_per_transaction" || t == "first_purchase_bonus" || t == "spend_window_bonus"

  -- The switch on the rule's type in `evaluateRuleCandidate`.
  unfoldable pub raw_points_of : RuleGraphRule → ℤ → ℤ
  raw_points_of rule basis =
      if is_bonus rule.rule_type
      then config_int rt rule.formula ("points" ∷ "fixedPoints" ∷ [])
      else points_for_basis basis (points_per_dollar rule)

  abbrev types_of : RuleGraphRule → List String
  types_of rule =
      let types = string_slice_config rt rule.eligibility "transaction_types" in
      if ltb 0 (length types)
      then types
      else string_slice_config rt rule.eligibility "transactionTypes"

  abbrev type_fits : RewardProcessingEvent → RuleGraphRule → Bool
  type_fits event rule =
      let types = types_of rule in not (ltb 0 (length types)) || contains_string rt types event.type

  abbrev channel_fits : RewardProcessingEvent → RuleGraphRule → Bool
  channel_fits event rule =
      let channels = string_slice_config rt rule.eligibility "channels" in
      let channel = string_from_any rt (lookup event.raw_payload "channel") in
      not (ltb 0 (length channels)) || not (channel == "") && contains_string rt channels channel

  abbrev needs_first_purchase : RuleGraphRule → Bool
  needs_first_purchase rule =
      rule.rule_type == "first_purchase_bonus" || bool_config rule.eligibility "firstPurchase"

  -- The test on earlier purchases: true if there are none, or it is not asked for.
  unfoldable pub first_purchase_fits : RewardProcessingEvent → RuleGraphRule → Tx Bool
  first_purchase_fits event rule =
      if needs_first_purchase rule
      then (do
        count ← prior_processed_purchase_count event.partner_id event.member_id event.id
        pure (not (ltb_ℤ (pos 0) count)))
      else pure true

  -- The last part of `eligibleForRule`: the spend in a window, or a basis.
  unfoldable pub spend_fits : RewardProcessingEvent → RuleGraphRule → Tx Bool
  spend_fits event rule =
      let window_days = config_int rt rule.eligibility ("window_days" ∷ "windowDays" ∷ []) in
      let threshold =
        config_int rt rule.eligibility
          ("spend_threshold_minor" ∷ "spendThresholdMinor" ∷ "thresholdMinor" ∷ []) in
      let since = event.occurred_at +ℤ neg window_days ⊠ pos 24 ⊠ pos 3_600_000_000_000 in
      if rule.rule_type == "spend_window_bonus"
      then (do
        prior ←
            prior_processed_purchase_eligible_minor_sum event.partner_id event.member_id event.id
              since
        pure (not (ltb_ℤ (prior ⊞ event.eligible_minor) threshold)))
      else pure (
          ltb_ℤ (pos 0) (basis_for_rule event rule)
          || rule.rule_type == "fixed_per_transaction"
          || rule.rule_type == "first_purchase_bonus")

  -- `eligibleForRule`
  unfoldable pub eligible_for_rule : RewardProcessingEvent → RuleGraphRule → Tx Bool
  unfolding first_purchase_fits spend_fits
  eligible_for_rule event rule = if not (type_fits event rule) then pure false else (do
    first ← first_purchase_fits event rule
    if not first || not (channel_fits event rule) then pure false else spend_fits event rule)

  -- The part of the loop on a limit of the basis.
  abbrev pub cap_basis : RuleGraphRule → RuleGraphLimit → ℤ → CalcCandidate → CalcCandidate
  cap_basis rule limit used_basis c =
      let left = remaining limit.max_basis_amount_minor used_basis in
      let given = points_per_dollar rule in
      let rate = if rt.is_zero given then rt.float_of_int (pos 1) else given in
      let capped =
        if ltb_ℤ left c.basis_amount_minor
        then record c {
          exhausted = true;
          basis_amount_minor = left;
          points = points_for_basis left rate;
        }
        else c in
      record capped { usage_basis = capped.basis_amount_minor; usage_points = capped.points }

  -- The part of the loop on a limit of the points.
  abbrev pub cap_points : RuleGraphLimit → ℤ → CalcCandidate → CalcCandidate
  cap_points limit used_points c =
      let left = remaining limit.max_points used_points in
      let capped =
        if ltb_ℤ left c.points then record c { exhausted = true; points = left } else c in
      record capped { usage_points = capped.points }

  -- One turn of the loop over the limits.
  abbrev pub apply_limit : RuleGraphRule → RuleGraphLimit → ℤ × ℤ → CalcCandidate → CalcCandidate
  apply_limit rule limit used c =
      let named = record c { limit_id = limit.id } in
      let by_basis =
        if ltb_ℤ (pos 0) limit.max_basis_amount_minor
        then cap_basis rule limit used.1 named
        else named in
      if ltb_ℤ (pos 0) limit.max_points then cap_points limit used.0 by_basis else by_basis

  -- The loop over the limits.
  unfoldable pub apply_limits :
      RewardProcessingEvent → RuleGraphRule → List RuleGraphLimit → CalcCandidate → Tx CalcCandidate
  apply_limits event rule [] c = pure c
  apply_limits event rule (limit ∷ limits) c = do
    used ← current_limit_usage rt event.member_id limit event.occurred_at
    apply_limits event rule limits (apply_limit rule limit used c)

  -- The candidate of a rule that matches, before its limits.
  abbrev pub matched_candidate : RuleGraphRule → ℤ → CalcCandidate
  matched_candidate rule basis = record (new_candidate rule.id "") {
    matched = true;
    basis_amount_minor = basis;
    raw_points = raw_points_of rule basis;
    points = raw_points_of rule basis;
  }

  -- `evaluateRuleCandidate`: the basis is the rule's own, unless one is given.
  unfoldable pub evaluate_rule_candidate :
      RewardProcessingEvent → RuleGraphRule → List RuleGraphLimit → Option ℤ → Tx CalcCandidate
  unfolding eligible_for_rule apply_limits
  evaluate_rule_candidate event rule limits forced = do
    eligible ← eligible_for_rule event rule
    let basis : ℤ = elim forced [ none ↦ basis_for_rule event rule | some b ↦ b ]
    (if not eligible
        then pure (new_candidate rule.id "not_eligible")
        else apply_limits event rule limits (matched_candidate rule basis))
