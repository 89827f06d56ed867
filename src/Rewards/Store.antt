-- ===== src/Rewards/Store.antt =====
-- `CurrentLimitUsage` and `CommitLimitUsage` of rule.go, and the sums over a member's earlier
-- purchases of transaction.go, in accts-api/adapters/postgres/internal/repository.
use paisa.Prelude.{
  String, ◌==◌, Bool, true, false, not, ◌&&◌, none, some, List, [], ◌∷◌, find, keep, length,
  update_first, if◌then◌else◌,
}
use paisa.Prelude.Int.{ℤ, pos, ◌+ℤ◌, leb_ℤ}
use paisa.Prelude.Word.{fits_integer}
use paisa.Domain.Errors.{app_error_from_db}
use paisa.Domain.Constants.{EventStatus, processed}
use paisa.Domain.Config.{Runtime}
use paisa.Domain.Rules.{RuleGraphLimit}
use paisa.Domain.Transactions.{RuleLimitUsage, RuleLimitUsageDelta, TransactionRow}
use paisa.Db.State.{Tx, pure, fail, query_row, ◌>>=◌}
use paisa.Ledger.Store.{out_of_range}

abbrev pub is_usage : String → String → String → RuleLimitUsage → Bool
is_usage limit_id member_id period_key u =
    u.rule_limit_id == limit_id && u.member_id == member_id && u.period_key == period_key

abbrev pub is_processed : EventStatus → Bool
is_processed processed = true
is_processed _ = false

-- The condition of the two queries on earlier purchases.
abbrev pub is_prior : String → String → String → TransactionRow → Bool
is_prior partner_id member_id exclude_event_id t =
    t.input.partner_id == partner_id
    && t.input.member_id == member_id
    && t.input.type == "purchase"
    && is_processed t.status
    && not (t.id == exclude_event_id)

-- `PriorProcessedPurchaseCount`
unfoldable pub prior_processed_purchase_count : String → String → String → Tx ℤ
prior_processed_purchase_count partner_id member_id exclude_event_id db =
    pure
      (pos (length (keep (is_prior partner_id member_id exclude_event_id) db.transaction_events)))
      db

abbrev pub sum_eligible : List TransactionRow → ℤ
sum_eligible [] = pos 0
sum_eligible (t ∷ ts) = t.input.eligible_minor +ℤ sum_eligible ts

-- `PriorProcessedPurchaseEligibleMinorSum`
unfoldable pub prior_processed_purchase_eligible_minor_sum : String → String → String → ℤ → Tx ℤ
prior_processed_purchase_eligible_minor_sum partner_id member_id exclude_event_id since db =
    pure
      (sum_eligible (
        keep
          (λ t. is_prior partner_id member_id exclude_event_id t && leb_ℤ since t.input.occurred_at)
          db.transaction_events))
      db

abbrev pub add_usage : RuleLimitUsageDelta → RuleLimitUsage → RuleLimitUsage
add_usage delta u = record u {
  used_points = u.used_points +ℤ delta.usage_points;
  used_basis_amount_minor = u.used_basis_amount_minor +ℤ delta.usage_basis;
}

abbrev pub usage_fits : RuleLimitUsage → Bool
usage_fits u = fits_integer u.used_points && fits_integer u.used_basis_amount_minor

module _ (rt : Runtime) where
  -- `PeriodKey` of accts-api/domain/helpers.go.
  unfoldable pub period_key : String → ℤ → String
  period_key period occurred_at =
      if period == "day"
      then rt.format "2006-01-02" occurred_at
      else if period == "calendar_month"
      then rt.format "2006-01" occurred_at
      else if period == "calendar_year"
      then rt.format "2006" occurred_at
      else "lifetime"

  -- `CurrentLimitUsage`
  unfoldable pub current_limit_usage : String → RuleGraphLimit → ℤ → Tx (ℤ × ℤ)
  current_limit_usage member_id limit occurred_at db =
      elim (find (is_usage limit.id member_id (period_key limit.period occurred_at))
        db.rule_limit_usage) [
          | none ↦ pure (pos 0, pos 0) db
          | some u ↦ pure (u.used_points, u.used_basis_amount_minor) db
        ]

  -- The `INSERT ... ON CONFLICT DO UPDATE` of `CommitLimitUsage`.
  unfoldable pub add_limit_usage : String → String → String → RuleLimitUsageDelta → Tx (Unit {0})
  add_limit_usage partner_id member_id key delta db =
      let row : RuleLimitUsage = record {
        partner_id = partner_id;
        rule_limit_id = delta.limit_id;
        member_id = member_id;
        period_key = key;
        used_points = delta.usage_points;
        used_basis_amount_minor = delta.usage_basis;
      } in
      let test = is_usage delta.limit_id member_id key in
      elim (find test db.rule_limit_usage) [
        | none ↦
            if usage_fits row
            then pure tt (record db { rule_limit_usage = row ∷ db.rule_limit_usage })
            else fail (app_error_from_db out_of_range) db
        | some u ↦
            if usage_fits row && usage_fits (add_usage delta u)
            then pure tt (record db {
              rule_limit_usage = update_first test (add_usage delta) db.rule_limit_usage;
            })
            else fail (app_error_from_db out_of_range) db
      ]

  -- `CommitLimitUsage`
  unfoldable pub commit_limit_usage : String → String → ℤ → RuleLimitUsageDelta → Tx (Unit {0})
  unfolding add_limit_usage period_key
  commit_limit_usage partner_id member_id occurred_at delta db =
      if delta.limit_id == ""
      then pure tt db
      else (do
        limit ← query_row (λ d. find (λ l. l.id == delta.limit_id) d.rule_limits)
        add_limit_usage partner_id member_id (period_key limit.period occurred_at) delta)
          db
