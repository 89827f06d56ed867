-- ===== src/Db/State.antt =====
-- The tables of db/schema.sql that are modelled, as lists of rows, newest first, and the actions on
-- them. A row's primary key makes `WHERE id = $1` fit one row at most: the model takes the first.
use paisa.Prelude.{String, Bool, List, Option, none, some, if◌then◌else◌}
use paisa.Domain.Errors.{Error, no_rows, app_error_from_db}
use paisa.Domain.Constants.{RedemptionStatus}
use paisa.Domain.Types.{
  Partner, Member, MemberAccount, BalanceSnapshot, LedgerEntry, CatalogItem, Redemption,
}
use paisa.Domain.Rules.{RuleGraphLimit, RuleGraphDependency}
use paisa.Domain.Programs.{Program, RuleVersion, RuleGroup, EarningRule}
use paisa.Domain.Members.{MemberIdentifier, ProgramEnrollment, MemberRuleAssignment}
use paisa.Domain.Transactions.{LineItemInput, RuleLimitUsage, TransactionRow, RewardCalculation}
use paisa.Db.Result.{Result, ok, err}

pub record RedemptionEvent : Type 0 where
  pub redemption_id : String
  pub status : RedemptionStatus
  pub details : List (String × String)

pub record Db : Type 0 where
  pub partners : List Partner
  pub members : List Member
  pub member_accounts : List MemberAccount
  pub balance_snapshots : List BalanceSnapshot
  pub ledger_entries : List LedgerEntry
  pub catalog_items : List CatalogItem
  pub redemptions : List Redemption
  pub redemption_events : List RedemptionEvent
  pub rule_limits : List RuleGraphLimit
  pub rule_limit_usage : List RuleLimitUsage
  pub transaction_events : List TransactionRow
  pub programs : List Program
  pub rule_versions : List RuleVersion
  pub rule_groups : List RuleGroup
  pub earning_rules : List EarningRule
  pub rule_dependencies : List RuleGraphDependency
  pub member_identifiers : List MemberIdentifier
  pub program_enrollments : List ProgramEnrollment
  pub member_rule_assignments : List MemberRuleAssignment
  pub reward_calculations : List RewardCalculation
  -- A line item with the id of its event.
  pub transaction_line_items : List (String × LineItemInput)

-- An action inside a transaction. What was written before an error is still there: it is the end
-- of the transaction that undoes it.
abbrev pub Tx : Type 0 → Type 0
Tx A = Db → Result A × Db

module _ {A : Type 0} where
  abbrev pub pure : A → Tx A
  pure a db = (ok a, db)

  abbrev pub fail : Error → Tx A
  fail e db = (err e, db)

  unfoldable pub lift : Result A → Tx A
  lift r db = (r, db)

  -- `SELECT` of one row, with `Scan` and `AppErrorFromDB`.
  unfoldable pub query_row : (Db → Option A) → Tx A
  query_row f db = (elim (f db) [ none ↦ err (app_error_from_db no_rows) | some a ↦ ok a ], db)

unfoldable pub fail_if : Bool → Error → Tx (Unit {0})
fail_if b e db = (if b then err e else ok tt, db)

infixl 5 ◌>>=◌ ◌>>◌
-- Opening this opens the basic actions too.
unfoldable pub ◌>>=◌ : {A B : Type 0} → Tx A → (A → Tx B) → Tx B
unfolding lift query_row fail_if
◌>>=◌ m f db = let (r, db') = m db in elim r [ ok a ↦ f a db' | err e ↦ (err e, db') ]

abbrev pub ◌>>◌ : {A B : Type 0} → Tx A → Tx B → Tx B
m >> k = m >>= λ _. k

-- `WithinTx`: an error rolls the transaction back.
unfoldable pub within_tx : {A : Type 0} → Tx A → Tx A
within_tx fn db = let (r, db') = fn db in elim r [ ok a ↦ (ok a, db') | err e ↦ (err e, db) ]
