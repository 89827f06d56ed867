-- ===== src/Processing/Store.antt =====
-- `RewardCalculationStore` of reward_calculation.go, and the claims and loads of transaction.go, in
-- accts-api/adapters/postgres/internal/repository. The id of a new row is an argument.
use paisa.Prelude.{
  ℕ, zero, suc, String, ◌==◌, Bool, false, not, ◌&&◌, ◌||◌, Option, none, some, List, [], ◌∷◌, map,
  any, find, keep, if◌then◌else◌,
}
use paisa.Prelude.Int.{ℤ, pos, ◌+ℤ◌}
use paisa.Prelude.Word.{fits_integer}
use paisa.Domain.Errors.{app_error_from_db, no_rows}
use paisa.Domain.Constants.{processing}
use paisa.Domain.Transactions.{
  LineItemInput, TransactionRow, RewardProcessingEvent, RewardCalculation,
}
use paisa.Db.State.{Db, Tx, pure, fail, query_row, ◌>>=◌}
use paisa.Ledger.Store.{duplicate_key, out_of_range}
use paisa.Programs.Store.{order_by}
use paisa.Transactions.Store.{is_external, is_accepted, lines_of, set_event_status}

abbrev pub event_of : TransactionRow → List LineItemInput → RewardProcessingEvent
event_of t lines = record {
  id = t.id;
  partner_id = t.input.partner_id;
  member_id = t.input.member_id;
  external_transaction_id = t.input.external_transaction_id;
  original_external_transaction_id = t.input.original_external_transaction_id;
  type = t.input.type;
  currency = t.input.currency;
  subtotal_minor = t.input.subtotal_minor;
  tax_minor = t.input.tax_minor;
  total_minor = t.input.total_minor;
  eligible_minor = t.input.eligible_minor;
  occurred_at = t.input.occurred_at;
  raw_payload = t.input.raw_payload;
  lines = lines;
}

-- `ports.ProcessingEventBundle`
pub record ProcessingEventBundle : Type 0 where
  pub event : RewardProcessingEvent
  pub line_items : List LineItemInput

abbrev pub bundle_of : Db → TransactionRow → ProcessingEventBundle
bundle_of db t =
    let lines = lines_of t.id db.transaction_line_items in
    record { event = event_of t lines; line_items = lines }

abbrev pub take : {A : Type 0} → ℕ → List A → List A
take zero xs = []
take (suc n) [] = []
take (suc n) (x ∷ xs) = x ∷ take n xs

-- The rows that a claim takes: the oldest that are accepted, up to a limit.
abbrev pub claimed : ℕ → List TransactionRow → List TransactionRow
claimed limit rows = take limit (order_by (λ _ _. false) (keep (λ t. is_accepted t.status) rows))

abbrev pub mark_claimed : List TransactionRow → TransactionRow → TransactionRow
mark_claimed taken t = if any (λ u. u.id == t.id) taken then set_event_status processing t else t

abbrev pub claim : ℕ → Db → Db
claim limit db = record db {
  transaction_events =
      map (mark_claimed (claimed limit db.transaction_events)) db.transaction_events;
}

abbrev pub row_id : TransactionRow → String
row_id t = t.id

-- The order in which `RETURNING` gives the rows of an update, which the database leaves open.
abbrev pub Arrange : Type 0
Arrange = List TransactionRow → List TransactionRow

-- `AcceptedIDs`
unfoldable pub accepted_ids : Arrange → ℕ → Tx (List String)
accepted_ids arrange limit db =
    pure (map row_id (arrange (claimed limit db.transaction_events))) (claim limit db)

-- `ClaimAndLoadAcceptedTransactions`; rows that another transaction has locked are skipped there.
unfoldable pub claim_and_load_accepted_transactions : Arrange → ℕ → Tx (List ProcessingEventBundle)
claim_and_load_accepted_transactions arrange limit db =
    pure (map (bundle_of db) (arrange (claimed limit db.transaction_events))) (claim limit db)

abbrev loaded : Db → Option TransactionRow → Option RewardProcessingEvent
loaded db none = none
loaded db (some t) = some (event_of t (lines_of t.id db.transaction_line_items))

-- `LoadForProcessing`
unfoldable pub load_for_processing : String → Tx RewardProcessingEvent
load_for_processing event_id =
    query_row (λ db. loaded db (find (λ t. t.id == event_id) db.transaction_events))

abbrev pub is_calculation_of : String → RewardCalculation → Bool
is_calculation_of event_id c = c.transaction_event_id == event_id

-- `Get`
unfoldable pub get_calculation : String → String → Tx RewardCalculation
get_calculation partner_id event_id = query_row (λ db.
    find (λ c. c.partner_id == partner_id && is_calculation_of event_id c) db.reward_calculations)

-- The keys of the table: its id, and the event.
abbrev pub calculation_clashes : RewardCalculation → RewardCalculation → Bool
calculation_clashes row c = c.id == row.id || is_calculation_of row.transaction_event_id c

-- `CreateSucceeded`, of a row with the input's columns.
unfoldable pub create_succeeded : RewardCalculation → Tx String
create_succeeded row db =
    if not (fits_integer row.points_delta && fits_integer row.basis_amount_minor)
    then fail (app_error_from_db out_of_range) db
    else if any (calculation_clashes row) db.reward_calculations
    then fail (app_error_from_db duplicate_key) db
    else pure row.id (record db { reward_calculations = row ∷ db.reward_calculations })

abbrev pub failed_calculation : String → RewardProcessingEvent → String → RewardCalculation
failed_calculation id event reason = record {
  id = id;
  partner_id = event.partner_id;
  transaction_event_id = event.id;
  program_id = "";
  rule_version_id = "";
  succeeded = false;
  points_delta = pos 0;
  basis_amount_minor = event.eligible_minor;
  selected_awards = [];
  failure_reason = reason;
}

-- `CreateFailed`: an event that has a calculation keeps it.
unfoldable pub create_failed : String → RewardProcessingEvent → String → Tx (Unit {0})
create_failed id event reason db =
    let row = failed_calculation id event reason in
    if not (fits_integer event.eligible_minor)
    then fail (app_error_from_db out_of_range) db
    else if any (is_calculation_of event.id) db.reward_calculations
    then pure tt db
    else if any (λ c. c.id == id) db.reward_calculations
    then fail (app_error_from_db duplicate_key) db
    else pure tt (record db { reward_calculations = row ∷ db.reward_calculations })

abbrev pub event_id_of : Option TransactionRow → Option String
event_id_of none = none
event_id_of (some t) = some t.id

-- `OriginalForRefund`: the event that is refunded, and its calculation if it succeeded.
unfoldable pub original_for_refund :
    RewardProcessingEvent → Tx (RewardProcessingEvent × RewardCalculation)
unfolding load_for_processing
original_for_refund event =
    if event.original_external_transaction_id == "" then fail (app_error_from_db no_rows) else do
      original_id ← query_row (λ db. event_id_of (
          find (is_external event.partner_id event.original_external_transaction_id)
            db.transaction_events))
      original ← load_for_processing original_id
      calculation ←
          query_row (λ db.
            find (λ c. is_calculation_of original_id c && c.succeeded) db.reward_calculations)
      pure (original, calculation)

-- The condition of `PriorRefundedBasisForOriginal` on the refund.
abbrev pub is_other_refund : RewardProcessingEvent → TransactionRow → Bool
is_other_refund event t =
    t.input.partner_id == event.partner_id
    && t.input.type == "refund"
    && t.input.original_external_transaction_id == event.original_external_transaction_id
    && not (t.id == event.id)

-- The sum over the join of the refunds with their calculations.
abbrev pub refunded : RewardProcessingEvent → List TransactionRow → List RewardCalculation → ℤ
refunded event rows [] = pos 0
refunded event rows (c ∷ cs) =
    let rest = refunded event rows cs in
    if c.succeeded && any (λ t. is_calculation_of t.id c && is_other_refund event t) rows
    then rest +ℤ c.basis_amount_minor
    else rest

-- `PriorRefundedBasisForOriginal`
unfoldable pub prior_refunded_basis_for_original : RewardProcessingEvent → Tx ℤ
prior_refunded_basis_for_original event db =
    if event.original_external_transaction_id == ""
    then pure (pos 0) db
    else pure (refunded event db.transaction_events db.reward_calculations) db
