-- ===== src/Ledger/Service.antt =====
-- accts-api/application/ledger_service.go.
use paisa.Prelude.{String, ◌==◌, false, List, find, none, some, ◌&&◌, if◌then◌else◌}
use paisa.Domain.Errors.{invalid_error}
use paisa.Domain.Constants.{is_active, adjustment}
use paisa.Domain.Types.{BalanceSnapshot, LedgerEntry, LedgerEntryInput, AdjustmentRequest}
use paisa.Db.State.{Tx, pure, fail_if, lift, query_row, ◌>>=◌, ◌>>◌, within_tx}
use paisa.Db.Accounts.{partner_by_key, account_id, member_is_active, ensure_active_status}
use paisa.Ledger.Store.{list_entries, post_ledger_entry}

-- `LedgerStore.GetBalanceByMember`: the joins of balance_snapshots, member_accounts and members.
unfoldable pub get_balance_by_member : String → String → Tx BalanceSnapshot
get_balance_by_member partner_id member_id = query_row (λ db.
    find
      (λ b.
        b.partner_id == partner_id
        && elim (find (λ a. a.id == b.member_account_id) db.member_accounts) [
          | none ↦ false
          | some a ↦
              a.member_id == member_id && is_active a.status && member_is_active db a.member_id
        ])
      db.balance_snapshots)

-- `LedgerService.GetBalance`
unfoldable pub get_balance : String → String → Tx BalanceSnapshot
get_balance partner_key member_id = do
  partner ← partner_by_key partner_key
  get_balance_by_member partner.id member_id

-- `LedgerService.GetLedger`
unfoldable pub get_ledger : String → String → Tx (List LedgerEntry)
get_ledger partner_key member_id = do
  partner ← partner_by_key partner_key
  account ← account_id partner.id member_id
  list_entries account

abbrev pub adjustment_entry : String → String → AdjustmentRequest → String → LedgerEntryInput
adjustment_entry partner_id account body source_id = record {
  partner_id = partner_id;
  member_account_id = account;
  program_id = "";
  entry_type = adjustment;
  available_delta = body.available_delta;
  reserved_delta = body.reserved_delta;
  expired_delta = body.expired_delta;
  source_type = "manual_adjustment";
  source_id = source_id;
  reason = body.reason;
  created_by_type = "system";
  created_by_id = "";
}

-- `LedgerService.CreateAdjustment`. `new_source` is what `uuid.NewString` gives, `entry_id` the id
-- that the database gives the entry; the result is the entry's id.
unfoldable pub create_adjustment : String → String → String → String → AdjustmentRequest → Tx String
create_adjustment new_source entry_id partner_key member_id body = within_tx (do
  partner ← partner_by_key partner_key
  lift (ensure_active_status "partner" partner.status)
  fail_if (body.reason == "") (invalid_error "adjustment reason is required")
  let source_id = if body.source_id == "" then new_source else body.source_id
  account ← account_id partner.id member_id
  posted ← post_ledger_entry entry_id (adjustment_entry partner.id account body source_id)
  pure posted.ledger_entry_id)
