-- ===== src/Ledger/Store.antt =====
-- `LedgerStore` of accts-api/adapters/postgres/internal/repository/ledger.go. The id of a new row,
-- which the database generates, is an argument.
use paisa.Prelude.{
  ℕ, String, ◌==◌, eqb, Bool, not, ◌&&◌, ◌||◌, List, ◌∷◌, any, find, keep, update_first,
  if◌then◌else◌,
}
use paisa.Prelude.Int.{pos}
use paisa.Prelude.Word.{fits_integer}
use paisa.Domain.Errors.{Error, other, app_error_from_db}
use paisa.Domain.Constants.{
  EntryType, earn, refund, adjustment, redemption_reserve, redemption_capture, reservation_release,
  points_expiration,
}
use paisa.Domain.Text.{normalize_default}
use paisa.Domain.Types.{BalanceSnapshot, LedgerEntry, LedgerEntryInput, LedgerPostResult}
use paisa.Domain.Balance.{apply_ledger_delta}
use paisa.Db.State.{Tx, pure, fail, lift, query_row, ◌>>=◌, ◌>>◌}

-- The texts of PostgreSQL's errors, as lib/pq passes them on.
abbrev pub duplicate_key : Error
duplicate_key = other "pq: duplicate key value violates unique constraint"

abbrev pub out_of_range : Error
out_of_range = other "pq: value out of range for type integer"

abbrev pub is_of : String → BalanceSnapshot → Bool
is_of account b = b.member_account_id == account

-- `CreateBalanceSnapshot`
unfoldable pub create_balance_snapshot : String → String → Tx (Unit {0})
create_balance_snapshot account_id partner_id db =
    if any (is_of account_id) db.balance_snapshots
    then fail (app_error_from_db duplicate_key) db
    else pure tt (record db {
      balance_snapshots =
          record {
            member_account_id = account_id;
            partner_id = partner_id;
            available_points = pos 0;
            reserved_points = pos 0;
            expired_points = pos 0;
          }
          ∷ db.balance_snapshots;
    })

-- `GetBalance`
unfoldable pub get_balance : String → Tx BalanceSnapshot
get_balance account_id = query_row (λ db. find (is_of account_id) db.balance_snapshots)

-- `LockBalance`; the lock itself orders the transactions, which the model runs one by one.
unfoldable pub lock_balance : String → Tx BalanceSnapshot
lock_balance account_id = query_row (λ db. find (is_of account_id) db.balance_snapshots)

-- `ListEntries`: newest first.
unfoldable pub list_entries : String → Tx (List LedgerEntry)
list_entries account_id db =
    pure (keep (λ e. e.member_account_id == account_id) db.ledger_entries) db

abbrev pub entry_of : String → LedgerEntryInput → LedgerEntry
entry_of id input = record {
  id = id;
  partner_id = input.partner_id;
  member_account_id = input.member_account_id;
  program_id = input.program_id;
  entry_type = input.entry_type;
  available_delta = input.available_delta;
  reserved_delta = input.reserved_delta;
  expired_delta = input.expired_delta;
  source_type = input.source_type;
  source_id = input.source_id;
  reason = input.reason;
  created_by_type = normalize_default input.created_by_type "system";
  created_by_id = input.created_by_id;
}

abbrev entry_code : EntryType → ℕ
entry_code earn = 0
entry_code refund = 1
entry_code adjustment = 2
entry_code redemption_reserve = 3
entry_code redemption_capture = 4
entry_code reservation_release = 5
entry_code points_expiration = 6

-- The keys of the table: its id, and the unique index on the source of an entry with its type.
abbrev pub entry_clashes : String → LedgerEntryInput → LedgerEntry → Bool
entry_clashes id input e =
    e.id == id
    || (e.partner_id == input.partner_id
        && e.source_type == input.source_type
        && e.source_id == input.source_id
        && eqb (entry_code e.entry_type) (entry_code input.entry_type))

-- `InsertEntry`
unfoldable pub insert_entry : String → LedgerEntryInput → Tx String
insert_entry id input db =
    if not (
      fits_integer input.available_delta
      && fits_integer input.reserved_delta
      && fits_integer input.expired_delta)
    then fail (app_error_from_db out_of_range) db
    else if any (entry_clashes id input) db.ledger_entries
    then fail (app_error_from_db duplicate_key) db
    else pure id (record db { ledger_entries = entry_of id input ∷ db.ledger_entries })

abbrev pub set_points : BalanceSnapshot → BalanceSnapshot → BalanceSnapshot
set_points balance row = record row {
  available_points = balance.available_points;
  reserved_points = balance.reserved_points;
  expired_points = balance.expired_points;
}

-- `UpdateBalance`
unfoldable pub update_balance : BalanceSnapshot → Tx (Unit {0})
update_balance balance db =
    if not (
      fits_integer balance.available_points
      && fits_integer balance.reserved_points
      && fits_integer balance.expired_points)
    then fail (app_error_from_db out_of_range) db
    else pure tt (record db {
      balance_snapshots =
          update_first (is_of balance.member_account_id) (set_points balance) db.balance_snapshots;
    })

-- `PostLedgerEntry`
unfoldable pub post_ledger_entry : String → LedgerEntryInput → Tx LedgerPostResult
post_ledger_entry id input = do
  balance ← lock_balance input.member_account_id
  next ← lift (
      apply_ledger_delta balance input.entry_type input.available_delta input.reserved_delta
        input.expired_delta)
  entry_id ← insert_entry id input
  update_balance next
  pure (record { ledger_entry_id = entry_id; balance = next })
