-- ===== src/Redemption/Store.antt =====
-- `CatalogStore.Get` and `RedemptionStore` of
-- accts-api/adapters/postgres/internal/repository/merchant_ops.go.
use paisa.Prelude.{
  ℕ, String, ◌==◌, Bool, not, ◌&&◌, ◌||◌, Option, some, none, List, ◌∷◌, any, find, keep, length,
  update_first, if◌then◌else◌,
}
use paisa.Prelude.Int.{ℤ}
use paisa.Prelude.Word.{fits_integer}
use paisa.Domain.Errors.{app_error_from_db}
use paisa.Domain.Constants.{RedemptionStatus, reserved, is_open}
use paisa.Domain.Types.{CatalogItem, Redemption}
use paisa.Db.State.{Db, Tx, pure, fail, query_row, ◌>>=◌, ◌>>◌}
use paisa.Ledger.Store.{duplicate_key, out_of_range}

-- `CatalogStore.Get`
unfoldable pub catalog_item : String → String → Tx CatalogItem
catalog_item partner_id item_id =
    query_row (λ db. find (λ i. i.partner_id == partner_id && i.id == item_id) db.catalog_items)

abbrev pub is_row : String → String → Redemption → Bool
is_row partner_id redemption_id r = r.partner_id == partner_id && r.id == redemption_id

-- The join with catalog_items, which gives the item's name.
abbrev pub with_item_name : Db → Redemption → Option Redemption
with_item_name db r = elim (find (λ i. i.id == r.catalog_item_id) db.catalog_items) [
  | none ↦ none
  | some i ↦ some (record r { catalog_item_name = i.name })
]

abbrev pub joined : Db → Option Redemption → Option Redemption
joined db none = none
joined db (some r) = with_item_name db r

-- `Get`
unfoldable pub get : String → String → Tx Redemption
get partner_id redemption_id =
    query_row (λ db. joined db (find (is_row partner_id redemption_id) db.redemptions))

-- `GetByCode`
unfoldable pub get_by_code : String → String → Tx Redemption
get_by_code partner_id code = do
  row ← query_row (λ db. find (λ r. r.partner_id == partner_id && r.code == code) db.redemptions)
  get partner_id row.id

-- The row that `Create` inserts.
abbrev pub new_row : String → String → String → String → String → ℤ → String → ℤ → Redemption
new_row id partner_id member_id account_id catalog_item_id points_cost code expires_at = record {
  id = id;
  partner_id = partner_id;
  member_id = member_id;
  member_account_id = account_id;
  catalog_item_id = catalog_item_id;
  catalog_item_name = "";
  code = code;
  status = reserved;
  points_cost = points_cost;
  reservation_expires_at = some expires_at;
  failure_reason = "";
}

-- The keys of the table: its id, and the partner with the code.
abbrev pub clashes : Redemption → Redemption → Bool
clashes row r = r.id == row.id || r.partner_id == row.partner_id && r.code == row.code

-- `Create`: the id is the database's.
unfoldable pub create : String → String → String → String → String → ℤ → String → ℤ → Tx Redemption
unfolding get
create id partner_id member_id account_id catalog_item_id points_cost code expires_at = do
  let row = new_row id partner_id member_id account_id catalog_item_id points_cost code expires_at
  (λ db.
      if not (fits_integer points_cost)
      then fail (app_error_from_db out_of_range) db
      else if any (clashes row) db.redemptions
      then fail (app_error_from_db duplicate_key) db
      else pure tt (record db { redemptions = row ∷ db.redemptions }))
  get partner_id id

abbrev pub set_status : RedemptionStatus → String → Redemption → Redemption
set_status status failure_reason row = record row {
  status = status;
  failure_reason = if failure_reason == "" then row.failure_reason else failure_reason;
}

-- `UpdateStatus`
unfoldable pub update_status : String → String → RedemptionStatus → String → Tx Redemption
unfolding get
update_status partner_id redemption_id status failure_reason = do
  (λ db. pure tt (record db {
    redemptions =
        update_first (is_row partner_id redemption_id) (set_status status failure_reason)
          db.redemptions;
  }))
  get partner_id redemption_id

-- `InsertEvent`
unfoldable pub insert_event : String → RedemptionStatus → List (String × String) → Tx (Unit {0})
insert_event redemption_id status details db = pure tt (record db {
  redemption_events =
      record { redemption_id = redemption_id; status = status; details = details }
      ∷ db.redemption_events;
})

-- `Counts`
unfoldable pub counts : String → Tx ℕ
counts partner_id db =
    pure (length (keep (λ r. r.partner_id == partner_id && is_open r.status) db.redemptions)) db
