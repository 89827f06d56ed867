-- ===== src/Redemption/Effects.antt =====
-- What a successful redemption operation has done to the database.
use paisa.Prelude.{
  String, eq_refl, ◌≡◌, refl, ap, inl, inr, Bool, true, false, not, some, List, [], ◌∷◌, any, find,
  update_first, arith, Option-cases,
}
use mathlib.Core.Path.{subst₂, ◌∙◌}
use paisa.Prelude.Int.{ℤ, pos}
use paisa.Prelude.Word.{IsInt32, fits_integer, fits_integer-IsInt32}
use paisa.Domain.Errors.{Error, invariant_error}
use paisa.Domain.Constants.{
  RedemptionStatus, reserved, validated, captured, released, is_open, is_reserved, is_active,
  redemption_capture, reservation_release,
}
use paisa.Domain.Types.{
  AuthContext, CatalogItem, LedgerEntryInput, LedgerPostResult, Redemption, RedemptionRequest,
  RedemptionActionResult,
}
use paisa.Db.Result.{ok, Result-cases}
use paisa.Db.State.{Db, RedemptionEvent, Tx, pure, ◌>>=◌, ◌>>◌, fail_if}
use paisa.Db.Accounts.{account_id}
use paisa.Db.Inversion.{
  account_id-keeps, >>=-eq-ok, fail_if-eq-ok, query_row-eq-ok, within_tx-eq-ok,
}
use paisa.Ledger.Store.{get_balance, post_ledger_entry}
use paisa.Ledger.Posting.{Posting, post_ledger_entry-Posting}
use paisa.Redemption.Store.{
  catalog_item, is_row, clashes, new_row, set_status, get, create, update_status, insert_event,
}
use paisa.Redemption.Service.{
  reserve_entry, settle_entry, settle, post_reserve, create_redemption, capture_redemption,
  release_redemption, validate_redemption, has_expired, expires_at,
}

-- The redemption that `get` finds is a row, but for the item's name.
get-eq-ok :
    (partner_id id : String) (db db' : Db) (r : Redemption)
    → get partner_id id db ≡ (ok r, db')
    → (row : Redemption) × (find (is_row partner_id id) db.redemptions ≡ some row)
      × (r ≡ record row { catalog_item_name = r.catalog_item_name })
      × (db' ≡ db)
unfolding get ◌>>=◌
get-eq-ok partner_id id db db' r h =
    elim (Option-cases (find (is_row partner_id id) db.redemptions)) [
      | inl e ↦ ground arith
      | inr (row, e) ↦ (row, e, ground arith, ground arith)
    ]

-- A row closed by an entry: what a capture and a release do.
pub record Settled (entry_id partner_id redemption_id : String) (input : LedgerEntryInput)
    (status : RedemptionStatus) (db db' : Db) : Type 0 where
  pub entry : LedgerPostResult
  pub middle : Db
  pub posting : Posting entry_id input db middle entry
  pub events : List RedemptionEvent
  pub state : db' ≡ record middle {
    redemptions =
        update_first (is_row partner_id redemption_id) (set_status status "") middle.redemptions;
    redemption_events = events;
  }

settle-Settled :
    (entry_id : String) (auth : AuthContext) (redemption : Redemption) (input : LedgerEntryInput)
    (status : RedemptionStatus) (db db' : Db) (res : RedemptionActionResult)
    → settle entry_id auth redemption input status db ≡ (ok res, db')
    → Settled entry_id auth.partner_id redemption.id input status db db'
unfolding ◌>>=◌ settle update_status insert_event get_balance
settle-Settled entry_id auth redemption input status db db' res h =
    elim (Result-cases (post_ledger_entry entry_id input db).0) [
      | inl (a, e) ↦ record {
        entry = a;
        middle = (post_ledger_entry entry_id input db).1;
        posting =
            post_ledger_entry-Posting entry_id input db (post_ledger_entry entry_id input db).1 a
              (ground (arith, e));
        events = db'.redemption_events;
        state = ground (arith, e);
      }
      | inr (x, e) ↦ ground (arith, e)
    ]

-- A capture or a release closes an open row by the entry for it.
pub record Closed (entry_id : String) (auth : AuthContext) (redemption_id : String)
    (status : RedemptionStatus) (db db' : Db) (inp : Redemption → LedgerEntryInput) : Type 0 where
  pub row : Redemption
  pub found : find (is_row auth.partner_id redemption_id) db.redemptions ≡ some row
  pub was_open : is_open row.status ≡ true
  pub settled : Settled entry_id auth.partner_id row.id (inp row) status db db'

module _ (entry_id : String) (auth : AuthContext) (redemption_id : String)
    (status : RedemptionStatus) (refused : Error) (inp : Redemption → LedgerEntryInput)
    (no_name : (r : Redemption) (n : String)
      → inp (record r { catalog_item_name = n }) ≡ inp r) where
  -- The body of a capture and of a release.
  abbrev closing : Tx RedemptionActionResult
  closing = do
    redemption ← get auth.partner_id redemption_id
    fail_if (not (is_open redemption.status)) refused
    settle entry_id auth redemption (inp redemption) status

  closing-Closed :
      (db db' : Db) (res : RedemptionActionResult)
      → closing db ≡ (ok res, db')
      → Closed entry_id auth redemption_id status db db' inp
  closing-Closed db db' res h =
      let (r, db₁, e, h₁) = >>=-eq-ok (get auth.partner_id redemption_id) _ h in
      let (o, h₂) = fail_if-eq-ok _ _ _ h₁ in
      let (row, found, same, kept) = get-eq-ok auth.partner_id redemption_id db db₁ r e in
      record {
        row = row;
        found = found;
        was_open = ground (arith, o, same);
        settled =
            subst₂ (λ a b. Settled entry_id auth.partner_id a b status db db')
              (ap (λ (x : Redemption). x.id) same) (ap inp same ∙ no_name row r.catalog_item_name)
              (rw kept at (settle-Settled entry_id auth r (inp r) status db₁ db' res h₂));
      }

pub capture_redemption-Closed :
    (entry_id : String) (auth : AuthContext) (redemption_id : String) (db db' : Db)
    (res : RedemptionActionResult)
    → capture_redemption entry_id auth redemption_id db ≡ (ok res, db')
    → Closed entry_id auth redemption_id captured db db'
        (λ r. settle_entry auth r redemption_capture (pos 0) "redemption capture")
unfolding capture_redemption
capture_redemption-Closed entry_id auth redemption_id db db' res h =
    closing-Closed entry_id auth redemption_id captured
      (invariant_error "only reserved or validated redemptions can be captured")
      (λ r. settle_entry auth r redemption_capture (pos 0) "redemption capture") (λ r n. refl) db
      db' res (within_tx-eq-ok _ h)

pub release_redemption-Closed :
    (entry_id : String) (auth : AuthContext) (redemption_id : String) (db db' : Db)
    (res : RedemptionActionResult)
    → release_redemption entry_id auth redemption_id db ≡ (ok res, db')
    → Closed entry_id auth redemption_id released db db'
        (λ r. settle_entry auth r reservation_release r.points_cost "redemption release")
unfolding release_redemption
release_redemption-Closed entry_id auth redemption_id db db' res h =
    closing-Closed entry_id auth redemption_id released
      (invariant_error "only reserved or validated redemptions can be released")
      (λ r. settle_entry auth r reservation_release r.points_cost "redemption release")
      (λ r n. refl) db db' res (within_tx-eq-ok _ h)

-- A validation that succeeds has changed the status of a reserved row that has not expired.
pub record Validated (now : ℤ) (auth : AuthContext) (redemption_id : String) (db db' : Db)
    : Type 0 where
  pub row : Redemption
  pub found : find (is_row auth.partner_id redemption_id) db.redemptions ≡ some row
  pub was_reserved : is_reserved row.status ≡ true
  pub in_time : has_expired row.reservation_expires_at now ≡ false
  pub events : List RedemptionEvent
  pub state : db' ≡ record db {
    redemptions =
        update_first (is_row auth.partner_id row.id) (set_status validated "") db.redemptions;
    redemption_events = events;
  }

pub validate_redemption-Validated :
    (now : ℤ) (auth : AuthContext) (redemption_id : String) (db db' : Db)
    (res : RedemptionActionResult)
    → validate_redemption now auth redemption_id db ≡ (ok res, db')
    → Validated now auth redemption_id db db'
unfolding validate_redemption ◌>>=◌ update_status insert_event get_balance
validate_redemption-Validated now auth redemption_id db db' res h =
    let h' = within_tx-eq-ok _ h in
    elim (Result-cases (get auth.partner_id redemption_id db).0) [
      | inl (r, e) ↦
          let (row, found, same, kept) =
            get-eq-ok auth.partner_id redemption_id db (get auth.partner_id redemption_id db).1 r
              (ground (arith, e)) in
          record {
            row = row;
            found = found;
            was_reserved = ground (arith, e, same, h');
            in_time = ground (arith, e, same, h');
            events = db'.redemption_events;
            state = ground (arith, e, same, kept, h');
          }
      | inr (x, e) ↦ ground (arith, e, h')
    ]

-- A creation that succeeds has added a reserved row and posted the reserve.
pub record Created (redemption_id entry_id : String) (auth : AuthContext) (body : RedemptionRequest)
    (db db' : Db) : Type 0 where
  pub item : CatalogItem
  pub item_active : is_active item.status ≡ true
  pub account : String
  pub row : Redemption
  pub row_open : row.status ≡ reserved
  pub row_id : row.id ≡ redemption_id
  pub row_partner : row.partner_id ≡ auth.partner_id
  pub row_account : row.member_account_id ≡ account
  pub row_cost : row.points_cost ≡ item.points_cost
  pub fresh : any (clashes row) db.redemptions ≡ false
  pub cost_fits : IsInt32 item.points_cost
  pub middle : Db
  pub entry : LedgerPostResult
  pub posting :
      Posting entry_id
        (reserve_entry auth account item redemption_id)
        (record db { redemptions = row ∷ db.redemptions })
        middle
        entry
  pub events : List RedemptionEvent
  pub state : db' ≡ record middle { redemption_events = events }

create-eq-ok :
    (id partner_id member_id account_id catalog_item_id : String) (points_cost : ℤ) (code : String)
    (expires : ℤ) (db db' : Db) (r : Redemption)
    → create id partner_id member_id account_id catalog_item_id points_cost code expires db
      ≡ (ok r, db')
    → let row =
        new_row id partner_id member_id account_id catalog_item_id points_cost code expires in
      (db' ≡ record db { redemptions = row ∷ db.redemptions })
      × (r.id ≡ id)
      × (any (clashes row) db.redemptions ≡ false)
      × (fits_integer points_cost ≡ true)
unfolding create ◌>>=◌
create-eq-ok id partner_id member_id account_id catalog_item_id points_cost code expires db db' r
      h =
    ground (arith, eq_refl id, eq_refl partner_id)

catalog_item-keeps :
    (p i : String) (db db' : Db) (a : CatalogItem) → catalog_item p i db ≡ (ok a, db') → db' ≡ db
unfolding catalog_item
catalog_item-keeps p i db db' a h = (query_row-eq-ok _ h).1

not-eq-false : {b : Bool} → not b ≡ false → b ≡ true
not-eq-false h = ground arith

-- What follows the creation of the row.
module _ (entry_id : String) (auth : AuthContext) (item : CatalogItem) (account : String) where
  abbrev reserving : Redemption → Tx RedemptionActionResult
  reserving redemption = do
    entry ← post_reserve auth redemption.id entry_id (reserve_entry auth account item redemption.id)
    insert_event redemption.id reserved (("code", redemption.code) ∷ [])
    balance ← get_balance account
    pure (record {
      redemption = redemption;
      ledger_entry_id = entry.ledger_entry_id;
      balance = balance;
    })

  reserving-Posting :
      (redemption : Redemption) (db db' : Db) (res : RedemptionActionResult)
      → reserving redemption db ≡ (ok res, db')
      → (middle : Db) × (entry : LedgerPostResult) × Posting entry_id
          (reserve_entry auth account item redemption.id)
          db
          middle
          entry
        × (db' ≡ record middle { redemption_events = db'.redemption_events })
  unfolding post_reserve ◌>>=◌ insert_event get_balance
  reserving-Posting redemption db db' res h =
      let input = reserve_entry auth account item redemption.id in
      elim (Result-cases (post_ledger_entry entry_id input db).0) [
        | inl (a, e) ↦ (
          (post_ledger_entry entry_id input db).1,
          a,
          post_ledger_entry-Posting entry_id input db (post_ledger_entry entry_id input db).1 a
              (ground (arith, e)),
          ground (arith, e),
        )
        | inr (x, e) ↦ ground (arith, e)
      ]

pub create_redemption-Created :
    (redemption_id entry_id code : String) (now : ℤ) (auth : AuthContext) (body : RedemptionRequest)
    (db db' : Db) (res : RedemptionActionResult)
    → create_redemption redemption_id entry_id code now auth body db ≡ (ok res, db')
    → Created redemption_id entry_id auth body db db'
unfolding create_redemption
create_redemption-Created redemption_id entry_id code now auth body db db' res h =
    let (_, h₁) = fail_if-eq-ok _ _ _ (within_tx-eq-ok _ h) in
    let (item, db₁, ei, h₂) = >>=-eq-ok (catalog_item auth.partner_id body.catalog_item_id) _ h₁ in
    let (active, h₃) = fail_if-eq-ok _ _ _ h₂ in
    let (account, db₂, ea, h₄) = >>=-eq-ok (account_id auth.partner_id body.member_id) _ h₃ in
    let (r, db₃, er, h₅) = >>=-eq-ok _ (reserving entry_id auth item account) h₄ in
    let same₁ = catalog_item-keeps auth.partner_id body.catalog_item_id db db₁ item ei in
    let same₂ : db₂ ≡ db =
      account_id-keeps auth.partner_id body.member_id db₁ db₂ account ea ∙ same₁ in
    let (state, same_id, fresh, fits) =
      create-eq-ok redemption_id auth.partner_id body.member_id account item.id item.points_cost
        code (expires_at now item.expires_after_minutes) db db₃ r (rw same₂ at er) in
    let (middle, entry, posting, final) =
      reserving-Posting entry_id auth item account r db₃ db' res h₅ in
    record {
      item = item;
      item_active = not-eq-false active;
      account = account;
      row =
          new_row redemption_id auth.partner_id body.member_id account item.id item.points_cost code
            (expires_at now item.expires_after_minutes);
      row_open = refl;
      row_id = refl;
      row_partner = refl;
      row_account = refl;
      row_cost = refl;
      fresh = fresh;
      cost_fits = fits_integer-IsInt32 item.points_cost fits;
      middle = middle;
      entry = entry;
      posting =
          subst₂ (λ a b. Posting entry_id (reserve_entry auth account item a) b middle entry)
            same_id state posting;
      events = db'.redemption_events;
      state = final;
    }
