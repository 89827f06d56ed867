-- ===== src/Transactions/Store.antt =====
-- `TransactionStore` of accts-api/adapters/postgres/internal/repository/transaction.go. An optional
-- text is '' where its column is null.
use paisa.Prelude.{
  String, ◌==◌, ◌++◌, Bool, true, false, not, ◌&&◌, ◌||◌, Option, none, some, List, [], ◌∷◌, any,
  find, update_first, if◌then◌else◌,
}
use paisa.Prelude.Word.{fits_integer}
use paisa.Domain.Errors.{Error, other, app_error_from_db, invariant_error}
use paisa.Domain.Constants.{EventStatus, accepted, processing, processed, failed}
use paisa.Domain.Types.{Member}
use paisa.Domain.Transactions.{
  LineItemInput, TransactionCreateInput, TransactionRow, TransactionIdentity,
}
use paisa.Db.Char.{char_fits, to_char}
use paisa.Programs.Store.{check_violation}
use paisa.Db.State.{Db, Tx, pure, fail, query_row, ◌>>=◌}
use paisa.Ledger.Store.{duplicate_key, out_of_range}

-- `MemberByExternalID` of member.go.
unfoldable pub member_by_external_id : String → String → Tx Member
member_by_external_id partner_id external_customer_id = query_row (λ db.
    find (λ m. m.partner_id == partner_id && m.external_customer_id == external_customer_id)
      db.members)

abbrev pub is_external : String → String → TransactionRow → Bool
is_external partner_id external_transaction_id t =
    t.input.partner_id == partner_id && t.input.external_transaction_id == external_transaction_id

abbrev pub identity_of : TransactionRow → TransactionIdentity
identity_of t = record { id = t.id; payload_hash = t.input.payload_hash }

abbrev pub identity : Option TransactionRow → Option TransactionIdentity
identity none = none
identity (some t) = some (identity_of t)

-- `FindByExternalID`
unfoldable pub find_by_external_id : String → String → Tx TransactionIdentity
find_by_external_id partner_id external_transaction_id =
    query_row
      (λ db. identity (find (is_external partner_id external_transaction_id) db.transaction_events))

abbrev pub amounts_fit : TransactionCreateInput → Bool
amounts_fit i =
    fits_integer i.subtotal_minor
    && fits_integer i.tax_minor
    && fits_integer i.total_minor
    && fits_integer i.eligible_minor

abbrev pub type_allowed : String → Bool
type_allowed type = type == "purchase" || type == "refund"

-- What the columns of transaction_events take.
abbrev pub columns_fit : TransactionCreateInput → Bool
columns_fit i = amounts_fit i && char_fits 3 i.currency && type_allowed i.type

abbrev pub too_long : Error
too_long = other "pq: value too long for type character(3)"

-- The error of an input that does not fit, in the database's order.
abbrev pub misfit : TransactionCreateInput → Error
misfit i =
    if not (amounts_fit i)
    then out_of_range
    else if not (char_fits 3 i.currency)
    then too_long
    else check_violation

abbrev pub new_event : String → TransactionCreateInput → TransactionRow
new_event id input = record {
  id = id;
  status = accepted;
  input = record input { currency = to_char 3 input.currency };
}

-- `CreateIfNotExists`: the id, and whether a row was inserted.
unfoldable pub create_if_not_exists : String → TransactionCreateInput → Tx (String × Bool)
create_if_not_exists id input db =
    if not (columns_fit input)
    then fail (app_error_from_db (misfit input)) db
    else if any (is_external input.partner_id input.external_transaction_id) db.transaction_events
    then pure ("", false) db
    else if any (λ t. t.id == id) db.transaction_events
    then fail (app_error_from_db duplicate_key) db
    else pure (id, true)
        (record db { transaction_events = new_event id input ∷ db.transaction_events })

abbrev pub line_fits : LineItemInput → Bool
line_fits l =
    fits_integer l.quantity
    && fits_integer l.subtotal_minor
    && fits_integer l.tax_minor
    && fits_integer l.total_minor
    && fits_integer l.eligible_minor

-- One turn of the loop of `InsertLineItems`.
unfoldable pub insert_line_item : String → LineItemInput → Tx (Unit {0})
insert_line_item event_id line db =
    if line_fits line
    then pure tt
        (record db { transaction_line_items = (event_id, line) ∷ db.transaction_line_items })
    else fail (app_error_from_db out_of_range) db

-- `InsertLineItems`
unfoldable pub insert_line_items : String → List LineItemInput → Tx (Unit {0})
unfolding insert_line_item
insert_line_items event_id [] = pure tt
insert_line_items event_id (line ∷ lines) = do
  _ ← insert_line_item event_id line
  insert_line_items event_id lines

-- The line items of an event, oldest first.
abbrev pub lines_of : String → List (String × LineItemInput) → List LineItemInput
lines_of id [] = []
lines_of id ((k, line) ∷ rest) =
    let older = lines_of id rest in if k == id then older ++ (line ∷ []) else older

-- A row with its line items: `TransactionEvent`.
pub record TransactionEvent : Type 0 where
  pub row : TransactionRow
  pub line_items : List LineItemInput

abbrev pub with_lines : Db → Option TransactionRow → Option TransactionEvent
with_lines db none = none
with_lines db (some t) =
    some (record { row = t; line_items = lines_of t.id db.transaction_line_items })

-- `Get`
unfoldable pub get_event : String → String → Tx TransactionEvent
get_event partner_id event_id = query_row (λ db.
    with_lines db
      (find (λ t. t.id == event_id && t.input.partner_id == partner_id) db.transaction_events))

abbrev pub is_accepted : EventStatus → Bool
is_accepted accepted = true
is_accepted _ = false

abbrev pub is_claimable : EventStatus → Bool
is_claimable accepted = true
is_claimable processing = true
is_claimable _ = false

abbrev pub set_event_status : EventStatus → TransactionRow → TransactionRow
set_event_status status t = record t { status = status }

-- `ClaimAccepted`
unfoldable pub claim_accepted : String → Tx (Unit {0})
claim_accepted event_id db =
    let test = λ (t : TransactionRow). t.id == event_id && is_claimable t.status in
    if any test db.transaction_events
    then pure tt (record db {
      transaction_events = update_first test (set_event_status processing) db.transaction_events;
    })
    else fail (invariant_error "event not accepted") db

abbrev set_status_of : EventStatus → String → Tx (Unit {0})
set_status_of status event_id db = pure tt (record db {
  transaction_events =
      update_first (λ t. t.id == event_id) (set_event_status status) db.transaction_events;
})

-- `MarkProcessed`
unfoldable pub mark_processed : String → Tx (Unit {0})
mark_processed event_id = set_status_of processed event_id

-- `MarkFailed`
unfoldable pub mark_failed : String → Tx (Unit {0})
mark_failed event_id = set_status_of failed event_id
