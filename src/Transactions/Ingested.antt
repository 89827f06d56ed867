-- ===== src/Transactions/Ingested.antt =====
-- The rows that `IngestTransaction` stores and meets.
use paisa.Prelude.{
  String, eq_iff, eq_refl, ◌≡◌, ◌≢◌, refl, sym, ap, ◌∙◌, inl, inr, Bool, true, false, some, List,
  [], ◌∷◌, any, find, map, arith, Bool-cases, Option-cases,
}
use paisa.Domain.Errors.{conflict_error}
use paisa.Domain.Transactions.{LineItemInput, TransactionCreateInput, TransactionRow}
use paisa.Db.Result.{Result, ok, err}
use paisa.Db.State.{Db, pure, ◌>>=◌}
use paisa.Db.Inversion.{>>=-eq-ok}
use paisa.Transactions.Store.{
  is_external, columns_fit, new_event, create_if_not_exists, find_by_external_id, insert_line_item,
  insert_line_items,
}
use paisa.Transactions.Service.{default_quantity, accept_existing, store_event}

-- The tables that an ingestion only reads are as they were.
pub record SameAccounts (db db' : Db) : Type 0 where
  pub partners : db'.partners ≡ db.partners
  pub members : db'.members ≡ db.members

insert_line_items-keeps :
    (id : String) (lines : List LineItemInput) (db db' : Db) {u : Unit {0}}
    → insert_line_items id lines db ≡ (ok u, db')
    → (db'.transaction_events ≡ db.transaction_events) × SameAccounts db db'
unfolding insert_line_items insert_line_item
insert_line_items-keeps id [] db db' h =
    (ground arith, record { partners = ground arith; members = ground arith })
insert_line_items-keeps id (line ∷ lines) db db' h =
    let (u, m, e, h') = >>=-eq-ok (insert_line_item id line) _ h in
    let (t, s) = insert_line_items-keeps id lines m db' h' in
    (
      ground (arith, e, t),
      record { partners = ground (arith, e, s.partners); members = ground (arith, e, s.members) },
    )

find-any :
    (p : TransactionRow → Bool) (rows : List TransactionRow) (t : TransactionRow)
    → find p rows ≡ some t
    → any p rows ≡ true
find-any p [] t e = cc
find-any p (x ∷ xs) t e = ground (arith, e, find-any p xs t)

-- What a successful run leaves: the row that answers for the input's id.
pub record Stored (input : TransactionCreateInput) (event_id : String) (db db' : Db) : Type 0 where
  pub row : TransactionRow
  pub found :
      find (is_external input.partner_id input.external_transaction_id) db'.transaction_events
      ≡ some row
  pub same_id : row.id ≡ event_id
  pub same_payload : row.input.payload_hash ≡ input.payload_hash
  pub fits : columns_fit input ≡ true
  pub accounts : SameAccounts db db'

created :
    (new_id id : String) (b : Bool) (input : TransactionCreateInput) (db m : Db)
    → create_if_not_exists new_id input db ≡ (ok (id, b), m)
    → (columns_fit input ≡ true)
      × (b ≡ true
          → (id ≡ new_id)
            × (m ≡ record db {
              transaction_events = new_event new_id input ∷ db.transaction_events;
            }))
      × (b ≡ false → m ≡ db)
unfolding create_if_not_exists
created new_id id b input db m h = (ground arith, λ t. ground arith, λ f. ground arith)

inserted-Stored :
    (new_id id event_id : String) (input : TransactionCreateInput) (lines : List LineItemInput)
    (db m db' : Db)
    → create_if_not_exists new_id input db ≡ (ok (id, true), m)
    → (insert_line_items id lines >>= λ _. pure id) m ≡ (ok event_id, db')
    → Stored input event_id db db'
unfolding ◌>>=◌
inserted-Stored new_id id event_id input lines db m db' e h =
    let (u, m', e', h') = >>=-eq-ok (insert_line_items id lines) (λ _. pure id) h in
    let (k, s) = insert_line_items-keeps id lines m m' e' in
    let c = created new_id id true input db m e in
    let (same_id, state) = c.1 refl in
    let last : m' ≡ db' = ap (λ (r : Result String × Db). r.1) h' in
    record {
      row = new_event new_id input;
      found = ground (
        arith,
        sym last,
        k,
        state,
        eq_refl input.partner_id,
        eq_refl input.external_transaction_id,
      );
      same_id = ground (arith, h', same_id);
      same_payload = refl;
      fits = c.0;
      accounts = record {
        partners =
            ap (λ (d : Db). d.partners) (sym last) ∙ s.partners ∙ ap (λ (d : Db). d.partners) state;
        members =
            ap (λ (d : Db). d.members) (sym last) ∙ s.members ∙ ap (λ (d : Db). d.members) state;
      };
    }

existing-Stored :
    (new_id id event_id : String) (input : TransactionCreateInput) (db m db' : Db)
    → create_if_not_exists new_id input db ≡ (ok (id, false), m)
    → (find_by_external_id input.partner_id input.external_transaction_id
          >>= accept_existing input.payload_hash)
        m
      ≡ (ok event_id, db')
    → Stored input event_id db db'
unfolding find_by_external_id accept_existing ◌>>=◌
existing-Stored new_id id event_id input db m db' e h =
    let c = created new_id id false input db m e in
    let same : m ≡ db = c.2 refl in
    elim (Option-cases
      (find (is_external input.partner_id input.external_transaction_id) m.transaction_events)) [
        | inl n ↦ absurd (ground (arith, n, h))
        | inr (t, n) ↦
            let last : db' ≡ m = ground (arith, n, h) in
            record {
              row = t;
              found = ground (arith, n, last);
              same_id = ground (arith, n, h);
              same_payload =
                  (eq_iff t.input.payload_hash input.payload_hash).0 (ground (arith, n, h));
              fits = c.0;
              accounts = record {
                partners = ground (arith, last, same);
                members = ground (arith, last, same);
              };
            }
      ]

pub store_event-Stored :
    (new_id event_id : String) (input : TransactionCreateInput) (lines : List LineItemInput)
    (db db' : Db)
    → store_event new_id input lines db ≡ (ok event_id, db')
    → Stored input event_id db db'
unfolding store_event
store_event-Stored new_id event_id input lines db db' h =
    let (r, m, e, h') = >>=-eq-ok (create_if_not_exists new_id input) _ h in
    elim (Bool-cases r.1) [
      | inl t ↦
          inserted-Stored new_id r.0 event_id input (map default_quantity lines) db m db'
            (ground (arith, e, t)) (rw t at h')
      | inr f ↦
          existing-Stored new_id r.0 event_id input db m db' (ground (arith, e, f)) (rw f at h')
    ]

-- Where a row answers for the id with the same payload, a run gives that row's id and changes
-- nothing.
pub store_event-again :
    (new_id event_id : String) (input : TransactionCreateInput) (lines : List LineItemInput)
    (db : Db) (row : TransactionRow)
    → find (is_external input.partner_id input.external_transaction_id) db.transaction_events
      ≡ some row
    → row.id ≡ event_id
    → row.input.payload_hash ≡ input.payload_hash
    → columns_fit input ≡ true
    → store_event new_id input lines db ≡ (ok event_id, db)
unfolding store_event create_if_not_exists find_by_external_id accept_existing ◌>>=◌
store_event-again new_id event_id input lines db row found same_id same fits = ground (
  arith,
  found,
  find-any (is_external input.partner_id input.external_transaction_id) db.transaction_events row
      found,
  eq_refl input.payload_hash,
  same_id,
  same,
  fits,
)

-- Where an input fits its columns, and a row of the same partner and external id has another
-- payload hash, the input is refused.
other_payload_conflicts :
    (new_id : String) (input : TransactionCreateInput) (lines : List LineItemInput) (db : Db)
    (row : TransactionRow)
    → find (is_external input.partner_id input.external_transaction_id) db.transaction_events
      ≡ some row
    → row.input.payload_hash ≢ input.payload_hash
    → columns_fit input ≡ true
    → store_event new_id input lines db
      ≡ (err (conflict_error "same external transaction id has a different payload"), db)
unfolding store_event create_if_not_exists find_by_external_id accept_existing ◌>>=◌
other_payload_conflicts new_id input lines db row found other fits = ground (
  arith,
  found,
  find-any (is_external input.partner_id input.external_transaction_id) db.transaction_events row
      found,
  eq_iff row.input.payload_hash input.payload_hash,
  other,
  fits,
)

-- After an event was stored or met, an input that fits its columns, has the same partner and
-- external id, and another payload hash is refused with a conflict error, and nothing changes.
pub store_event-other_payload :
    (new_id new_id' event_id : String) (input input' : TransactionCreateInput)
    (lines lines' : List LineItemInput) (db db' : Db)
    → store_event new_id input lines db ≡ (ok event_id, db')
    → input'.partner_id ≡ input.partner_id
    → input'.external_transaction_id ≡ input.external_transaction_id
    → input'.payload_hash ≢ input.payload_hash
    → columns_fit input' ≡ true
    → store_event new_id' input' lines' db'
      ≡ (err (conflict_error "same external transaction id has a different payload"), db')
store_event-other_payload new_id new_id' event_id input input' lines lines' db db' h partner
      external other fits =
    let s = store_event-Stored new_id event_id input lines db db' h in
    other_payload_conflicts new_id' input' lines' db' s.row (rw (partner, external) s.found)
      (λ e. other (sym e ∙ s.same_payload)) fits
