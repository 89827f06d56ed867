-- ===== src/Ledger/Posting.antt =====
-- What a posting does: the inversion of a successful `post_ledger_entry`.
use paisa.Prelude.{
  String, ◌≡◌, inl, inr, true, false, some, ◌∷◌, ◌||◌, any, find, update_first, arith, eq_iff,
  find-passes, Option-cases,
}
use paisa.Prelude.Int.{ℤ, pos, ◌≤ℤ◌}
use paisa.Prelude.Word.{IsInt32, fits_integer, ◌⊞◌}
use paisa.Domain.Types.{BalanceSnapshot, LedgerEntryInput, LedgerPostResult}
use paisa.Domain.Balance.{add_deltas, is_reserve, is_expiration, apply_ledger_delta}
use paisa.Db.Result.{ok, Result-cases}
use paisa.Db.State.{Db, ◌>>=◌}
use paisa.Ledger.Store.{
  is_of, entry_clashes, entry_of, set_points, lock_balance, insert_entry, update_balance,
  post_ledger_entry,
}

-- The state after a posting that found `balance`, as the code computes it.
abbrev pub posted : String → LedgerEntryInput → BalanceSnapshot → Db → Db
posted id input balance db =
    let next : BalanceSnapshot =
      add_deltas balance input.available_delta input.reserved_delta input.expired_delta in
    record db {
      balance_snapshots =
          update_first (is_of input.member_account_id) (set_points next) db.balance_snapshots;
      ledger_entries = entry_of id input ∷ db.ledger_entries;
    }

abbrev pub IsSound : BalanceSnapshot → Type 0
IsSound b =
    IsInt32 b.available_points
    × IsInt32 b.reserved_points
    × IsInt32 b.expired_points
    × (pos 0 ≤ℤ b.reserved_points)
    × (pos 0 ≤ℤ b.expired_points)

-- A successful posting.
pub record Posting (id : String) (input : LedgerEntryInput) (db db' : Db) (r : LedgerPostResult)
    : Type 0 where
  pub balance : BalanceSnapshot
  pub found : find (is_of input.member_account_id) db.balance_snapshots ≡ some balance
  pub state : db' ≡ posted id input balance db
  pub result : r ≡ record {
    ledger_entry_id = id;
    balance = add_deltas balance input.available_delta input.reserved_delta input.expired_delta;
  }
  pub available_fits : IsInt32 input.available_delta
  pub reserved_fits : IsInt32 input.reserved_delta
  pub expired_fits : IsInt32 input.expired_delta
  pub covered :
      is_reserve input.entry_type ≡ true → pos 0 ≤ℤ balance.available_points ⊞ input.available_delta
  pub sound :
      IsSound (add_deltas balance input.available_delta input.reserved_delta input.expired_delta)

apply-eq-ok :
    (b : BalanceSnapshot) (input : LedgerEntryInput) (next : BalanceSnapshot)
    → apply_ledger_delta b input.entry_type input.available_delta input.reserved_delta
        input.expired_delta
      ≡ ok next
    → (next ≡ add_deltas b input.available_delta input.reserved_delta input.expired_delta)
      × (pos 0 ≤ℤ next.reserved_points)
      × (pos 0 ≤ℤ next.expired_points)
      × (is_reserve input.entry_type ≡ true → pos 0 ≤ℤ next.available_points)
unfolding apply_ledger_delta
apply-eq-ok b input next h = ground arith

pub post_ledger_entry-Posting :
    (id : String) (input : LedgerEntryInput) (db db' : Db) (r : LedgerPostResult)
    → post_ledger_entry id input db ≡ (ok r, db')
    → Posting id input db db' r
unfolding post_ledger_entry lock_balance insert_entry update_balance ◌>>=◌
post_ledger_entry-Posting id input db db' r h =
    elim (Option-cases (find (is_of input.member_account_id) db.balance_snapshots)) [
      | inl missing ↦ ground arith
      | inr (b, e) ↦
          elim (Result-cases (
            apply_ledger_delta b input.entry_type input.available_delta input.reserved_delta
              input.expired_delta)) [
                | inl (next, a) ↦ record {
                  balance = b;
                  found = e;
                  state = ground (
                    arith,
                    apply-eq-ok b input next a,
                    find-passes (is_of input.member_account_id) db.balance_snapshots b e,
                    eq_iff b.member_account_id input.member_account_id,
                  );
                  result = ground (arith, apply-eq-ok b input next a);
                  available_fits = ground (arith);
                  reserved_fits = ground (arith);
                  expired_fits = ground (arith);
                  covered = λ k.
                      ground (arith, apply-eq-ok b input next a, (apply-eq-ok b input next a).3 k);
                  sound = ground (arith, apply-eq-ok b input next a);
                }
                | inr (x, a) ↦ ground arith
              ]
    ]

IsInt32-fits : (x : ℤ) → IsInt32 x → fits_integer x ≡ true
IsInt32-fits x h = ground arith

apply_ledger_delta-succeeds :
    (b : BalanceSnapshot) (input : LedgerEntryInput)
    → let next = add_deltas b input.available_delta input.reserved_delta input.expired_delta in
      IsSound next
      → is_reserve input.entry_type || is_expiration input.entry_type ≡ false
      → apply_ledger_delta b input.entry_type input.available_delta input.reserved_delta
          input.expired_delta
        ≡ ok next
unfolding apply_ledger_delta
apply_ledger_delta-succeeds b input sound plain = ground arith

insert_entry-succeeds :
    (id : String) (input : LedgerEntryInput) (db : Db)
    → any (entry_clashes id input) db.ledger_entries ≡ false
    → IsInt32 input.available_delta × IsInt32 input.reserved_delta × IsInt32 input.expired_delta
    → insert_entry id input db
      ≡ (ok id, record db { ledger_entries = entry_of id input ∷ db.ledger_entries })
unfolding insert_entry
insert_entry-succeeds id input db fresh fits = rw (
  IsInt32-fits input.available_delta fits.0,
  IsInt32-fits input.reserved_delta fits.1,
  IsInt32-fits input.expired_delta fits.2,
  fresh,
)

update_balance-succeeds :
    (next : BalanceSnapshot) (db : Db)
    → IsSound next
    → update_balance next db ≡ (
      ok tt,
      record db {
        balance_snapshots =
            update_first (is_of next.member_account_id) (set_points next) db.balance_snapshots;
      },
    )
unfolding update_balance
update_balance-succeeds next db sound = rw (
  IsInt32-fits next.available_points sound.0,
  IsInt32-fits next.reserved_points sound.1,
  IsInt32-fits next.expired_points sound.2,
)

-- A posting that is neither a redemption's reserve nor an expiration succeeds, with the entry
-- stored and the balance moved, when its account has a snapshot, its id is new, its source has no
-- entry of its type, the deltas and
-- the balance that they lead to fit their columns, and neither the reserved nor the expired
-- points go below 0.
pub post_ledger_entry-succeeds :
    (id : String) (input : LedgerEntryInput) (b : BalanceSnapshot) (db : Db)
    → let next = add_deltas b input.available_delta input.reserved_delta input.expired_delta in
      find (is_of input.member_account_id) db.balance_snapshots ≡ some b
      → any (entry_clashes id input) db.ledger_entries ≡ false
      → IsInt32 input.available_delta × IsInt32 input.reserved_delta × IsInt32 input.expired_delta
      → IsSound next
      → is_reserve input.entry_type || is_expiration input.entry_type ≡ false
      → post_ledger_entry id input db
        ≡ (ok (record { ledger_entry_id = id; balance = next }), posted id input b db)
unfolding post_ledger_entry lock_balance ◌>>=◌
post_ledger_entry-succeeds id input b db found fresh fits sound plain =
    let next = add_deltas b input.available_delta input.reserved_delta input.expired_delta in
    let stored : Db = record db { ledger_entries = entry_of id input ∷ db.ledger_entries } in
    let key : b.member_account_id ≡ input.member_account_id =
      (eq_iff b.member_account_id input.member_account_id).0
        (find-passes (is_of input.member_account_id) db.balance_snapshots b found) in
    ground (
      arith,
      found,
      key,
      apply_ledger_delta-succeeds b input sound plain,
      insert_entry-succeeds id input db fresh fits,
      update_balance-succeeds next stored sound,
    )
