-- ===== src/Ledger/Reconciled.antt =====
-- Balances against the sums of the ledger's entries.
use paisa.Prelude.{
  String, ◌==◌, eq_iff, ◌≡◌, refl, ap, ◌∙◌, ◌≢◌, inl, inr, some, none, List, [], ◌∷◌, All, find,
  find-All, update_first, update_first-All, arith, Bool-cases, if◌then◌else◌,
}
use paisa.Prelude.Int.{ℤ, pos, ◌+ℤ◌}
use paisa.Prelude.Word.{◌⊞◌, ⊞_exact}
use paisa.Domain.Types.{BalanceSnapshot, LedgerEntry, LedgerEntryInput, LedgerPostResult}
use paisa.Domain.Balance.{add_deltas}
use paisa.Db.State.{Db, Tx}
use paisa.Db.Frame.{Keeps, Preserves}
use paisa.Ledger.Store.{is_of, entry_of, set_points}
use paisa.Ledger.Posting.{IsSound, Posting}

-- A field of an account's balance: 0 where the account has no snapshot.
abbrev pub field_of : (BalanceSnapshot → ℤ) → String → List BalanceSnapshot → ℤ
field_of g a rows = elim (find (is_of a) rows) [ none ↦ pos 0 | some b ↦ g b ]

-- The sum of a delta over the entries of an account, in exact integers.
abbrev pub total : (LedgerEntry → ℤ) → String → List LedgerEntry → ℤ
total f a [] = pos 0
total f a (e ∷ es) = if e.member_account_id == a then total f a es +ℤ f e else total f a es

pub record IsReconciled (db : Db) : Type 0 where
  pub available :
      (a : String)
      → field_of (λ b. b.available_points) a db.balance_snapshots
        ≡ total (λ e. e.available_delta) a db.ledger_entries
  pub reserved :
      (a : String)
      → field_of (λ b. b.reserved_points) a db.balance_snapshots
        ≡ total (λ e. e.reserved_delta) a db.ledger_entries
  pub expired :
      (a : String)
      → field_of (λ b. b.expired_points) a db.balance_snapshots
        ≡ total (λ e. e.expired_delta) a db.ledger_entries
  pub sound : All IsSound db.balance_snapshots

module _ (change : BalanceSnapshot → BalanceSnapshot)
    (same : (b : BalanceSnapshot) → (change b).member_account_id ≡ b.member_account_id) where
  find-update_self :
      (k : String) (b : BalanceSnapshot) (rows : List BalanceSnapshot)
      → find (is_of k) rows ≡ some b
      → find (is_of k) (update_first (is_of k) change rows) ≡ some (change b)
  find-update_self k b [] e = cc
  find-update_self k b (x ∷ rows) e = ground (arith, find-update_self k b rows, same x)

  find-update_ne :
      (k a : String) (rows : List BalanceSnapshot)
      → k ≢ a
      → find (is_of a) (update_first (is_of k) change rows) ≡ find (is_of a) rows
  find-update_ne k a [] ne = refl
  find-update_ne k a (x ∷ rows) ne = ground (
    arith,
    find-update_ne k a rows ne,
    same x,
    eq_iff x.member_account_id k,
    eq_iff x.member_account_id a,
  )

  -- One more entry and the same change of the account's balance keep the sums in step.
  step :
      (g : BalanceSnapshot → ℤ) (f : LedgerEntry → ℤ) (b : BalanceSnapshot) (entry : LedgerEntry)
      (rows : List BalanceSnapshot) (entries : List LedgerEntry)
      → find (is_of entry.member_account_id) rows ≡ some b
      → g (change b) ≡ g b +ℤ f entry
      → ((a : String) → field_of g a rows ≡ total f a entries)
      → (a : String)
      → field_of g a (update_first (is_of entry.member_account_id) change rows)
        ≡ total f a (entry ∷ entries)
  step g f b entry rows entries found moved h a = elim (Bool-cases (entry.member_account_id == a)) [
    | inl e ↦
        let p : entry.member_account_id ≡ a = (eq_iff entry.member_account_id a).0 e in
        ground
          (arith, e, p, h a, found, moved, find-update_self entry.member_account_id b rows found)
    | inr e ↦ ground (
      arith,
      e,
      h a,
      find-update_ne entry.member_account_id a rows
          (λ p. ground (arith, p, eq_iff entry.member_account_id a)),
    )
  ]

-- The points of `set_points next` are those of `next`, which are exact sums.
sums_exact :
    (b : BalanceSnapshot) (input : LedgerEntryInput) (db db' : Db) (id : String)
    (r : LedgerPostResult)
    → Posting id input db db' r
    → IsSound b
    → let next = add_deltas b input.available_delta input.reserved_delta input.expired_delta in
      (next.available_points ≡ b.available_points +ℤ input.available_delta)
      × (next.reserved_points ≡ b.reserved_points +ℤ input.reserved_delta)
      × (next.expired_points ≡ b.expired_points +ℤ input.expired_delta)
sums_exact b input db db' id r p s = (
  ⊞_exact b.available_points input.available_delta s.0 p.available_fits,
  ⊞_exact b.reserved_points input.reserved_delta s.1 p.reserved_fits,
  ⊞_exact b.expired_points input.expired_delta s.2 p.expired_fits,
)

pub Posting-IsReconciled :
    (id : String) (input : LedgerEntryInput) (db db' : Db) (r : LedgerPostResult)
    → IsReconciled db
    → Posting id input db db' r
    → IsReconciled db'
Posting-IsReconciled id input db db' r inv p =
    let b = p.balance in
    let key = is_of input.member_account_id in
    let s = find-All IsSound key db.balance_snapshots b inv.sound p.found in
    let x = sums_exact b input db db' id r p s in
    let next = add_deltas b input.available_delta input.reserved_delta input.expired_delta in
    let go = λ (g : BalanceSnapshot → ℤ) (f : LedgerEntry → ℤ).
      step (set_points next) (λ c. refl) g f b (entry_of id input) db.balance_snapshots
        db.ledger_entries p.found in
    rw p.state (record {
      available = go (λ c. c.available_points) (λ c. c.available_delta) x.0 inv.available;
      reserved = go (λ c. c.reserved_points) (λ c. c.reserved_delta) x.1 inv.reserved;
      expired = go (λ c. c.expired_points) (λ c. c.expired_delta) x.2 inv.expired;
      sound =
          update_first-All IsSound key (set_points next) db.balance_snapshots inv.sound
            (λ c _. p.sound);
    })

module _ (id : String) (input : LedgerEntryInput) (db db' : Db) (r : LedgerPostResult)
    (inv : IsReconciled db) (p : Posting id input db db' r) where
  after : IsReconciled db'
  after = Posting-IsReconciled id input db db' r inv p

  same_entries : db'.ledger_entries ≡ entry_of id input ∷ db.ledger_entries
  same_entries = ap (λ (d : Db). d.ledger_entries) p.state

  -- A posting moves the reserved points of its account by its delta, and of no other account.
  pub reserved_moves :
      (a : String)
      → field_of (λ b. b.reserved_points) a db'.balance_snapshots ≡ (
          if input.member_account_id == a
          then field_of (λ b. b.reserved_points) a db.balance_snapshots +ℤ input.reserved_delta
          else field_of (λ b. b.reserved_points) a db.balance_snapshots)
  reserved_moves a =
      after.reserved a
      ∙ ap (total (λ e. e.reserved_delta) a) same_entries
      ∙ ground (arith, inv.reserved a)

  -- The same of the available points.
  pub available_moves :
      (a : String)
      → field_of (λ b. b.available_points) a db'.balance_snapshots ≡ (
          if input.member_account_id == a
          then field_of (λ b. b.available_points) a db.balance_snapshots +ℤ input.available_delta
          else field_of (λ b. b.available_points) a db.balance_snapshots)
  available_moves a =
      after.available a
      ∙ ap (total (λ e. e.available_delta) a) same_entries
      ∙ ground (arith, inv.available a)

  -- The balance that a posting leaves on its account, as the code computes it.
  pub balance_after :
      field_of (λ b. b.available_points) input.member_account_id db'.balance_snapshots
      ≡ p.balance.available_points ⊞ input.available_delta
  balance_after =
      let next =
        add_deltas p.balance input.available_delta input.reserved_delta input.expired_delta in
      ground (
        arith,
        p.state,
        find-update_self (set_points next) (λ c. refl) input.member_account_id p.balance
            db.balance_snapshots p.found,
      )

-- What a reconciled ledger is about: the balances and the entries.
abbrev pub books : Db → List BalanceSnapshot × List LedgerEntry
books db = (db.balance_snapshots, db.ledger_entries)

pub books-IsReconciled : {db db' : Db} → books db' ≡ books db → IsReconciled db → IsReconciled db'
books-IsReconciled {db} {db'} same inv =
    let b : db'.balance_snapshots ≡ db.balance_snapshots = ap (λ q. q.0) same in
    let e : db'.ledger_entries ≡ db.ledger_entries = ap (λ q. q.1) same in
    record {
      available = λ a. rw (b, e) (inv.available a);
      reserved = λ a. rw (b, e) (inv.reserved a);
      expired = λ a. rw (b, e) (inv.expired a);
      sound = rw b inv.sound;
    }

pub books-Preserves : {A : Type 0} (m : Tx A) → Keeps books m → Preserves IsReconciled m
books-Preserves m h db inv = books-IsReconciled (h db) inv
