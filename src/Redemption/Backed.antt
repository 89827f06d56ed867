-- ===== src/Redemption/Backed.antt =====
-- The invariant that joins redemptions and the ledger: an account's reserved points are the costs
-- of its open redemptions.
use paisa.Prelude.{
  String, ◌==◌, ◌≡◌, ap, inl, inr, Bool, true, false, ◌&&◌, some, List, [], ◌∷◌, All, find,
  update_first, arith, Bool-cases, if◌then◌else◌,
}
use paisa.Prelude.Int.{ℤ, pos, ◌+ℤ◌, int_laws}
use paisa.Prelude.Word.{IsInt32}
use paisa.Domain.Constants.{RedemptionStatus, is_open}
use paisa.Domain.Types.{Redemption, BalanceSnapshot, LedgerEntry}
use paisa.Db.State.{Db, Tx}
use paisa.Ledger.Reconciled.{field_of, IsReconciled}
use paisa.Db.Frame.{Keeps, Preserves}
use paisa.Ledger.Reconciled.{books, books-IsReconciled}
use paisa.Redemption.Store.{set_status}

-- The costs of the open redemptions of an account.
abbrev pub open_cost : String → List Redemption → ℤ
open_cost a [] = pos 0
open_cost a (r ∷ rs) =
    if is_open r.status && r.member_account_id == a
    then open_cost a rs +ℤ r.points_cost
    else open_cost a rs

pub record IsConsistent (db : Db) : Type 0 where
  pub reconciled : IsReconciled db
  pub backed :
      (a : String)
      → field_of (λ b. b.reserved_points) a db.balance_snapshots ≡ open_cost a db.redemptions
  pub costs : All (λ r. IsInt32 r.points_cost) db.redemptions

module _ (p : Redemption → Bool) (status : RedemptionStatus) (reason : String)
    (row : Redemption) where
  -- Closing an open row takes its cost off its account's sum.
  pub open_cost-close :
      (a : String) (rs : List Redemption)
      → find p rs ≡ some row
      → is_open row.status ≡ true
      → is_open status ≡ false
      → open_cost a rs ≡ (
          if row.member_account_id == a
          then open_cost a (update_first p (set_status status reason) rs) +ℤ row.points_cost
          else open_cost a (update_first p (set_status status reason) rs))
  open_cost-close a [] e o c = cc
  open_cost-close a (r ∷ rs) e o c = elim (Bool-cases (p r)) [
    | inl t ↦ ground (arith, t, e)
    | inr t ↦ grind (int_laws, t, e, open_cost-close a rs)
  ]

  -- A change between open statuses keeps the sum.
  pub open_cost-keep :
      (a : String) (rs : List Redemption)
      → find p rs ≡ some row
      → is_open row.status ≡ true
      → is_open status ≡ true
      → open_cost a (update_first p (set_status status reason) rs) ≡ open_cost a rs
  open_cost-keep a [] e o c = cc
  open_cost-keep a (r ∷ rs) e o c = elim (Bool-cases (p r)) [
    | inl t ↦ ground (arith, t, e)
    | inr t ↦ ground (arith, t, e, open_cost-keep a rs)
  ]

-- What the invariant is about: the balances, the entries and the redemptions.
abbrev pub money : Db → (List BalanceSnapshot × List LedgerEntry) × List Redemption
money db = (books db, db.redemptions)

pub money-books : {A : Type 0} (m : Tx A) → Keeps money m → Keeps books m
money-books m h db = ap (λ q. q.0) (h db)

pub money-IsConsistent : {db db' : Db} → money db' ≡ money db → IsConsistent db → IsConsistent db'
money-IsConsistent {db} {db'} same inv =
    let rows : db'.redemptions ≡ db.redemptions = ap (λ q. q.1) same in
    let held : db'.balance_snapshots ≡ db.balance_snapshots = ap (λ q. q.0.0) same in
    record {
      reconciled = books-IsReconciled (ap (λ q. q.0) same) inv.reconciled;
      backed = λ a. rw (rows, held) (inv.backed a);
      costs = rw rows inv.costs;
    }

pub money-Preserves : {A : Type 0} (m : Tx A) → Keeps money m → Preserves IsConsistent m
money-Preserves m h db inv = money-IsConsistent (h db) inv
