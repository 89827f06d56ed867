-- ===== src/Redemption/Preservation.antt =====
-- The invariant of Redemption/Backed under each operation of `RedemptionService`.
use mathlib.Core.Path.{subst}
use paisa.Prelude.{
  String, eq_iff, ◌≡◌, refl, sym, ap, ◌∙◌, inl, inr, Bool, true, false, some, List, ◌∷◌, find,
  find-All, find-passes, update_first-All, arith, if◌then◌else◌,
}
use paisa.Prelude.Int.{ℤ, pos, ◌+ℤ◌, ◌-ℤ◌, int_laws}
use paisa.Prelude.Word.{IsInt32, neg, ⊟_exact}
use paisa.Domain.Constants.{
  RedemptionStatus, is_open, validated, captured, released, redemption_capture, reservation_release,
}
use paisa.Domain.Types.{AuthContext, LedgerEntryInput, Redemption, RedemptionRequest}
use paisa.Db.Result.{ok, Result-cases}
use paisa.Db.State.{Db, Tx, within_tx}
use paisa.Db.Inversion.{within_tx-err}
use paisa.Ledger.Reconciled.{IsReconciled, Posting-IsReconciled, reserved_moves}
use paisa.Redemption.Store.{is_row, set_status}
use paisa.Redemption.Service.{
  reserve_entry, settle_entry, create_redemption, capture_redemption, release_redemption,
  validate_redemption,
}
use paisa.Redemption.Effects.{
  Closed, Validated, Created, capture_redemption-Closed, release_redemption-Closed,
  validate_redemption-Validated, create_redemption-Created,
}
use paisa.Redemption.Backed.{IsConsistent, open_cost-close, open_cost-keep}

-- A row that is found by an id has that id.
pub found_by_id :
    (partner_id id : String) (rs : List Redemption) (row : Redemption)
    → find (is_row partner_id id) rs ≡ some row
    → row.id ≡ id
found_by_id partner_id id rs row e =
    ground (arith, find-passes (is_row partner_id id) rs row e, eq_iff row.id id)

-- Consistency speaks of three tables only.
pub same_tables :
    {db db' : Db}
    → db'.balance_snapshots ≡ db.balance_snapshots
    → db'.ledger_entries ≡ db.ledger_entries
    → IsReconciled db
    → IsReconciled db'
same_tables p q inv = record {
  available = λ a. cc (p, q, inv.available a);
  reserved = λ a. cc (p, q, inv.reserved a);
  expired = λ a. cc (p, q, inv.expired a);
  sound = rw p inv.sound;
}

-- The sum `x` moves to `x'` by a delta that cancels what the sum of costs loses.
settle_sum :
    (x x' y o d cost : ℤ) (b : Bool)
    → x' ≡ (if b then x +ℤ d else x)
    → x ≡ o
    → o ≡ (if b then y +ℤ cost else y)
    → d ≡ pos 0 -ℤ cost
    → x' ≡ y
settle_sum x x' y o d cost true p q r e = rw (p, q, r, e) (omega int_laws)
settle_sum x x' y o d cost false p q r e = p ∙ q ∙ r

module _ (entry_id : String) (auth : AuthContext) (redemption_id : String)
    (status : RedemptionStatus) (inp : Redemption → LedgerEntryInput)
    (account : (r : Redemption) → (inp r).member_account_id ≡ r.member_account_id)
    (delta : (r : Redemption) → (inp r).reserved_delta ≡ neg r.points_cost)
    (final : is_open status ≡ false) where
  Closed-IsConsistent :
      (db db' : Db)
      → IsConsistent db
      → Closed entry_id auth redemption_id status db db' inp
      → IsConsistent db'
  Closed-IsConsistent db db' inv c =
      let s = c.settled in
      let m = s.middle in
      let rec = Posting-IsReconciled entry_id (inp c.row) db m s.entry inv.reconciled s.posting in
      let rows : m.redemptions ≡ db.redemptions = ap (λ (d : Db). d.redemptions) s.posting.state in
      let same = found_by_id auth.partner_id redemption_id db.redemptions c.row c.found in
      let fits =
        find-All (λ r. IsInt32 r.points_cost) (is_row auth.partner_id redemption_id) db.redemptions
          c.row inv.costs c.found in
      let exact = ⊟_exact (pos 0) c.row.points_cost (omega arith) fits in
      rw s.state (record {
        reconciled = same_tables refl refl rec;
        backed = λ a.
            rw (rows, same)
              (settle_sum _ _ _ _ _ c.row.points_cost _
                (rw (account c.row) at
                  (reserved_moves entry_id (inp c.row) db m s.entry inv.reconciled s.posting a))
                (inv.backed a)
                (open_cost-close (is_row auth.partner_id redemption_id) status "" c.row a
                  db.redemptions c.found c.was_open final)
                (delta c.row ∙ exact));
        costs = rw rows (
            update_first-All (λ r. IsInt32 r.points_cost) (is_row auth.partner_id c.row.id)
              (set_status status "") db.redemptions inv.costs (λ r k. k));
      })

Validated-IsConsistent :
    (now : ℤ) (auth : AuthContext) (redemption_id : String) (db db' : Db)
    → IsConsistent db
    → Validated now auth redemption_id db db'
    → IsConsistent db'
Validated-IsConsistent now auth redemption_id db db' inv v =
    let same = found_by_id auth.partner_id redemption_id db.redemptions v.row v.found in
    rw v.state (record {
      reconciled = same_tables refl refl inv.reconciled;
      backed = λ a. rw same (
          inv.backed a
          ∙ sym (
              open_cost-keep (is_row auth.partner_id redemption_id) validated "" v.row a
                db.redemptions v.found (ground (arith, v.was_reserved)) refl));
      costs =
          update_first-All (λ r. IsInt32 r.points_cost) (is_row auth.partner_id v.row.id)
            (set_status validated "") db.redemptions inv.costs (λ r k. k);
    })

Created-IsConsistent :
    (redemption_id entry_id : String) (auth : AuthContext) (body : RedemptionRequest) (db db' : Db)
    → IsConsistent db
    → Created redemption_id entry_id auth body db db'
    → IsConsistent db'
Created-IsConsistent redemption_id entry_id auth body db db' inv c =
    let m = c.middle in
    let db₁ : Db = record db { redemptions = c.row ∷ db.redemptions } in
    let rec₁ : IsReconciled db₁ = same_tables refl refl inv.reconciled in
    let input = reserve_entry auth c.account c.item redemption_id in
    let rec = Posting-IsReconciled entry_id input db₁ m c.entry rec₁ c.posting in
    let rows : m.redemptions ≡ c.row ∷ db.redemptions =
      ap (λ (d : Db). d.redemptions) c.posting.state in
    rw c.state (record {
      reconciled = same_tables refl refl rec;
      backed = λ a. rw rows (
          ground (
            arith,
            c.row_open,
            c.row_account,
            c.row_cost,
            reserved_moves entry_id input db₁ m c.entry rec₁ c.posting a,
            inv.backed a,
          ));
      costs = rw (rows, c.row_cost) (c.cost_fits, inv.costs);
    })

-- An action that keeps consistency when it succeeds, in a transaction.
within_tx-IsConsistent :
    {A : Type 0} (m : Tx A) (db : Db)
    → IsConsistent db
    → ((a : A) (db' : Db) → within_tx m db ≡ (ok a, db') → IsConsistent db')
    → IsConsistent (within_tx m db).1
within_tx-IsConsistent m db inv step = elim (Result-cases (within_tx m db).0) [
  | inl (a, e) ↦ step a (within_tx m db).1 (ap (λ r. (r, (within_tx m db).1)) e)
  | inr (x, e) ↦
      subst IsConsistent (sym (within_tx-err m (ap (λ r. (r, (within_tx m db).1)) e))) inv
]

-- A creation, failed or not, keeps a consistent database consistent.
pub create_redemption-IsConsistent :
    (redemption_id entry_id code : String) (now : ℤ) (auth : AuthContext) (body : RedemptionRequest)
    (db : Db)
    → IsConsistent db
    → IsConsistent (create_redemption redemption_id entry_id code now auth body db).1
create_redemption-IsConsistent redemption_id entry_id code now auth body db inv =
    unfold create_redemption in
    within_tx-IsConsistent _ db inv (λ res db' h.
      Created-IsConsistent redemption_id entry_id auth body db db' inv
        (create_redemption-Created redemption_id entry_id code now auth body db db' res h))

-- A capture, failed or not, keeps a consistent database consistent.
pub capture_redemption-IsConsistent :
    (entry_id : String) (auth : AuthContext) (redemption_id : String) (db : Db)
    → IsConsistent db
    → IsConsistent (capture_redemption entry_id auth redemption_id db).1
capture_redemption-IsConsistent entry_id auth redemption_id db inv =
    unfold capture_redemption in
    within_tx-IsConsistent _ db inv (λ res db' h.
      Closed-IsConsistent entry_id auth redemption_id captured
        (λ r. settle_entry auth r redemption_capture (pos 0) "redemption capture") (λ r. refl)
        (λ r. refl) refl db db' inv
        (capture_redemption-Closed entry_id auth redemption_id db db' res h))

-- A release, failed or not, keeps a consistent database consistent.
pub release_redemption-IsConsistent :
    (entry_id : String) (auth : AuthContext) (redemption_id : String) (db : Db)
    → IsConsistent db
    → IsConsistent (release_redemption entry_id auth redemption_id db).1
release_redemption-IsConsistent entry_id auth redemption_id db inv =
    unfold release_redemption in
    within_tx-IsConsistent _ db inv (λ res db' h.
      Closed-IsConsistent entry_id auth redemption_id released
        (λ r. settle_entry auth r reservation_release r.points_cost "redemption release")
        (λ r. refl) (λ r. refl) refl db db' inv
        (release_redemption-Closed entry_id auth redemption_id db db' res h))

-- A validation, failed or not, keeps a consistent database consistent.
pub validate_redemption-IsConsistent :
    (now : ℤ) (auth : AuthContext) (redemption_id : String) (db : Db)
    → IsConsistent db
    → IsConsistent (validate_redemption now auth redemption_id db).1
validate_redemption-IsConsistent now auth redemption_id db inv =
    unfold validate_redemption in
    within_tx-IsConsistent _ db inv (λ res db' h.
      Validated-IsConsistent now auth redemption_id db db' inv
        (validate_redemption-Validated now auth redemption_id db db' res h))
