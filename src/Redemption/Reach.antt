-- ===== src/Redemption/Reach.antt =====
-- Sequences of calls: redemption requests, adjustments, postings and new accounts.
use paisa.Prelude.{
  String, ◌==◌, ◌≡◌, refl, sym, ap, ◌∙◌, inl, inr, Bool, true, false, arith, if◌then◌else◌,
}
use paisa.Prelude.Int.{ℤ, pos, ◌+ℤ◌, int_laws}
use paisa.Domain.Types.{
  AuthContext, AdjustmentRequest, LedgerEntryInput, LedgerPostResult, RedemptionRequest,
}
use paisa.Db.Result.{ok, Result-cases}
use paisa.Db.State.{Db}
use paisa.Db.Inversion.{within_tx-err}
use paisa.Ledger.Store.{create_balance_snapshot, post_ledger_entry}
use paisa.Ledger.Service.{create_adjustment, adjustment_entry}
use paisa.Ledger.Posting.{Posting, post_ledger_entry-Posting}
use paisa.Ledger.Reconciled.{Posting-IsReconciled, reserved_moves}
use paisa.Ledger.Adjustments.{
  create_adjustment-Adjusted, create_balance_snapshot-IsReconciled,
  create_balance_snapshot-field_of,
}
use paisa.Redemption.Service.{
  create_redemption, capture_redemption, release_redemption, validate_redemption,
}
use paisa.Redemption.Backed.{open_cost, IsConsistent}
use paisa.Redemption.Preservation.{
  create_redemption-IsConsistent, capture_redemption-IsConsistent, release_redemption-IsConsistent,
  validate_redemption-IsConsistent,
}

-- One call, from outside. An adjustment here does not touch the reserved points.
pub data Step (db db' : Db) : Type 0 where
  create :
      (redemption_id entry_id code : String) (now : ℤ) (auth : AuthContext)
      (body : RedemptionRequest)
      → db' ≡ (create_redemption redemption_id entry_id code now auth body db).1
      → Step db db'
  capture :
      (entry_id : String) (auth : AuthContext) (redemption_id : String)
      → db' ≡ (capture_redemption entry_id auth redemption_id db).1
      → Step db db'
  release :
      (entry_id : String) (auth : AuthContext) (redemption_id : String)
      → db' ≡ (release_redemption entry_id auth redemption_id db).1
      → Step db db'
  validate :
      (now : ℤ) (auth : AuthContext) (redemption_id : String)
      → db' ≡ (validate_redemption now auth redemption_id db).1
      → Step db db'
  adjust :
      (new_source entry_id partner_key member_id : String) (body : AdjustmentRequest)
      → body.reserved_delta ≡ pos 0
      → db' ≡ (create_adjustment new_source entry_id partner_key member_id body db).1
      → Step db db'
  earn :
      (entry_id : String) (input : LedgerEntryInput) (r : LedgerPostResult)
      → input.reserved_delta ≡ pos 0
      → post_ledger_entry entry_id input db ≡ (ok r, db')
      → Step db db'
  open_account :
      (account partner : String)
      → db' ≡ (create_balance_snapshot account partner db).1
      → Step db db'

pub data Reach (start : Db) : Db → Type 0 where
  here : Reach start start
  next : {db db' : Db} → Reach start db → Step db db' → Reach start db'

unmoved : (b : Bool) (x d : ℤ) → d ≡ pos 0 → (if b then x +ℤ d else x) ≡ x
unmoved true x d e = rw e (omega int_laws)
unmoved false x d e = refl

-- A posting that leaves the reserved points alone.
pub Posting-IsConsistent :
    (id : String) (input : LedgerEntryInput) (db db' : Db) (r : LedgerPostResult)
    → input.reserved_delta ≡ pos 0
    → IsConsistent db
    → Posting id input db db' r
    → IsConsistent db'
Posting-IsConsistent id input db db' r zero_delta inv p =
    let rows : db'.redemptions ≡ db.redemptions = ap (λ (d : Db). d.redemptions) p.state in
    record {
      reconciled = Posting-IsReconciled id input db db' r inv.reconciled p;
      backed = λ a.
          reserved_moves id input db db' r inv.reconciled p a
          ∙ unmoved (input.member_account_id == a) _ input.reserved_delta zero_delta
          ∙ inv.backed a
          ∙ ap (open_cost a) (sym rows);
      costs = rw rows inv.costs;
    }

create_adjustment-IsConsistent :
    (new_source entry_id partner_key member_id : String) (body : AdjustmentRequest) (db : Db)
    → body.reserved_delta ≡ pos 0
    → IsConsistent db
    → IsConsistent (create_adjustment new_source entry_id partner_key member_id body db).1
unfolding create_adjustment
create_adjustment-IsConsistent new_source entry_id partner_key member_id body db zero_delta inv =
    let q = create_adjustment new_source entry_id partner_key member_id body db in
    elim (Result-cases q.0) [
      | inl (a, e) ↦
          let p =
            create_adjustment-Adjusted new_source entry_id partner_key member_id body db q.1 a
              (ap (λ r. (r, q.1)) e) in
          Posting-IsConsistent entry_id (adjustment_entry p.partner_id p.account body p.source_id)
            db q.1 p.entry zero_delta inv p.posting
      | inr (x, e) ↦ rw (within_tx-err _ (ap (λ r. (r, q.1)) e)) inv
    ]

same_redemptions :
    (account partner : String) (db : Db)
    → (create_balance_snapshot account partner db).1.redemptions ≡ db.redemptions
unfolding create_balance_snapshot
same_redemptions account partner db = ground arith

pub create_balance_snapshot-IsConsistent :
    (account partner : String) (db : Db)
    → IsConsistent db
    → IsConsistent (create_balance_snapshot account partner db).1
create_balance_snapshot-IsConsistent account partner db inv = record {
  reconciled = create_balance_snapshot-IsReconciled account partner db inv.reconciled;
  backed = λ a.
      create_balance_snapshot-field_of (λ b. b.reserved_points) account partner a db refl
      ∙ inv.backed a
      ∙ ap (open_cost a) (sym (same_redemptions account partner db));
  costs = rw (same_redemptions account partner db) inv.costs;
}

pub Step-IsConsistent : {db db' : Db} → Step db db' → IsConsistent db → IsConsistent db'
Step-IsConsistent {db} (create i e c n a b same) inv =
    rw same (create_redemption-IsConsistent i e c n a b db inv)
Step-IsConsistent {db} (capture e a i same) inv =
    rw same (capture_redemption-IsConsistent e a i db inv)
Step-IsConsistent {db} (release e a i same) inv =
    rw same (release_redemption-IsConsistent e a i db inv)
Step-IsConsistent {db} (validate n a i same) inv =
    rw same (validate_redemption-IsConsistent n a i db inv)
Step-IsConsistent {db} (adjust s e k m b z same) inv =
    rw same (create_adjustment-IsConsistent s e k m b db z inv)
Step-IsConsistent {db} {db'} (earn e input r z h) inv =
    Posting-IsConsistent e input db db' r z inv (post_ledger_entry-Posting e input db db' r h)
Step-IsConsistent {db} (open_account account partner same) inv =
    rw same (create_balance_snapshot-IsConsistent account partner db inv)

-- From a consistent database, every database that a sequence of calls reaches is consistent,
-- whichever of them fail: the balances are the sums of the ledger's entries, and the reserved
-- points of each account are the costs of its open redemptions. The calls are the creation,
-- capture, release and validation of redemptions, adjustments and postings that leave the
-- reserved points alone, and new accounts.
pub Reach-IsConsistent : {start db : Db} → IsConsistent start → Reach start db → IsConsistent db
Reach-IsConsistent inv here = inv
Reach-IsConsistent inv (next r st) = Step-IsConsistent st (Reach-IsConsistent inv r)
