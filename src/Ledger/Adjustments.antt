-- ===== src/Ledger/Adjustments.antt =====
-- `CreateAdjustment` and `CreateBalanceSnapshot`, and the sums of the ledger.
use paisa.Prelude.{
  String, ◌==◌, eq_iff, All, Bool-cases, ◌≡◌, refl, ap, ◌∙◌, sym, inl, inr, Bool, false, List, [],
  ◌∷◌, none, any, find, arith, if◌then◌else◌,
}
use paisa.Prelude.Int.{ℤ, pos}
use paisa.Domain.Types.{AdjustmentRequest, BalanceSnapshot, LedgerPostResult}
use paisa.Db.Result.{Result, ok, Result-cases}
use paisa.Db.State.{Db, lift}
use paisa.Db.Accounts.{partner_by_key, account_id, ensure_active_status}
use paisa.Db.Inversion.{
  account_id-keeps, partner_by_key-keeps, >>=-eq-ok, fail_if-eq-ok, lift-eq-ok, within_tx-eq-ok,
  within_tx-err,
}
use paisa.Ledger.Store.{is_of, create_balance_snapshot, post_ledger_entry}
use paisa.Ledger.Service.{adjustment_entry, create_adjustment}
use paisa.Ledger.Posting.{IsSound, Posting, post_ledger_entry-Posting}
use paisa.Ledger.Reconciled.{field_of, total, IsReconciled, Posting-IsReconciled}

-- What a successful adjustment has done: one posting of the deltas that it was asked for.
pub record Adjusted (entry_id : String) (body : AdjustmentRequest) (db db' : Db) : Type 0 where
  pub partner_id : String
  pub account : String
  pub source_id : String
  pub entry : LedgerPostResult
  pub posting : Posting entry_id (adjustment_entry partner_id account body source_id) db db' entry

pub create_adjustment-Adjusted :
    (new_source entry_id partner_key member_id : String) (body : AdjustmentRequest) (db db' : Db)
    (r : String)
    → create_adjustment new_source entry_id partner_key member_id body db ≡ (ok r, db')
    → Adjusted entry_id body db db'
unfolding create_adjustment
create_adjustment-Adjusted new_source entry_id partner_key member_id body db db' r h =
    let (partner, db₁, e₁, h₁) = >>=-eq-ok (partner_by_key partner_key) _ (within_tx-eq-ok _ h) in
    let (_, db₂, e₂, h₂) = >>=-eq-ok (lift (ensure_active_status "partner" partner.status)) _ h₁ in
    let (_, h₃) = fail_if-eq-ok _ _ _ h₂ in
    let (account, db₃, e₃, h₄) = >>=-eq-ok (account_id partner.id member_id) _ h₃ in
    let source_id = if body.source_id == "" then new_source else body.source_id in
    let (posted, db₄, e₄, h₅) =
      >>=-eq-ok (post_ledger_entry entry_id (adjustment_entry partner.id account body source_id)) _
        h₄ in
    let same : db₃ ≡ db =
      account_id-keeps partner.id member_id db₂ db₃ account e₃
      ∙ (lift-eq-ok _ e₂).1
      ∙ partner_by_key-keeps partner_key db db₁ e₁ in
    let last : db₄ ≡ db' = ap (λ (x : Result String × Db). x.1) h₅ in
    record {
      partner_id = partner.id;
      account = account;
      source_id = source_id;
      entry = posted;
      posting =
          rw (same, last) at
            (post_ledger_entry-Posting entry_id (adjustment_entry partner.id account body source_id)
              db₃ db₄ posted e₄);
    }

-- From a reconciled ledger, an adjustment leaves a reconciled ledger, whatever its deltas and its
-- outcome.
pub create_adjustment-IsReconciled :
    (new_source entry_id partner_key member_id : String) (body : AdjustmentRequest) (db : Db)
    → IsReconciled db
    → IsReconciled (create_adjustment new_source entry_id partner_key member_id body db).1
unfolding create_adjustment
create_adjustment-IsReconciled new_source entry_id partner_key member_id body db inv =
    let q = create_adjustment new_source entry_id partner_key member_id body db in
    elim (Result-cases q.0) [
      | inl (a, e) ↦
          let p =
            create_adjustment-Adjusted new_source entry_id partner_key member_id body db q.1 a
              (ap (λ r. (r, q.1)) e) in
          Posting-IsReconciled entry_id (adjustment_entry p.partner_id p.account body p.source_id)
            db q.1 p.entry inv p.posting
      | inr (x, e) ↦ rw (within_tx-err _ (ap (λ r. (r, q.1)) e)) inv
    ]

find-none :
    (p : BalanceSnapshot → Bool) (rows : List BalanceSnapshot)
    → any p rows ≡ false
    → find p rows ≡ none
find-none p [] h = refl
find-none p (x ∷ rows) h = ground (arith, find-none p rows)

abbrev pub blank : String → String → BalanceSnapshot
blank account partner = record {
  member_account_id = account;
  partner_id = partner;
  available_points = pos 0;
  reserved_points = pos 0;
  expired_points = pos 0;
}

-- A new snapshot keeps every sum: an account without a snapshot counts as 0 before it.
pub create_balance_snapshot-field_of :
    (g : BalanceSnapshot → ℤ) (account partner a : String) (db : Db)
    → g (blank account partner) ≡ pos 0
    → field_of g a (create_balance_snapshot account partner db).1.balance_snapshots
      ≡ field_of g a db.balance_snapshots
unfolding create_balance_snapshot
create_balance_snapshot-field_of g account partner a db zero_at =
    elim (Bool-cases (any (is_of account) db.balance_snapshots)) [
      | inl t ↦ ground (arith, t)
      | inr t ↦ elim (Bool-cases (account == a)) [
        | inl e ↦ ground (
          arith,
          t,
          zero_at,
          e,
          (eq_iff account a).0 e,
          find-none (is_of account) db.balance_snapshots t,
        )
        | inr e ↦ ground (arith, t, e)
      ]
    ]

entries :
    (account partner : String) (db : Db)
    → (create_balance_snapshot account partner db).1.ledger_entries ≡ db.ledger_entries
unfolding create_balance_snapshot
entries account partner db = ground arith

sound :
    (account partner : String) (db : Db)
    → IsReconciled db
    → All IsSound (create_balance_snapshot account partner db).1.balance_snapshots
unfolding create_balance_snapshot
sound account partner db inv = ground (arith, inv.sound)

-- From a reconciled ledger, opening an account leaves a reconciled ledger.
pub create_balance_snapshot-IsReconciled :
    (account partner : String) (db : Db)
    → IsReconciled db
    → IsReconciled (create_balance_snapshot account partner db).1
create_balance_snapshot-IsReconciled account partner db inv = record {
  available = λ a.
      create_balance_snapshot-field_of (λ b. b.available_points) account partner a db refl
      ∙ inv.available a
      ∙ ap (total (λ e. e.available_delta) a) (sym (entries account partner db));
  reserved = λ a.
      create_balance_snapshot-field_of (λ b. b.reserved_points) account partner a db refl
      ∙ inv.reserved a
      ∙ ap (total (λ e. e.reserved_delta) a) (sym (entries account partner db));
  expired = λ a.
      create_balance_snapshot-field_of (λ b. b.expired_points) account partner a db refl
      ∙ inv.expired a
      ∙ ap (total (λ e. e.expired_delta) a) (sym (entries account partner db));
  sound = sound account partner db inv;
}
