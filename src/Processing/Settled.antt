-- ===== src/Processing/Settled.antt =====
-- What the last steps of a purchase and of a refund store:
-- accts-api/application/reward_processing_service.go.
use paisa.Prelude.{String, ◌≡◌, refl, ap, ◌∙◌, false, List, ◌∷◌, any, arith}
use paisa.Prelude.Int.{pos, eqb_ℤ}
use paisa.Domain.Constants.{EntryType}
use paisa.Domain.Types.{LedgerEntryInput}
use paisa.Domain.Transactions.{TransactionRow, RewardProcessingEvent, RewardCalculation}
use paisa.Db.Result.{ok}
use paisa.Db.State.{Db, pure}
use paisa.Db.Accounts.{account_id}
use paisa.Db.Inversion.{>>=-eq-ok}
use paisa.Db.Frame.{query_row-Keeps, Keeping, Preserves-Keeping, >>=-Keeping, if-Keeping}
use paisa.Ledger.Store.{post_ledger_entry}
use paisa.Ledger.Posting.{post_ledger_entry-Posting}
use paisa.Processing.Store.{create_succeeded, calculation_clashes}
use paisa.Processing.Service.{EventIds, settle_points}

-- The events and their calculations.
abbrev pub rewards : Db → List TransactionRow × List RewardCalculation
rewards db = (db.transaction_events, db.reward_calculations)

module _ (db₀ : Db) where
  abbrev HasSame : Db → Type 0
  HasSame db = rewards db ≡ rewards db₀

  account-Keeping : (p m : String) → Keeping HasSame (account_id p m)
  unfolding account_id
  account-Keeping p m =
      Preserves-Keeping HasSame (account_id p m) (λ db same. query_row-Keeps rewards _ db ∙ same)

  post-Keeping :
      (id : String) (input : LedgerEntryInput) → Keeping HasSame (post_ledger_entry id input)
  post-Keeping id input db db' r same e =
      ap rewards (post_ledger_entry-Posting id input db db' r e).state ∙ same

created-row :
    (row : RewardCalculation) (db db' : Db) (c : String)
    → create_succeeded row db ≡ (ok c, db')
    → (any (calculation_clashes row) db.reward_calculations ≡ false)
      × (rewards db' ≡ (db.transaction_events, row ∷ db.reward_calculations))
unfolding create_succeeded
created-row row db db' c h = (ground arith, ground arith)

-- A settlement that succeeds stores its calculation, which is the first of its event.
pub settle_points-stores :
    (ids : EventIds) (event : RewardProcessingEvent) (t : EntryType) (reason : String)
    (row : RewardCalculation) (db db' : Db) (c : String)
    → settle_points ids event t reason row db ≡ (ok c, db')
    → (any (calculation_clashes row) db.reward_calculations ≡ false)
      × (rewards db' ≡ (db.transaction_events, row ∷ db.reward_calculations))
unfolding settle_points
settle_points-stores ids event t reason row db db' c h =
    let (id, d, e, h') = >>=-eq-ok (create_succeeded row) _ h in
    let (new, stored) = created-row row db d id e in
    let P = HasSame d in
    let kept : rewards db' ≡ rewards d =
      >>=-Keeping P _ _
        (if-Keeping P (eqb_ℤ row.points_delta (pos 0)) (pure tt) _
          (Preserves-Keeping P (pure tt) (λ _ same. same))
          (>>=-Keeping P (account_id event.partner_id event.member_id) _
            (account-Keeping d event.partner_id event.member_id)
            (λ account.
              >>=-Keeping P (post_ledger_entry ids.entry _) _ (post-Keeping d ids.entry _)
                (λ _. Preserves-Keeping P (pure tt) (λ _ same. same)))))
        (λ _. Preserves-Keeping P (pure id) (λ _ same. same)) d db' c refl h' in
    (new, kept ∙ stored)
