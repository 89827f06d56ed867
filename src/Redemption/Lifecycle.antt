-- ===== src/Redemption/Lifecycle.antt =====
-- The states of a redemption in accts-api/application/merchant_services.go.
use paisa.Prelude.{
  String, ◌==◌, ◌≡◌, ◌⊎◌, inl, inr, refl, ap, ◌∙◌, Bool, true, false, some, find, arith,
  Option-cases,
}
use paisa.Prelude.Int.{ℤ, pos, ◌-ℤ◌, int_laws}
use paisa.Domain.Errors.{invariant_error}
use paisa.Domain.Constants.{RedemptionStatus, is_open, captured, released}
use paisa.Domain.Types.{
  AuthContext, CatalogItem, LedgerEntryInput, Redemption, RedemptionRequest, RedemptionActionResult,
}
use paisa.Db.Result.{Result, ok, err}
use paisa.Db.State.{Db, query_row, within_tx, ◌>>=◌}
use paisa.Db.Inversion.{within_tx-eq-ok, >>=-eq-ok}
use paisa.Redemption.Store.{is_row, get, set_status}
use paisa.Redemption.Effects.{Settled, capture_redemption-Closed, release_redemption-Closed}
use paisa.Redemption.Service.{
  create_redemption, capture_redemption, release_redemption, validate_redemption,
}
use paisa.Redemption.Backed.{IsConsistent}
use paisa.Redemption.Preservation.{create_redemption-IsConsistent}
use paisa.Redemption.Transfers.{
  available_of, reserved_of, moved, create_redemption_moves, capture_redemption_moves,
  release_redemption_moves,
}

-- Capture, release and validation are refused, and change nothing.
abbrev pub Refused : AuthContext → String → Db → String → ℤ → Type 0
Refused auth redemption_id db entry_id now =
    (capture_redemption entry_id auth redemption_id db
      ≡ (err (invariant_error "only reserved or validated redemptions can be captured"), db))
    × (release_redemption entry_id auth redemption_id db
        ≡ (err (invariant_error "only reserved or validated redemptions can be released"), db))
    × (validate_redemption now auth redemption_id db
        ≡ (err (invariant_error "only reserved redemptions can be validated"), db))

module _ (auth : AuthContext) (redemption_id : String) (db : Db) (row : Redemption)
    (item : CatalogItem)
    (found : find (is_row auth.partner_id redemption_id) db.redemptions ≡ some row)
    (joins : find (λ i. i.id == row.catalog_item_id) db.catalog_items ≡ some item) where
  -- A redemption that is no longer open is refused by all three.
  Refused-closed :
      is_open row.status ≡ false
      → (entry_id : String) (now : ℤ) → Refused auth redemption_id db entry_id now
  unfolding capture_redemption release_redemption validate_redemption get within_tx ◌>>=◌
  Refused-closed closed entry_id now = ground (arith, found, joins)

-- A redemption that `Get` finds has its catalog item.
get-item :
    (partner_id id : String) (db db' : Db) (r row : Redemption)
    → get partner_id id db ≡ (ok r, db')
    → find (is_row partner_id id) db.redemptions ≡ some row
    → (item : CatalogItem) × (find (λ i. i.id == row.catalog_item_id) db.catalog_items ≡ some item)
unfolding get query_row
get-item partner_id id db db' r row h found =
    elim (Option-cases (find (λ i. i.id == row.catalog_item_id) db.catalog_items)) [
      | inl n ↦ absurd (ground (arith, found, n, h))
      | inr (item, e) ↦ (item, e)
    ]

same_items :
    {entry_id partner_id redemption_id : String} {input : LedgerEntryInput}
    {status : RedemptionStatus} {db db' : Db}
    → Settled entry_id partner_id redemption_id input status db db'
    → db'.catalog_items ≡ db.catalog_items
same_items s =
    ap (λ (d : Db). d.catalog_items) s.state ∙ ap (λ (d : Db). d.catalog_items) s.posting.state

module _ (auth : AuthContext) (redemption_id : String) (db db' : Db) (res : RedemptionActionResult)
    (inv : IsConsistent db) (entry_id : String) where
  captured_is_final :
      capture_redemption entry_id auth redemption_id db ≡ (ok res, db')
      → (later_id : String) (now : ℤ) → Refused auth redemption_id db' later_id now
  unfolding capture_redemption
  captured_is_final h =
      let (r, d, e, _) = >>=-eq-ok (get auth.partner_id redemption_id) _ (within_tx-eq-ok _ h) in
      let (row, found, _, final, _) =
        capture_redemption_moves entry_id auth redemption_id db db' res inv h in
      let (item, there) = get-item auth.partner_id redemption_id db d r row e found in
      let c = capture_redemption-Closed entry_id auth redemption_id db db' res h in
      Refused-closed auth redemption_id db' (set_status captured "" row) item final
        (rw (same_items c.settled) there) refl

  released_is_final :
      release_redemption entry_id auth redemption_id db ≡ (ok res, db')
      → (later_id : String) (now : ℤ) → Refused auth redemption_id db' later_id now
  unfolding release_redemption
  released_is_final h =
      let (r, d, e, _) = >>=-eq-ok (get auth.partner_id redemption_id) _ (within_tx-eq-ok _ h) in
      let (row, found, _, final, _) =
        release_redemption_moves entry_id auth redemption_id db db' res inv h in
      let (item, there) = get-item auth.partner_id redemption_id db d r row e found in
      let c = release_redemption-Closed entry_id auth redemption_id db db' res h in
      Refused-closed auth redemption_id db' (set_status released "" row) item final
        (rw (same_items c.settled) there) refl

  -- From a consistent database, once a capture or a release of a redemption has succeeded, a
  -- capture, a release and a validation of it right after are refused with an invariant error, and
  -- change nothing: a redemption is settled once.
  pub settled_once :
      (capture_redemption entry_id auth redemption_id db ≡ (ok res, db'))
        ⊎ (release_redemption entry_id auth redemption_id db ≡ (ok res, db'))
      → (later_id : String) (now : ℤ) → Refused auth redemption_id db' later_id now
  settled_once (inl h) = captured_is_final h
  settled_once (inr h) = released_is_final h

-- The two moves cancel.
there_and_back : (b : Bool) (x c : ℤ) → moved b (moved b x (pos 0 -ℤ c)) c ≡ x
there_and_back true x c = omega int_laws
there_and_back false x c = refl

back_and_there : (b : Bool) (x c : ℤ) → moved b (moved b x c) (pos 0 -ℤ c) ≡ x
back_and_there true x c = omega int_laws
back_and_there false x c = refl

-- From a consistent database, a creation and then a release of the same redemption, if both
-- succeed, leave every account with the available and reserved points that it had.
pub release-create :
    (redemption_id entry_id code : String) (now : ℤ) (auth : AuthContext) (body : RedemptionRequest)
    (release_id : String) (db db₁ db₂ : Db) (res₁ res₂ : RedemptionActionResult)
    → IsConsistent db
    → create_redemption redemption_id entry_id code now auth body db ≡ (ok res₁, db₁)
    → release_redemption release_id auth redemption_id db₁ ≡ (ok res₂, db₂)
    → (a : String)
    → (available_of a db₂ ≡ available_of a db) × (reserved_of a db₂ ≡ reserved_of a db)
release-create redemption_id entry_id code now auth body release_id db db₁ db₂ res₁ res₂ inv h₁ h₂
      a =
    let inv₁ : IsConsistent db₁ =
      rw (ap (λ (x : Result RedemptionActionResult × Db). x.1) h₁) at
        (create_redemption-IsConsistent redemption_id entry_id code now auth body db inv) in
    let (row, found, _, _, there) =
      create_redemption_moves redemption_id entry_id code now auth body db db₁ res₁ inv.reconciled
        h₁ in
    let (row', found', _, _, back) =
      release_redemption_moves release_id auth redemption_id db₁ db₂ res₂ inv₁ h₂ in
    let same : row' ≡ row = ground (arith, found, found') in
    (
      rw (same, (there a).0) at ((back a).0)
          ∙ there_and_back (row.member_account_id == a) _ row.points_cost,
      rw (same, (there a).1) at ((back a).1)
          ∙ back_and_there (row.member_account_id == a) _ row.points_cost,
    )
