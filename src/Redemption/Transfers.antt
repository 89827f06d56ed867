-- ===== src/Redemption/Transfers.antt =====
-- The points of accounts before and after `CreateRedemption`, `CaptureRedemption` and
-- `ReleaseRedemption`.
use mathlib.Core.Path.{subst₂}
use paisa.Prelude.{
  String, ◌==◌, eq_refl, ◌≡◌, refl, sym, ap, ◌∙◌, Bool, true, false, some, List, ◌∷◌, find,
  find-All, find-passes, find-update_first, update_first, arith, if◌then◌else◌,
}
use paisa.Prelude.Int.{ℤ, pos, ◌+ℤ◌, ◌-ℤ◌, ◌≤ℤ◌, int_laws}
use paisa.Prelude.Word.{IsInt32, neg, ⊟_exact}
use paisa.Domain.Constants.{
  RedemptionStatus, is_open, reserved, captured, released, redemption_capture, reservation_release,
}
use paisa.Domain.Types.{
  AuthContext, LedgerEntryInput, Redemption, RedemptionRequest, RedemptionActionResult,
}
use paisa.Db.Result.{ok}
use paisa.Db.State.{Db}
use paisa.Ledger.Reconciled.{field_of, IsReconciled, reserved_moves, available_moves, balance_after}
use paisa.Redemption.Store.{is_row, set_status}
use paisa.Redemption.Service.{
  reserve_entry, settle_entry, create_redemption, capture_redemption, release_redemption,
}
use paisa.Redemption.Effects.{
  Closed, Created, capture_redemption-Closed, release_redemption-Closed, create_redemption-Created,
}
use paisa.Redemption.Backed.{IsConsistent}
use paisa.Redemption.Preservation.{same_tables, found_by_id}

abbrev pub available_of : String → Db → ℤ
available_of a db = field_of (λ b. b.available_points) a db.balance_snapshots

abbrev pub reserved_of : String → Db → ℤ
reserved_of a db = field_of (λ b. b.reserved_points) a db.balance_snapshots

-- `x` moved by `d`, at the account alone.
abbrev pub moved : Bool → ℤ → ℤ → ℤ
moved b x d = if b then x +ℤ d else x

moved_zero : (b : Bool) (x : ℤ) → moved b x (pos 0) ≡ x
moved_zero true x = omega int_laws
moved_zero false x = refl

module _ (redemption_id entry_id code : String) (now : ℤ) (auth : AuthContext)
    (body : RedemptionRequest) (db db' : Db) (res : RedemptionActionResult) (inv : IsReconciled db)
    (h : create_redemption redemption_id entry_id code now auth body db ≡ (ok res, db')) where
  made : Created redemption_id entry_id auth body db db'
  made = create_redemption-Created redemption_id entry_id code now auth body db db' res h

  moves :
      (a : String)
      → (available_of a db'
          ≡ moved (made.account == a) (available_of a db) (pos 0 -ℤ made.item.points_cost))
        × (reserved_of a db' ≡ moved (made.account == a) (reserved_of a db) made.item.points_cost)
  moves a =
      let db₁ : Db = record db { redemptions = made.row ∷ db.redemptions } in
      let rec₁ : IsReconciled db₁ = same_tables refl refl inv in
      let input = reserve_entry auth made.account made.item redemption_id in
      let exact = ⊟_exact (pos 0) made.item.points_cost (omega arith) made.cost_fits in
      rw made.state (
        rw exact at (available_moves entry_id input db₁ made.middle made.entry rec₁ made.posting a),
        reserved_moves entry_id input db₁ made.middle made.entry rec₁ made.posting a,
      )

  covered : pos 0 ≤ℤ available_of made.account db'
  covered =
      let db₁ : Db = record db { redemptions = made.row ∷ db.redemptions } in
      let rec₁ : IsReconciled db₁ = same_tables refl refl inv in
      let input = reserve_entry auth made.account made.item redemption_id in
      rw (made.state, balance_after entry_id input db₁ made.middle made.entry rec₁ made.posting)
        (made.posting.covered refl)

  -- From a reconciled ledger, a creation that succeeds stores a reserved redemption. It moves the
  -- cost from the available to the reserved points of its account, on no other account, and does
  -- not leave the account overdrawn.
  pub create_redemption_moves :
      (row : Redemption) × (find (is_row auth.partner_id redemption_id) db'.redemptions ≡ some row)
      × (row.status ≡ reserved)
      × (pos 0 ≤ℤ available_of row.member_account_id db')
      × ((a : String)
          → (available_of a db'
              ≡ moved (row.member_account_id == a) (available_of a db) (pos 0 -ℤ row.points_cost))
            × (reserved_of a db'
                ≡ moved (row.member_account_id == a) (reserved_of a db) row.points_cost))
  create_redemption_moves = (
    made.row,
    ground (
      arith,
      made.state,
      made.posting.state,
      made.row_id,
      made.row_partner,
      eq_refl auth.partner_id,
      eq_refl redemption_id,
    ),
    made.row_open,
    rw made.row_account covered,
    rw (made.row_account, made.row_cost) moves,
  )

-- What a capture or a release moves.
module _ (entry_id : String) (auth : AuthContext) (redemption_id : String)
    (status : RedemptionStatus) (inp : Redemption → LedgerEntryInput)
    (account : (r : Redemption) → (inp r).member_account_id ≡ r.member_account_id)
    (delta : (r : Redemption) → (inp r).reserved_delta ≡ neg r.points_cost) (db db' : Db)
    (inv : IsConsistent db) where
  Closed-moves :
      Closed entry_id auth redemption_id status db db' inp
      → (row : Redemption) × (find (is_row auth.partner_id redemption_id) db.redemptions ≡ some row)
        × (is_open row.status ≡ true)
        × (find (is_row auth.partner_id redemption_id) db'.redemptions
            ≡ some (set_status status "" row))
        × ((a : String)
            → (available_of a db'
                ≡ moved (row.member_account_id == a) (available_of a db) (inp row).available_delta)
              × (reserved_of a db'
                  ≡ moved
                      (row.member_account_id == a)
                      (reserved_of a db)
                      (pos 0 -ℤ row.points_cost)))
  Closed-moves c =
      let s = c.settled in
      let m = s.middle in
      let key = is_row auth.partner_id redemption_id in
      let rows : m.redemptions ≡ db.redemptions = ap (λ (d : Db). d.redemptions) s.posting.state in
      let same = found_by_id auth.partner_id redemption_id db.redemptions c.row c.found in
      let fits =
        find-All (λ r. IsInt32 r.points_cost) (is_row auth.partner_id redemption_id) db.redemptions
          c.row inv.costs c.found in
      let exact = delta c.row ∙ ⊟_exact (pos 0) c.row.points_cost (omega arith) fits in
      (
        c.row,
        c.found,
        c.was_open,
        ap (λ (d : Db). find key d.redemptions) s.state
            ∙ subst₂
                (λ (i : String) (rs : List Redemption).
                  find key (update_first (is_row auth.partner_id i) (set_status status "") rs)
                  ≡ some (set_status status "" c.row))
                (sym same) (sym rows)
                (find-update_first key (set_status status "") db.redemptions c.row c.found
                  (find-passes key db.redemptions c.row c.found)),
        λ a. rw s.state (
          rw (account c.row) at
              (available_moves entry_id (inp c.row) db m s.entry inv.reconciled s.posting a),
          rw (account c.row, exact) at
              (reserved_moves entry_id (inp c.row) db m s.entry inv.reconciled s.posting a),
        ),
      )

module _ (entry_id : String) (auth : AuthContext) (redemption_id : String) (db db' : Db)
    (res : RedemptionActionResult) (inv : IsConsistent db) where
  -- From a consistent database, a capture that succeeds finds an open row, and marks it captured.
  -- It takes the cost off the account's reserved points, and touches no available points and no
  -- other account.
  pub capture_redemption_moves :
      capture_redemption entry_id auth redemption_id db ≡ (ok res, db')
      → (row : Redemption) × (find (is_row auth.partner_id redemption_id) db.redemptions ≡ some row)
        × (is_open row.status ≡ true)
        × (find (is_row auth.partner_id redemption_id) db'.redemptions
            ≡ some (set_status captured "" row))
        × ((a : String)
            → (available_of a db' ≡ available_of a db)
              × (reserved_of a db'
                  ≡ moved
                      (row.member_account_id == a)
                      (reserved_of a db)
                      (pos 0 -ℤ row.points_cost)))
  capture_redemption_moves h =
      let (row, found, o, final, points) =
        Closed-moves entry_id auth redemption_id captured
          (λ r. settle_entry auth r redemption_capture (pos 0) "redemption capture") (λ r. refl)
          (λ r. refl) db db' inv
          (capture_redemption-Closed entry_id auth redemption_id db db' res h) in
      (
        row,
        found,
        o,
        final,
        λ a. ((points a).0 ∙ moved_zero (row.member_account_id == a) _, (points a).1),
      )

  -- From a consistent database, a release that succeeds finds an open row, and marks it released.
  -- It moves the cost from the reserved points of the account back to its available points, and
  -- touches no other account.
  pub release_redemption_moves :
      release_redemption entry_id auth redemption_id db ≡ (ok res, db')
      → (row : Redemption) × (find (is_row auth.partner_id redemption_id) db.redemptions ≡ some row)
        × (is_open row.status ≡ true)
        × (find (is_row auth.partner_id redemption_id) db'.redemptions
            ≡ some (set_status released "" row))
        × ((a : String)
            → (available_of a db'
                ≡ moved (row.member_account_id == a) (available_of a db) row.points_cost)
              × (reserved_of a db'
                  ≡ moved
                      (row.member_account_id == a)
                      (reserved_of a db)
                      (pos 0 -ℤ row.points_cost)))
  release_redemption_moves h =
      Closed-moves entry_id auth redemption_id released
        (λ r. settle_entry auth r reservation_release r.points_cost "redemption release")
        (λ r. refl) (λ r. refl) db db' inv
        (release_redemption-Closed entry_id auth redemption_id db db' res h)
