-- ===== src/Redemption/Progress.antt =====
-- When a capture and a release (`CaptureRedemption`, `ReleaseRedemption`) succeed.
use paisa.Prelude.{
  String, ◌==◌, eq_refl, ◌≡◌, refl, ap, inl, inr, Bool, true, false, ◌||◌, some, List, [], ◌∷◌, All,
  any, find, find-All, find-passes, find-update_first, arith, Bool-cases,
}
use paisa.Prelude.Int.{ℤ, pos, ◌+ℤ◌, ◌-ℤ◌, ◌≤ℤ◌, int_laws, -ℤ_parts, +ℤ_parts, parts_apart}
use paisa.Prelude.Word.{IsInt32, neg, ⊞_exact, ⊟_exact}
use paisa.Domain.Errors.{Error}
use paisa.Domain.Constants.{
  RedemptionStatus, is_open, captured, released, redemption_capture, reservation_release,
}
use paisa.Domain.Types.{
  AuthContext, BalanceSnapshot, LedgerEntryInput, CatalogItem, Redemption, RedemptionActionResult,
}
use paisa.Domain.Balance.{add_deltas, is_reserve, is_expiration}
use paisa.Db.Result.{ok, err, Result-cases}
use paisa.Db.State.{Db, within_tx, ◌>>=◌}
use paisa.Ledger.Store.{is_of, entry_clashes, set_points, get_balance}
use paisa.Ledger.Posting.{IsSound, post_ledger_entry-succeeds}
use paisa.Redemption.Store.{is_row, set_status, get, update_status, insert_event}
use paisa.Redemption.Service.{settle, settle_entry, capture_redemption, release_redemption}
use paisa.Redemption.Backed.{open_cost, IsConsistent}
use paisa.Redemption.Preservation.{found_by_id}

abbrev pub IsPriced : List Redemption → Type 0
IsPriced = All (λ r. pos 0 ≤ℤ r.points_cost)

open_cost_nonneg : (a : String) (rs : List Redemption) → IsPriced rs → pos 0 ≤ℤ open_cost a rs
open_cost_nonneg a [] h = omega arith
open_cost_nonneg a (r ∷ rs) h = grind (int_laws, open_cost_nonneg a rs h.1)

-- The sum of an account's open costs is at least the cost of each.
open_cost-ge :
    (p : Redemption → Bool) (row : Redemption) (rs : List Redemption)
    → IsPriced rs
    → find p rs ≡ some row
    → is_open row.status ≡ true
    → row.points_cost ≤ℤ open_cost row.member_account_id rs
open_cost-ge p row [] h e o = cc
open_cost-ge p row (r ∷ rs) h e o = elim (Bool-cases (p r)) [
  | inl t ↦
      let same : r ≡ row = ground (arith, t, e) in
      rw (same, o, eq_refl row.member_account_id)
        (omega (
          arith,
          +ℤ_parts (open_cost row.member_account_id rs) row.points_cost,
          open_cost_nonneg row.member_account_id rs h.1,
        ))
  | inr t ↦ grind (int_laws, t, e, open_cost-ge p row rs h.1, o)
]

-- What is left of `r` when a cost that it covers is taken away.
reserved_left :
    (r c : ℤ)
    → IsInt32 r
    → pos 0 ≤ℤ c
    → c ≤ℤ r
    → IsInt32 (r +ℤ (pos 0 -ℤ c)) × (pos 0 ≤ℤ r +ℤ (pos 0 -ℤ c))
unfolding ◌+ℤ◌ ◌-ℤ◌
reserved_left (pos r) (pos c) h k l = ground arith
reserved_left _ _ h k l = absurd (omega arith)

add_zero_ℤ : (x : ℤ) → x +ℤ pos 0 ≡ x
add_zero_ℤ x = omega int_laws

module _ (entry_id : String) (auth : AuthContext) (redemption_id : String) (db : Db)
    (row : Redemption) (item : CatalogItem) (b : BalanceSnapshot)
    (found : find (is_row auth.partner_id redemption_id) db.redemptions ≡ some row)
    (opened : is_open row.status ≡ true)
    (joins : find (λ i. i.id == row.catalog_item_id) db.catalog_items ≡ some item)
    (balance : find (is_of row.member_account_id) db.balance_snapshots ≡ some b) where
  -- The redemption as `Get` gives it.
  abbrev got : Redemption
  got = record row { catalog_item_name = item.name }

  get-found : get auth.partner_id redemption_id db ≡ (ok got, db)
  unfolding get ◌>>=◌
  get-found = ground (arith, found, joins)

  -- After a posting to the redemption's account, the rest of a settlement cannot fail.
  settle-total :
      (input : LedgerEntryInput) (status : RedemptionStatus)
      → input.member_account_id ≡ row.member_account_id
      → IsInt32 input.available_delta × IsInt32 input.reserved_delta × IsInt32 input.expired_delta
      → IsSound (add_deltas b input.available_delta input.reserved_delta input.expired_delta)
      → is_reserve input.entry_type || is_expiration input.entry_type ≡ false
      → any (entry_clashes entry_id input) db.ledger_entries ≡ false
      → (x : Error) → (settle entry_id auth got input status db).0 ≡ err x
      → ⊥
  unfolding settle update_status get insert_event get_balance ◌>>=◌
  settle-total input status account fits sound plain fresh x e =
      let key = is_row auth.partner_id redemption_id in
      let next = add_deltas b input.available_delta input.reserved_delta input.expired_delta in
      let same = found_by_id auth.partner_id redemption_id db.redemptions row found in
      ground (
        arith,
        e,
        same,
        joins,
        account,
        post_ledger_entry-succeeds entry_id input b db (rw account balance) fresh fits sound plain,
        find-update_first key (set_status status "") db.redemptions row found
            (find-passes key db.redemptions row found),
        find-update_first (is_of row.member_account_id) (set_points next) db.balance_snapshots b
            balance (find-passes (is_of row.member_account_id) db.balance_snapshots b balance),
      )

  module _ (inv : IsConsistent db) (priced : IsPriced db.redemptions) where
    cost_fits : IsInt32 row.points_cost
    cost_fits =
        find-All (λ r. IsInt32 r.points_cost) (is_row auth.partner_id redemption_id) db.redemptions
          row inv.costs found

    cost_nonneg : pos 0 ≤ℤ row.points_cost
    cost_nonneg =
        find-All (λ r. pos 0 ≤ℤ r.points_cost) (is_row auth.partner_id redemption_id) db.redemptions
          row priced found

    is_sound : IsSound b
    is_sound =
        find-All IsSound (is_of row.member_account_id) db.balance_snapshots b inv.reconciled.sound
          balance

    enough : row.points_cost ≤ℤ b.reserved_points
    enough =
        let e : b.reserved_points ≡ open_cost row.member_account_id db.redemptions =
          ground (arith, balance, inv.backed row.member_account_id) in
        rw e (
          open_cost-ge (is_row auth.partner_id redemption_id) row db.redemptions priced found
            opened)

    neg_fits : IsInt32 (neg row.points_cost)
    neg_fits = rw (⊟_exact (pos 0) row.points_cost (omega arith) cost_fits) (
        omega (
          arith,
          -ℤ_parts (pos 0) row.points_cost,
          cost_fits,
          cost_nonneg,
          parts_apart row.points_cost,
          parts_apart (pos 0 -ℤ row.points_cost),
        ))

    -- The balance after the cost has left the reserved points and `d` has come to the available.
    next-IsSound :
        (d : ℤ)
        → IsInt32 d
        → IsInt32 (b.available_points +ℤ d)
        → IsSound (add_deltas b d (neg row.points_cost) (pos 0))
    next-IsSound d fits room =
        let n = ⊟_exact (pos 0) row.points_cost (omega arith) cost_fits in
        let p = ⊞_exact b.available_points d is_sound.0 fits in
        let q = ⊞_exact b.reserved_points (neg row.points_cost) is_sound.1 neg_fits in
        let z = ⊞_exact b.expired_points (pos 0) is_sound.2 (omega arith) in
        let left = reserved_left b.reserved_points row.points_cost is_sound.1 cost_nonneg enough in
        rw (p, q, z, n, add_zero_ℤ b.expired_points) (room, left.0, is_sound.2, left.1, is_sound.4)

    -- In a consistent database the capture of an open redemption succeeds, if its entry has a new
    -- id, the redemption has no entry of a capture, its item and its account's balance are there, and no cost is negative: the reserved
    -- points that it needs are there.
    pub capture_redemption-succeeds :
        any
            (entry_clashes entry_id
              (settle_entry auth row redemption_capture (pos 0) "redemption capture"))
            db.ledger_entries
          ≡ false
        → (res : RedemptionActionResult) × (db' : Db) × (capture_redemption entry_id auth
              redemption_id db
            ≡ (ok res, db'))
    unfolding capture_redemption within_tx ◌>>=◌
    capture_redemption-succeeds fresh =
        elim (Result-cases (capture_redemption entry_id auth redemption_id db).0) [
          | inl (res, e) ↦ (
            res,
            (capture_redemption entry_id auth redemption_id db).1,
            ap (λ r. (r, (capture_redemption entry_id auth redemption_id db).1)) e,
          )
          | inr (x, e) ↦ absurd (
              settle-total (settle_entry auth row redemption_capture (pos 0) "redemption capture")
                captured refl (omega arith, neg_fits, omega arith)
                (next-IsSound (pos 0) (omega arith) (rw (add_zero_ℤ b.available_points) is_sound.0))
                refl fresh x (ground (arith, e, get-found, opened)))
        ]

    -- In a consistent database the release of an open redemption succeeds, if its entry has a new
    -- id, the redemption has no entry of a release, its item and its account's balance are there, no cost is negative, and its cost has
    -- room in the column of the available points.
    pub release_redemption-succeeds :
        IsInt32 (b.available_points +ℤ row.points_cost)
        → any
            (entry_clashes entry_id
              (settle_entry auth row reservation_release row.points_cost "redemption release"))
            db.ledger_entries
          ≡ false
        → (res : RedemptionActionResult) × (db' : Db) × (release_redemption entry_id auth
              redemption_id db
            ≡ (ok res, db'))
    unfolding release_redemption within_tx ◌>>=◌
    release_redemption-succeeds room fresh =
        elim (Result-cases (release_redemption entry_id auth redemption_id db).0) [
          | inl (res, e) ↦ (
            res,
            (release_redemption entry_id auth redemption_id db).1,
            ap (λ r. (r, (release_redemption entry_id auth redemption_id db).1)) e,
          )
          | inr (x, e) ↦ absurd (
              settle-total
                (settle_entry auth row reservation_release row.points_cost "redemption release")
                released refl (cost_fits, neg_fits, omega arith)
                (next-IsSound row.points_cost cost_fits room) refl fresh x
                (ground (arith, e, get-found, opened)))
        ]
