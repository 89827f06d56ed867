-- ===== src/Db/Accounts.antt =====
-- The look-ups of accts-api/adapters/postgres/internal/repository/partner.go and member.go that the
-- other components make, and `EnsureActiveStatus` of accts-api/domain/helpers.go.
use paisa.Prelude.{String, ◌==◌, Bool, false, ◌&&◌, none, some, find, if◌then◌else◌}
use paisa.Domain.Errors.{invariant_error}
use paisa.Domain.Constants.{Status, is_active}
use paisa.Domain.Types.{Partner, Member}
use paisa.Db.Result.{Result, ok, err}
use paisa.Db.State.{Db, Tx, query_row}
use Prim.Native.String.{◌++◌ as append}

unfoldable pub ensure_active_status : String → Status → Result (Unit {0})
ensure_active_status entity status =
    if is_active status then ok tt else err (invariant_error (append entity " is not active"))

-- `PartnerStore.GetByKey`
unfoldable pub partner_by_key : String → Tx Partner
partner_by_key key = query_row (λ db. find (λ p. p.partner_key == key) db.partners)

-- `PartnerStore.GetByID`
unfoldable pub partner_by_id : String → Tx Partner
partner_by_id id = query_row (λ db. find (λ p. p.id == id) db.partners)

-- `MemberByID`
unfoldable pub member_by_id : String → String → Tx Member
member_by_id partner_id member_id =
    query_row (λ db. find (λ m. m.partner_id == partner_id && m.id == member_id) db.members)

-- The join `members m ON m.id = ma.member_id` with `m.status = 'active'`.
abbrev pub member_is_active : Db → String → Bool
member_is_active db member_id = elim (find (λ m. m.id == member_id) db.members) [
  | none ↦ false
  | some m ↦ is_active m.status
]

-- `MemberAccountID`
unfoldable pub account_id : String → String → Tx String
account_id partner_id member_id = query_row (λ db.
    elim (find
      (λ a.
        a.partner_id == partner_id
        && a.member_id == member_id
        && is_active a.status
        && member_is_active db a.member_id)
      db.member_accounts) [ none ↦ none | some a ↦ some a.id ])
