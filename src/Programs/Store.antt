-- ===== src/Programs/Store.antt =====
-- `ProgramStore` of accts-api/adapters/postgres/internal/repository/program.go. The id of a new row
-- and the time of the call are arguments.
use paisa.Prelude.{
  String, ◌==◌, Bool, true, false, not, ◌&&◌, ◌||◌, Option, none, some, List, [], ◌∷◌, map, any,
  find, keep, update_first, if◌then◌else◌,
}
use paisa.Prelude.Int.{ℤ, pos, ◌+ℤ◌, ltb_ℤ}
use paisa.Prelude.Word.{fits_integer}
use paisa.Domain.Errors.{Error, other, app_error_from_db}
use paisa.Domain.Constants.{
  RuleStatus, draft, published, archived, active, is_active, program_base, member_add_on,
  rule_status_eq,
}
use paisa.Domain.Programs.{Program, RuleVersion, ProgramRequest, RuleVersionRequest}
use paisa.Db.State.{Tx, pure, fail, query_row, ◌>>=◌, ◌>>◌}
use paisa.Ledger.Store.{duplicate_key, out_of_range}

abbrev pub check_violation : Error
check_violation = other "pq: new row violates check constraint"

-- The keys of the table: its id, and the partner with the tier code, where there is one.
abbrev pub program_clashes : String → String → String → Program → Bool
program_clashes id partner_id tier_code p =
    p.id == id || (not (tier_code == "") && p.partner_id == partner_id && p.tier_code == tier_code)

abbrev pub new_program : String → String → ProgramRequest → Program
new_program id partner_id body = record {
  id = id;
  partner_id = partner_id;
  name = body.name;
  tier_code = body.tier_code;
  status = active;
  priority = body.priority;
}

-- `Create`
unfoldable pub create_program_row : String → String → ProgramRequest → Tx Program
create_program_row id partner_id body db =
    if not (fits_integer body.priority)
    then fail (app_error_from_db out_of_range) db
    else if any (program_clashes id partner_id body.tier_code) db.programs
    then fail (app_error_from_db duplicate_key) db
    else pure (new_program id partner_id body)
        (record db { programs = new_program id partner_id body ∷ db.programs })

abbrev pub is_program : String → String → Program → Bool
is_program partner_id program_id p = p.id == program_id && p.partner_id == partner_id

abbrev pub edited : ProgramRequest → Program → Program
edited body p = record p { name = body.name; tier_code = body.tier_code; priority = body.priority }

-- Another program of the partner has the tier code.
abbrev pub tier_taken : String → String → String → Program → Bool
tier_taken partner_id program_id tier_code p =
    not (p.id == program_id)
    && not (tier_code == "")
    && p.partner_id == partner_id
    && p.tier_code == tier_code

-- `Update`: without a row to change, no value is computed and no constraint is checked.
unfoldable pub update_program_row : String → String → ProgramRequest → Tx Program
update_program_row partner_id program_id body = do
  row ← query_row (λ db. find (is_program partner_id program_id) db.programs)
  (λ db.
      if not (fits_integer body.priority)
      then fail (app_error_from_db out_of_range) db
      else if any (tier_taken partner_id program_id body.tier_code) db.programs
      then fail (app_error_from_db duplicate_key) db
      else pure (edited body row) (record db {
        programs = update_first (is_program partner_id program_id) (edited body) db.programs;
      }))

-- Sorted insertion; rows with equal keys keep their order.
abbrev pub insert_sorted : {A : Type 0} → (A → A → Bool) → A → List A → List A
insert_sorted before x [] = x ∷ []
insert_sorted before x (y ∷ ys) =
    let rest = insert_sorted before x ys in if before y x then y ∷ rest else x ∷ y ∷ ys

-- `ORDER BY`. The tables are kept newest first, and among rows with equal keys the oldest comes
-- first; `before y x` is whether `y` must come before `x`.
abbrev pub order_by : {A : Type 0} → (A → A → Bool) → List A → List A
order_by before [] = []
order_by before (x ∷ xs) = insert_sorted (λ y z. not (before z y)) x (order_by before xs)

-- `List`
unfoldable pub list_program_rows : String → Tx (List Program)
list_program_rows partner_id db =
    pure
      (order_by (λ p q. ltb_ℤ p.priority q.priority)
        (keep (λ p. p.partner_id == partner_id) db.programs))
      db

-- `EnsureProgramPartner`, with the translation of its error: `EnsurePartner`.
unfoldable pub ensure_program_partner : String → String → Tx (Unit {0})
ensure_program_partner partner_id program_id = do
  _ ←
      query_row
        (λ db. find (λ p. is_program partner_id program_id p && is_active p.status) db.programs)
  pure tt

abbrev pub in_scope : String → String → RuleVersion → Bool
in_scope program_id scope v = v.program_id == program_id && v.scope == scope

abbrev pub max_ℤ : ℤ → ℤ → ℤ
max_ℤ a b = if ltb_ℤ a b then b else a

-- `COALESCE(MAX(version), 0)`
abbrev pub max_version : List RuleVersion → ℤ
max_version [] = pos 0
max_version (v ∷ []) = v.version
max_version (v ∷ w ∷ vs) = max_ℤ v.version (max_version (w ∷ vs))

-- `NextRuleVersionNumber`: the database adds in its own type INTEGER.
unfoldable pub next_rule_version_number : String → String → Tx ℤ
next_rule_version_number program_id scope db =
    let next = max_version (keep (in_scope program_id scope) db.rule_versions) +ℤ pos 1 in
    if fits_integer next then pure next db else fail (app_error_from_db out_of_range) db

abbrev pub new_version : String → String → String → ℤ → RuleVersionRequest → RuleVersion
new_version id partner_id program_id version body = record {
  id = id;
  partner_id = partner_id;
  program_id = program_id;
  version = version;
  status = draft;
  scope = body.scope;
  rule_set_key = body.rule_set_key;
  name = body.name;
  description = body.description;
  earn_basis = body.earn_basis;
  published_at = none;
}

-- The keys of the table: its id, and the program with the scope and the version.
abbrev pub version_clashes : RuleVersion → RuleVersion → Bool
version_clashes row v =
    v.id == row.id
    || (in_scope row.program_id row.scope v
        && not (ltb_ℤ v.version row.version)
        && not (ltb_ℤ row.version v.version))

-- `CreateRuleVersion`, with the checks of the table.
unfoldable pub create_rule_version_row :
    String → String → String → ℤ → RuleVersionRequest → Tx RuleVersion
create_rule_version_row id partner_id program_id version body db =
    let row = new_version id partner_id program_id version body in
    if not (fits_integer version)
    then fail (app_error_from_db out_of_range) db
    else if not (body.scope == program_base || body.scope == member_add_on)
    then fail (app_error_from_db check_violation) db
    else if any (version_clashes row) db.rule_versions
    then fail (app_error_from_db duplicate_key) db
    else pure row (record db { rule_versions = row ∷ db.rule_versions })

abbrev pub is_version : String → String → String → RuleVersion → Bool
is_version partner_id program_id version_id v =
    v.id == version_id && v.partner_id == partner_id && v.program_id == program_id

-- `GetRuleVersion`
unfoldable pub get_rule_version_row : String → String → String → Tx RuleVersion
get_rule_version_row partner_id program_id version_id =
    query_row (λ db. find (is_version partner_id program_id version_id) db.rule_versions)

abbrev status_of : Option RuleVersion → Option RuleStatus
status_of none = none
status_of (some v) = some v.status

-- `LockRuleVersionStatus`; the lock itself orders the transactions, which the model runs one by
-- one.
unfoldable pub lock_rule_version_status : String → String → String → Tx RuleStatus
lock_rule_version_status partner_id program_id version_id =
    query_row
      (λ db. status_of (find (is_version partner_id program_id version_id) db.rule_versions))

abbrev pub is_published_in : String → String → String → RuleVersion → Bool
is_published_in partner_id program_id scope v =
    v.partner_id == partner_id
    && v.program_id == program_id
    && v.scope == scope
    && rule_status_eq v.status published

abbrev pub archive_if : (RuleVersion → Bool) → RuleVersion → RuleVersion
archive_if test v = if test v then record v { status = archived } else v

-- `ArchivePublishedRuleVersions`
unfoldable pub archive_published_rule_versions : String → String → String → Tx (Unit {0})
archive_published_rule_versions partner_id program_id scope db = pure tt (record db {
  rule_versions = map (archive_if (is_published_in partner_id program_id scope)) db.rule_versions;
})

abbrev pub publish_at : ℤ → RuleVersion → RuleVersion
publish_at now v = record v { status = published; published_at = some now }

-- `PublishRuleVersion`
unfoldable pub publish_rule_version_row : ℤ → String → Tx RuleVersion
publish_rule_version_row now version_id = do
  (λ db. pure tt (record db {
    rule_versions = update_first (λ v. v.id == version_id) (publish_at now) db.rule_versions;
  }))
  query_row (λ db. find (λ v. v.id == version_id) db.rule_versions)

abbrev pub of_program : String → String → RuleVersion → Bool
of_program partner_id program_id v = v.partner_id == partner_id && v.program_id == program_id

-- `ListRuleVersions`
unfoldable pub list_rule_version_rows : String → String → Tx (List RuleVersion)
list_rule_version_rows partner_id program_id db =
    pure
      (order_by (λ v w. ltb_ℤ w.version v.version)
        (keep (of_program partner_id program_id) db.rule_versions))
      db

-- The texts of the statuses in their order: archived, draft, published.
abbrev pub status_before : RuleStatus → RuleStatus → Bool
status_before archived draft = true
status_before archived published = true
status_before draft published = true
status_before _ _ = false

-- `ListRulePackages`
unfoldable pub list_rule_package_rows : String → String → Tx (List RuleVersion)
list_rule_package_rows partner_id program_id db =
    pure
      (order_by
        (λ v w.
          status_before v.status w.status
          || (rule_status_eq v.status w.status && ltb_ℤ w.version v.version))
        (keep (λ v. of_program partner_id program_id v && v.scope == member_add_on)
          db.rule_versions))
      db
