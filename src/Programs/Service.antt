-- ===== src/Programs/Service.antt =====
-- accts-api/application/program_service.go. The ids of new rows, the time of the call and the order
-- in which Go ranges over the rules of a graph are arguments.
use paisa.Prelude.{
  String, ◌==◌, true, false, not, ◌&&◌, Option, none, some, List, [], ◌∷◌, if◌then◌else◌,
}
use paisa.Prelude.Int.{ℤ}
use paisa.Domain.Errors.{other, conflict_error, error_text}
use paisa.Domain.Constants.{draft, rule_status_eq, program_base, member_add_on}
use paisa.Domain.Text.{normalize_default}
use paisa.Domain.Config.{Runtime}
use paisa.Domain.Rules.{RuleGraph}
use paisa.Domain.Publish.{validate_rule_graph_for_publish}
use paisa.Domain.Programs.{
  Program, RuleVersion, ProgramRequest, RuleVersionRequest, RuleValidationResult,
}
use paisa.Db.Result.{Result, ok, err}
use paisa.Db.State.{Db, Tx, pure, lift, fail_if, ◌>>=◌, ◌>>◌, within_tx}
use paisa.Db.Accounts.{partner_by_key, ensure_active_status}
use paisa.Programs.Store.{
  create_program_row, update_program_row, list_program_rows, ensure_program_partner,
  next_rule_version_number, create_rule_version_row, get_rule_version_row, lock_rule_version_status,
  archive_published_rule_versions, publish_rule_version_row, list_rule_version_rows,
  list_rule_package_rows,
}
use paisa.Programs.Groups.{Format, RowIds, insert_groups}
use paisa.Programs.Graph.{load_graph}
use paisa.Programs.Delete.{delete_draft}

-- `CreateProgram`
unfoldable pub create_program : String → String → ProgramRequest → Tx Program
create_program id partner_key body = do
  partner ← partner_by_key partner_key
  lift (ensure_active_status "partner" partner.status)
  create_program_row id partner.id body

-- `UpdateProgram`
unfoldable pub update_program : String → String → ProgramRequest → Tx Program
update_program partner_key program_id body = do
  partner ← partner_by_key partner_key
  lift (ensure_active_status "partner" partner.status)
  update_program_row partner.id program_id body

-- `DeleteDraftProgram`
unfoldable pub delete_draft_program : String → String → Tx (Unit {0})
delete_draft_program partner_key program_id = within_tx (do
  partner ← partner_by_key partner_key
  lift (ensure_active_status "partner" partner.status)
  delete_draft partner.id program_id)

-- `ListPrograms`
unfoldable pub list_programs : String → Tx (List Program)
list_programs partner_key = do partner ← partner_by_key partner_key; list_program_rows partner.id

-- The defaults that `CreateRuleVersion` puts in its request.
unfoldable pub with_defaults : RuleVersionRequest → RuleVersionRequest
with_defaults body =
    let scope = normalize_default body.scope program_base in
    record body {
      earn_basis = normalize_default body.earn_basis "total";
      scope = scope;
      rule_set_key =
          if scope == member_add_on && body.rule_set_key == ""
          then body.name
          else body.rule_set_key;
    }

-- The body of the transaction of `CreateRuleVersion`.
unfoldable pub store_rule_version :
    Format → RowIds → String → String → String → RuleVersionRequest → Tx RuleVersion
store_rule_version format ids version_id partner_key program_id body = do
  partner ← partner_by_key partner_key
  lift (ensure_active_status "partner" partner.status)
  ensure_program_partner partner.id program_id
  number ← next_rule_version_number program_id body.scope
  version ← create_rule_version_row version_id partner.id program_id number body
  insert_groups format ids version.id 0 body.rule_groups
  pure version

-- `CreateRuleVersion`
unfoldable pub create_rule_version :
    Format → RowIds → String → String → String → RuleVersionRequest → Tx RuleVersion
unfolding store_rule_version with_defaults
create_rule_version format ids version_id partner_key program_id body =
    within_tx (store_rule_version format ids version_id partner_key program_id (with_defaults body))

-- The request that `CreateRulePackage` passes on.
unfoldable pub as_package : RuleVersionRequest → RuleVersionRequest
as_package body =
    let name = if body.name == "" then body.rule_set_key else body.name in
    record body {
      scope = member_add_on;
      name = name;
      rule_set_key = if body.rule_set_key == "" then name else body.rule_set_key;
    }

-- `CreateRulePackage`
unfoldable pub create_rule_package :
    Format → RowIds → String → String → String → RuleVersionRequest → Tx RuleVersion
unfolding create_rule_version as_package
create_rule_package format ids version_id partner_key program_id body =
    create_rule_version format ids version_id partner_key program_id (as_package body)

-- A validation, which has enough fuel.
abbrev pub done : Option (Result (Unit {0})) → Result (Unit {0})
done none = err (other "out of fuel")
done (some r) = r

-- `ListRulePackages`
unfoldable pub list_rule_packages : String → String → Tx (List RuleVersion)
list_rule_packages partner_key program_id = do
  partner ← partner_by_key partner_key
  ensure_program_partner partner.id program_id
  list_rule_package_rows partner.id program_id

-- `ListRuleVersions`
unfoldable pub list_rule_versions : String → String → Tx (List RuleVersion)
list_rule_versions partner_key program_id = do
  partner ← partner_by_key partner_key
  ensure_program_partner partner.id program_id
  list_rule_version_rows partner.id program_id

-- The last steps of `PublishRuleVersion`.
unfoldable pub publish_valid : ℤ → String → String → String → Tx RuleVersion
publish_valid now partner_id program_id version_id = do
  meta ← get_rule_version_row partner_id program_id version_id
  (if meta.scope == program_base
      then archive_published_rule_versions partner_id program_id program_base
      else pure tt)
  publish_rule_version_row now version_id

-- The steps of `PublishRuleVersion` for a partner that is active; `validate` is the validation.
unfoldable pub publish_for :
    (RuleGraph → Result (Unit {0})) → ℤ → String → String → String → Tx RuleVersion
unfolding publish_valid
publish_for validate now partner_id program_id version_id = do
  status ← lock_rule_version_status partner_id program_id version_id
  fail_if (not (rule_status_eq status draft))
      (conflict_error "only draft rule versions can be published")
  graph ← load_graph version_id
  lift (validate graph)
  publish_valid now partner_id program_id version_id

module _ (rt : Runtime) (order : RuleGraph → List String) where
  -- `ValidateRuleGraphForPublish` of a loaded graph, whose limits are given.
  unfoldable pub validate_graph : RuleGraph → Result (Unit {0})
  validate_graph graph = done (
      validate_rule_graph_for_publish rt (order graph) graph.groups graph.rules graph.dependencies
        (some graph.limits))

  -- `PublishRuleVersion`
  unfoldable pub publish_rule_version : ℤ → String → String → String → Tx RuleVersion
  unfolding publish_for validate_graph
  publish_rule_version now partner_key program_id version_id = within_tx (do
    partner ← partner_by_key partner_key
    lift (ensure_active_status "partner" partner.status)
    publish_for validate_graph now partner.id program_id version_id)

  abbrev validation_result : Result (Unit {0}) × Db → Result RuleValidationResult × Db
  validation_result (ok _, db) = pure (record { valid = true; errors = [] }) db
  validation_result (err e, db) = pure (record { valid = false; errors = error_text e ∷ [] }) db

  -- `ValidateRuleVersion`
  unfoldable pub validate_rule_version : String → String → String → Tx RuleValidationResult
  unfolding validate_graph
  validate_rule_version partner_key program_id version_id db = validation_result (
      within_tx
        (do
          partner ← partner_by_key partner_key
          ensure_program_partner partner.id program_id
          _ ← get_rule_version_row partner.id program_id version_id
          graph ← load_graph version_id
          lift (validate_graph graph))
        db)
