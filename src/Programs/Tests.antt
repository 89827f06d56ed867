-- ===== src/Programs/Tests.antt =====
-- Runs of the operations on programs: a program gets a version, which is published.
use paisa.Prelude.{String, ◌≡◌, refl, none, some, List, [], ◌∷◌, All, arith, true}
use paisa.Prelude.Int.{pos, ◌+ℤ◌, ◌<ℤ◌}
use paisa.Domain.Errors.{Error, conflict_error}
use paisa.Domain.Constants.{draft, published, program_base}
use paisa.Domain.Text.{normalize_default}
use paisa.Domain.Config.{empty, field, int, lookup, int_from_any, config_int, string_slice_config}
use paisa.Domain.Rules.{RuleGraph, validate_dependencies, validate_rule_limits_for_publish}
use paisa.Domain.Publish.{
  validate_rule_graph_for_publish, validate_rule_config, validate_no_dependency_cycles, visit,
}
use paisa.Domain.Programs.{RuleVersion, RuleVersionRequest, RuleRequest, ProgramRequest}
use paisa.Db.Result.{err}
use paisa.Db.State.{Db, within_tx, ◌>>=◌}
use paisa.Db.Accounts.{partner_by_key, ensure_active_status}
use paisa.Redemption.Cafe.{cafe, plain}
use paisa.Programs.Store.{
  in_scope, new_program, ensure_program_partner, next_rule_version_number, create_rule_version_row,
  get_rule_version_row, lock_rule_version_status, archive_published_rule_versions,
  publish_rule_version_row,
}
use paisa.Programs.Groups.{
  Format, RowIds, default_priority, default_map, insert_limits, insert_rules, insert_rule,
  insert_dependencies, insert_group, insert_groups,
}
use paisa.Programs.Graph.{load_graph, load_graphs, graph_of}
use paisa.Programs.Service.{create_rule_version, publish_rule_version, delete_draft_program}
use paisa.Programs.Versioned.{IsVersioned}
use paisa.Programs.Reach.{Step, Steps-IsVersioned, here, next}
use paisa.Programs.Numbers.{next_rule_version_number-is_new}
use paisa.Programs.Final.{publish_rule_version-once}
use paisa.Programs.Order.{publish_rule_version-order}
use paisa.Programs.Undeletable.{delete_draft_program-Fails}

abbrev pub visits : ProgramRequest
visits = record { name = "Visits"; tier_code = ""; priority = pos 1 }

abbrev pub with_program : Db
with_program = record cafe { programs = new_program "g1" "p1" visits ∷ [] }

abbrev visit_bonus : RuleRequest
visit_bonus = record {
  rule_key = "";
  name = "Visit";
  rule_type = "fixed_per_transaction";
  priority = pos 0;
  status = "";
  eligibility_config = none;
  formula_config = some (field "points" (int (pos 10)) empty);
  limits = [];
  dependencies = [];
}

abbrev request : RuleVersionRequest
request = record {
  earn_basis = "";
  scope = "";
  rule_set_key = "";
  name = "Spring";
  description = "";
  rule_groups =
      record { name = "Main"; resolution_strategy = ""; priority = pos 0; rules = visit_bonus ∷ [] }
      ∷ [];
}

abbrev format : Format
format = record { decimal = λ n. "1"; quote = λ s. s }

abbrev row_ids : RowIds
row_ids = record { group_id = λ i. "grp"; rule_id = λ i j. "rule"; limit_id = λ i j k. "limit" }

abbrev no_order : RuleGraph → List String
no_order graph = []

abbrev first_version : RuleVersion
first_version = record {
  id = "v1";
  partner_id = "p1";
  program_id = "g1";
  version = pos 1;
  status = draft;
  scope = program_base;
  rule_set_key = "";
  name = "Spring";
  description = "";
  earn_basis = "total";
  published_at = none;
}

abbrev drafted : Db
drafted = (create_rule_version format row_ids "v1" "cafe" "g1" request with_program).1

drafted_versions : drafted.rule_versions ≡ first_version ∷ []
unfolding create_rule_version partner_by_key ensure_active_status ensure_program_partner
    next_rule_version_number create_rule_version_row insert_groups insert_group insert_rules
    insert_rule insert_limits insert_dependencies default_priority default_map normalize_default
    within_tx ◌>>=◌ ◌+ℤ◌
drafted_versions = refl

-- The version is published, and archived when a second one is.
abbrev live : Db
live = (publish_rule_version plain no_order (pos 7) "cafe" "g1" "v1" drafted).1

live_versions :
    live.rule_versions
    ≡ record first_version { status = published; published_at = some (pos 7) } ∷ []
unfolding publish_rule_version load_graph load_graphs graph_of validate_rule_graph_for_publish
    validate_rule_config validate_no_dependency_cycles validate_dependencies visit lookup
    int_from_any config_int string_slice_config validate_rule_limits_for_publish create_rule_version
    partner_by_key ensure_active_status ensure_program_partner next_rule_version_number
    create_rule_version_row insert_groups insert_group insert_rules insert_rule insert_limits
    insert_dependencies default_priority default_map normalize_default get_rule_version_row
    lock_rule_version_status archive_published_rule_versions publish_rule_version_row within_tx
    ◌>>=◌ ◌+ℤ◌
live_versions = refl

-- A second version, published after the first.
abbrev replaced : Db
replaced =
    (publish_rule_version plain no_order (pos 9) "cafe" "g1" "v2"
      (create_rule_version format
        (record row_ids { group_id = λ i. "grp2"; rule_id = λ i j. "rule2" }) "v2" "cafe" "g1"
        request live).1).1

Steps-IsVersioned_example : IsVersioned replaced.rule_versions
Steps-IsVersioned_example =
    Steps-IsVersioned plain no_order
      (next (Step.add_version {db = with_program} format row_ids "v1" "cafe" "g1" request) (
        next (Step.publish (pos 7) "cafe" "g1" "v1") (
          next
            (Step.add_version format
              (record row_ids { group_id = λ i. "grp2"; rule_id = λ i j. "rule2" }) "v2" "cafe" "g1"
              request)
            (next (Step.publish (pos 9) "cafe" "g1" "v2") here))))
      (record { keyed = tt; single = λ p g. omega arith })

next_rule_version_number-is_new_example :
    All
      (λ v. in_scope "g1" program_base v ≡ true → v.version <ℤ pos 2)
      (record with_program { rule_versions = first_version ∷ [] }).rule_versions
unfolding next_rule_version_number ◌+ℤ◌
next_rule_version_number-is_new_example =
    next_rule_version_number-is_new "g1" program_base
      (record with_program { rule_versions = first_version ∷ [] })
      (record with_program { rule_versions = first_version ∷ [] }) (pos 2) refl

publish_rule_version-once_example :
    publish_rule_version plain no_order (pos 8) "cafe" "g1" "v1" live
    ≡ (err (conflict_error "only draft rule versions can be published"), live)
unfolding publish_rule_version load_graph load_graphs graph_of validate_rule_graph_for_publish
    validate_rule_config validate_no_dependency_cycles validate_dependencies visit lookup
    int_from_any config_int string_slice_config validate_rule_limits_for_publish create_rule_version
    partner_by_key ensure_active_status ensure_program_partner next_rule_version_number
    create_rule_version_row insert_groups insert_group insert_rules insert_rule insert_limits
    insert_dependencies default_priority default_map normalize_default get_rule_version_row
    lock_rule_version_status archive_published_rule_versions publish_rule_version_row within_tx
    ◌>>=◌ ◌+ℤ◌
publish_rule_version-once_example =
    publish_rule_version-once plain no_order (pos 7) (pos 8) "cafe" "g1" "v1"
      (record first_version { status = published; published_at = some (pos 7) }) drafted live
      (refl, tt) refl

publish_rule_version-order_example :
    publish_rule_version plain no_order (pos 7) "cafe" "g1" "v1" drafted
    ≡ publish_rule_version plain (λ graph. "rule" ∷ []) (pos 7) "cafe" "g1" "v1" drafted
publish_rule_version-order_example =
    publish_rule_version-order plain no_order (λ graph. "rule" ∷ []) (pos 7) "cafe" "g1" "v1"
      drafted

delete_draft_program-Fails_example :
    (e : Error) × (delete_draft_program "cafe" "g1" with_program ≡ (err e, with_program))
delete_draft_program-Fails_example = delete_draft_program-Fails "cafe" "g1" with_program
