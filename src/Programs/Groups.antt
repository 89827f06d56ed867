-- ===== src/Programs/Groups.antt =====
-- `InsertGroups` of accts-api/adapters/postgres/internal/repository/program.go. The ids that the
-- database gives to the new rows are arguments.
use Prim.Native.String.{◌++◌ as concat}
use paisa.Prelude.{
  ℕ, suc, String, ◌==◌, Bool, not, ◌&&◌, ◌||◌, Option, none, some, List, [], ◌∷◌, ◌++◌, any,
  if◌then◌else◌,
}
use paisa.Prelude.Int.{ℤ, pos, eqb_ℤ}
use paisa.Prelude.Word.{fits_integer}
use paisa.Domain.Errors.{invalid_error, app_error_from_db}
use paisa.Domain.Constants.{Status, active, other}
use paisa.Domain.Text.{normalize_default}
use paisa.Domain.Config.{Fields, empty}
use paisa.Domain.Rules.{
  RuleGraphLimit, RuleGraphDependency, supported_rule_strategy, supported_rule_type,
}
use paisa.Domain.Programs.{
  RuleGroup, EarningRule, RuleGroupRequest, RuleRequest, RuleLimitRequest, RuleDependencyRequest,
}
use paisa.Db.State.{Tx, pure, fail, ◌>>=◌, ◌>>◌}
use paisa.Ledger.Store.{duplicate_key, out_of_range}
use paisa.Programs.Store.{check_violation}

-- fmt's %d of an index and %q of a text.
pub record Format : Type 0 where
  pub decimal : ℕ → String
  pub quote : String → String

-- The ids of the new rows: a group's by its index, a rule's by those of its group and its own, a
-- limit's by those of its group, its rule and its own.
pub record RowIds : Type 0 where
  pub group_id : ℕ → String
  pub rule_id : ℕ → ℕ → String
  pub limit_id : ℕ → ℕ → ℕ → String

-- `DefaultPriority`
unfoldable pub default_priority : ℤ → ℕ → ℤ
default_priority priority index = if eqb_ℤ priority (pos 0) then pos (suc index) else priority

-- `DefaultMap`
unfoldable pub default_map : Option Fields → Fields
default_map none = empty
default_map (some value) = value

-- The text of a status that a request gives.
abbrev pub status_of_text : String → Status
status_of_text s = if s == "active" then active else other s

abbrev pub limit_row : String → String → RuleLimitRequest → RuleGraphLimit
limit_row id rule_id limit = record {
  id = id;
  rule_id = rule_id;
  scope = normalize_default limit.scope "member";
  period = normalize_default limit.period "lifetime";
  max_points = limit.max_points;
  max_basis_amount_minor = limit.max_basis_amount_minor;
}

-- The checks of the table on a limit's scope and period.
abbrev pub limit_allowed : RuleGraphLimit → Bool
limit_allowed l =
    l.scope == "member"
    && (l.period == "lifetime"
        || l.period == "day"
        || l.period == "calendar_month"
        || l.period == "calendar_year")

unfoldable pub insert_limit : RuleGraphLimit → Tx (Unit {0})
insert_limit row db =
    if not (fits_integer row.max_points && fits_integer row.max_basis_amount_minor)
    then fail (app_error_from_db out_of_range) db
    else if not (limit_allowed row)
    then fail (app_error_from_db check_violation) db
    else if any (λ l. l.id == row.id) db.rule_limits
    then fail (app_error_from_db duplicate_key) db
    else pure tt (record db { rule_limits = row ∷ db.rule_limits })

-- The loop over a rule's limits, from an index on.
unfoldable pub insert_limits : (ℕ → String) → String → ℕ → List RuleLimitRequest → Tx (Unit {0})
insert_limits ids rule_id index [] = pure tt
insert_limits ids rule_id index (limit ∷ limits) = do
  _ ← insert_limit (limit_row (ids index) rule_id limit)
  insert_limits ids rule_id (suc index) limits

abbrev pub rule_row : Format → String → String → ℕ → RuleRequest → EarningRule
rule_row format id group_id index rule = record {
  id = id;
  rule_group_id = group_id;
  rule_key = normalize_default rule.rule_key (concat "rule-" (format.decimal (suc index)));
  name = rule.name;
  rule_type = normalize_default rule.rule_type "points_per_dollar";
  priority = default_priority rule.priority index;
  status = status_of_text (normalize_default rule.status "active");
  eligibility_config = default_map rule.eligibility_config;
  formula_config = default_map rule.formula_config;
}

-- The keys of the table: its id, and the group with the rule's key.
abbrev pub rule_clashes : EarningRule → EarningRule → Bool
rule_clashes row r =
    r.id == row.id || (r.rule_group_id == row.rule_group_id && r.rule_key == row.rule_key)

unfoldable pub insert_rule : EarningRule → Tx (Unit {0})
insert_rule row db =
    if not (fits_integer row.priority)
    then fail (app_error_from_db out_of_range) db
    else if not (supported_rule_type row.rule_type)
    then fail (app_error_from_db check_violation) db
    else if any (rule_clashes row) db.earning_rules
    then fail (app_error_from_db duplicate_key) db
    else pure tt (record db { earning_rules = row ∷ db.earning_rules })

-- `ruleIDsByKey`, where a missing key gives ''.
abbrev pub KeyIds : Type 0
KeyIds = String → String

abbrev pub with_key : String → String → KeyIds → KeyIds
with_key key id keys other_key = if other_key == key then id else keys other_key

-- `pendingDependencies`
abbrev pub Pending : Type 0
Pending = List (String × RuleDependencyRequest)

abbrev pub pending_of : String → List RuleDependencyRequest → Pending
pending_of rule_id [] = []
pending_of rule_id (d ∷ ds) = (rule_id, d) ∷ pending_of rule_id ds

-- The loop over a group's rules, from an index on: the ids by key and the pending dependencies.
unfoldable pub insert_rules :
    Format
    → (ℕ → String)
    → (ℕ → ℕ → String)
    → String
    → ℕ
    → KeyIds
    → Pending
    → List RuleRequest
    → Tx (KeyIds × Pending)
insert_rules format ids limit_ids group_id index keys pending [] = pure (keys, pending)
insert_rules format ids limit_ids group_id index keys pending (rule ∷ rules) = do
  let row = rule_row format (ids index) group_id index rule
  _ ← insert_rule row
  _ ← insert_limits (limit_ids index) row.id 0 rule.limits
  insert_rules format ids limit_ids group_id (suc index) (with_key row.rule_key row.id keys)
      (pending ++ pending_of row.id rule.dependencies) rules

abbrev pub same_dependency : RuleGraphDependency → RuleGraphDependency → Bool
same_dependency a b =
    a.rule_id == b.rule_id
    && a.depends_on_rule_id == b.depends_on_rule_id
    && a.dependency_type == b.dependency_type

unfoldable pub insert_dependency : RuleGraphDependency → Tx (Unit {0})
insert_dependency row db =
    if any (same_dependency row) db.rule_dependencies
    then fail (app_error_from_db duplicate_key) db
    else pure tt (record db { rule_dependencies = row ∷ db.rule_dependencies })

abbrev pub dependency_row : String → String → RuleDependencyRequest → RuleGraphDependency
dependency_row rule_id depends_on d = record {
  rule_id = rule_id;
  depends_on_rule_id = depends_on;
  dependency_type = normalize_default d.dependency_type "requires_match";
}

-- The loop over the pending dependencies.
unfoldable pub insert_dependencies : Format → KeyIds → Pending → Tx (Unit {0})
insert_dependencies format keys [] = pure tt
insert_dependencies format keys ((rule_id, d) ∷ rest) = do
  let depends_on = keys d.depends_on_rule_key
  (if depends_on == ""
      then fail
          (invalid_error (concat "unknown dependsOnRuleKey " (format.quote d.depends_on_rule_key)))
      else insert_dependency (dependency_row rule_id depends_on d))
  insert_dependencies format keys rest

abbrev pub group_row : String → String → ℕ → RuleGroupRequest → RuleGroup
group_row id version_id index group = record {
  id = id;
  rule_version_id = version_id;
  name = group.name;
  priority = default_priority group.priority index;
  resolution_strategy = normalize_default group.resolution_strategy "stack";
}

unfoldable pub insert_group : RuleGroup → Tx (Unit {0})
insert_group row db =
    if not (fits_integer row.priority)
    then fail (app_error_from_db out_of_range) db
    else if not (supported_rule_strategy row.resolution_strategy)
    then fail (app_error_from_db check_violation) db
    else if any (λ g. g.id == row.id) db.rule_groups
    then fail (app_error_from_db duplicate_key) db
    else pure tt (record db { rule_groups = row ∷ db.rule_groups })

-- `InsertGroups`, from an index on.
unfoldable pub insert_groups : Format → RowIds → String → ℕ → List RuleGroupRequest → Tx (Unit {0})
insert_groups format ids version_id index [] = pure tt
insert_groups format ids version_id index (group ∷ groups) = do
  let row = group_row (ids.group_id index) version_id index group
  _ ← insert_group row
  found ←
      insert_rules format (ids.rule_id index) (ids.limit_id index) row.id 0 (λ _. "") [] group.rules
  _ ← insert_dependencies format found.0 found.1
  insert_groups format ids version_id (suc index) groups
