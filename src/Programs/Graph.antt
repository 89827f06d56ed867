-- ===== src/Programs/Graph.antt =====
-- `LoadGraph` and `LoadGraphs` of accts-api/adapters/postgres/internal/repository/rule.go.
use paisa.Prelude.{
  String, ◌==◌, Bool, false, ◌&&◌, Option, none, some, List, [], ◌∷◌, map, any, keep, if◌then◌else◌,
}
use paisa.Prelude.Int.{ltb_ℤ}
use paisa.Domain.Errors.{Error, app_error, not_found}
use paisa.Domain.Constants.{is_active}
use paisa.Domain.Rules.{
  RuleGraph, RuleGraphGroup, RuleGraphRule, RuleGraphLimit, RuleGraphDependency,
}
use paisa.Domain.Programs.{RuleGroup, EarningRule}
use paisa.Db.State.{Db, Tx, pure, fail, ◌>>=◌}
use paisa.Programs.Store.{order_by}

abbrev pub group_of_version : List RuleGroup → String → String → Bool
group_of_version groups version_id group_id =
    any (λ g. g.id == group_id && g.rule_version_id == version_id) groups

-- The joins of a rule with its group, and of a limit or a dependency with its rule.
abbrev pub rule_of_version : List RuleGroup → List EarningRule → String → String → Bool
rule_of_version groups rules version_id rule_id =
    any (λ r. r.id == rule_id && group_of_version groups version_id r.rule_group_id) rules

abbrev pub graph_group : RuleGroup → RuleGraphGroup
graph_group g = record { id = g.id; strategy = g.resolution_strategy; priority = g.priority }

abbrev pub graph_rule : EarningRule → RuleGraphRule
graph_rule r = record {
  id = r.id;
  group_id = r.rule_group_id;
  rule_key = r.rule_key;
  rule_type = r.rule_type;
  priority = r.priority;
  eligibility = r.eligibility_config;
  formula = r.formula_config;
}

-- What the four queries of `LoadGraphs` find for one version. Only a rule has a status that is
-- ever another than active.
unfoldable pub graph_of :
    List RuleGroup
    → List EarningRule
    → List RuleGraphLimit
    → List RuleGraphDependency
    → String
    → RuleGraph
graph_of groups rules limits deps version_id = record {
  groups = map graph_group (
      order_by (λ g h. ltb_ℤ g.priority h.priority)
        (keep (λ g. g.rule_version_id == version_id) groups));
  rules = map graph_rule (
      order_by (λ r s. ltb_ℤ r.priority s.priority)
        (keep (λ r. group_of_version groups version_id r.rule_group_id && is_active r.status)
          rules));
  limits =
      order_by (λ _ _. false)
        (keep (λ l. rule_of_version groups rules version_id l.rule_id) limits);
  dependencies =
      order_by (λ _ _. false) (keep (λ d. rule_of_version groups rules version_id d.rule_id) deps);
}

abbrev pub stored_graph : Db → String → RuleGraph
stored_graph db = graph_of db.rule_groups db.earning_rules db.rule_limits db.rule_dependencies

-- Graphs by the id of their version.
abbrev pub Graphs : Type 0
Graphs = String → Option RuleGraph

-- `LoadGraphs`: each id that is asked for has a graph, which is empty where nothing is stored.
unfoldable pub load_graphs : List String → Tx Graphs
unfolding graph_of
load_graphs ids db =
    pure (λ id. if any (λ i. i == id) ids then some (stored_graph db id) else none) db

abbrev pub graph_not_found : Error
graph_not_found = app_error not_found "rule graph not found"

-- `LoadGraph`
unfoldable pub load_graph : String → Tx RuleGraph
unfolding load_graphs
load_graph version_id = do
  graphs ← load_graphs (version_id ∷ [])
  elim (graphs version_id) [ none ↦ fail graph_not_found | some graph ↦ pure graph ]
