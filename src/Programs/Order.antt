-- ===== src/Programs/Order.antt =====
-- `PublishRuleVersion` and `ValidateRuleVersion` of accts-api/application/program_service.go under
-- the orders in which Go may range over the rules of a graph.
use mathlib.Core.Path.{fun_ext}
use paisa.Prelude.{String, ◌≡◌, refl, ap, inl, inr, List, arith}
use paisa.Prelude.Int.{ℤ}
use paisa.Domain.Config.{Runtime}
use paisa.Domain.Rules.{RuleGraph, rules_by_id, validate_dependencies}
use paisa.Domain.Publish.{validate_rule_graph_for_publish}
use paisa.Domain.Acyclic.{no_cycles}
use paisa.Db.Result.{Result, Result-cases}
use paisa.Db.State.{Db, lift, within_tx, ◌>>=◌, ◌>>◌}
use paisa.Db.Accounts.{partner_by_key, ensure_active_status}
use paisa.Programs.Service.{validate_graph, publish_for, publish_rule_version}

module _ (rt : Runtime) (order order' : RuleGraph → List String) where
  validate_graph-order :
      (graph : RuleGraph) → validate_graph rt order graph ≡ validate_graph rt order' graph
  unfolding validate_graph validate_rule_graph_for_publish
  validate_graph-order graph =
      elim (Result-cases
        (validate_dependencies (rules_by_id graph.rules) graph.groups graph.dependencies)) [
          | inl (_, e) ↦
              rw
                (
                  no_cycles graph.groups graph.rules graph.dependencies e (order graph),
                  no_cycles graph.groups graph.rules graph.dependencies e (order' graph),
                )
                refl
          | inr (x, e) ↦ ground (arith, e)
        ]

  -- Go ranges over the map of a graph's rules in any order: whatever the orders of two runs, a
  -- publication has the same outcome and the same effect.
  pub publish_rule_version-order :
      (now : ℤ) (partner_key program_id version_id : String) (db : Db)
      → publish_rule_version rt order now partner_key program_id version_id db
        ≡ publish_rule_version rt order' now partner_key program_id version_id db
  unfolding publish_rule_version
  publish_rule_version-order now partner_key program_id version_id db =
      ap
        (λ (validate : RuleGraph → Result (Unit {0})).
          within_tx
            (do
              partner ← partner_by_key partner_key
              lift (ensure_active_status "partner" partner.status)
              publish_for validate now partner.id program_id version_id)
            db)
        (fun_ext validate_graph-order)
