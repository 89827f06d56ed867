-- ===== src/Programs/Inserted.antt =====
-- What `InsertGroups` leaves alone: it stores groups, rules, limits and dependencies only.
use paisa.Prelude.{ℕ, suc, String, ◌≡◌, refl, List, [], ◌∷◌, arith}
use paisa.Domain.Programs.{RuleGroup, EarningRule, RuleGroupRequest, RuleRequest, RuleLimitRequest}
use paisa.Domain.Rules.{RuleGraphLimit, RuleGraphDependency}
use paisa.Db.State.{Db}
use paisa.Db.Frame.{Keeps, >>=-Keeps, if-Keeps}
use paisa.Programs.Groups.{
  Format, RowIds, KeyIds, Pending, insert_limit, insert_limits, insert_rule, insert_rules,
  insert_dependency, insert_dependencies, insert_group, insert_groups,
}

-- A part of the database that does not depend on the tables of rules.
abbrev pub IsApart : {B : Type 0} → (Db → B) → Type 0
IsApart part =
    (db : Db) (gs : List RuleGroup) (rs : List EarningRule) (ls : List RuleGraphLimit)
    (ds : List RuleGraphDependency)
    → part (record db {
      rule_groups = gs;
      earning_rules = rs;
      rule_limits = ls;
      rule_dependencies = ds;
    })
      ≡ part db

module _ {B : Type 0} (part : Db → B) (apart : IsApart part) where
  insert_limit-Keeps : (row : RuleGraphLimit) → Keeps part (insert_limit row)
  unfolding insert_limit
  insert_limit-Keeps row db =
      ground (
        arith,
        apart db db.rule_groups db.earning_rules (row ∷ db.rule_limits) db.rule_dependencies,
      )

  insert_rule-Keeps : (row : EarningRule) → Keeps part (insert_rule row)
  unfolding insert_rule
  insert_rule-Keeps row db =
      ground (
        arith,
        apart db db.rule_groups (row ∷ db.earning_rules) db.rule_limits db.rule_dependencies,
      )

  insert_group-Keeps : (row : RuleGroup) → Keeps part (insert_group row)
  unfolding insert_group
  insert_group-Keeps row db =
      ground (
        arith,
        apart db (row ∷ db.rule_groups) db.earning_rules db.rule_limits db.rule_dependencies,
      )

  insert_dependency-Keeps : (row : RuleGraphDependency) → Keeps part (insert_dependency row)
  unfolding insert_dependency
  insert_dependency-Keeps row db =
      ground (
        arith,
        apart db db.rule_groups db.earning_rules db.rule_limits (row ∷ db.rule_dependencies),
      )

  insert_limits-Keeps :
      (ids : ℕ → String) (rule_id : String) (index : ℕ) (limits : List RuleLimitRequest)
      → Keeps part (insert_limits ids rule_id index limits)
  unfolding insert_limits
  insert_limits-Keeps ids rule_id index [] = λ _. refl
  insert_limits-Keeps ids rule_id index (l ∷ ls) =
      >>=-Keeps part _ _ (insert_limit-Keeps _)
        (λ _. insert_limits-Keeps ids rule_id (suc index) ls)

  insert_rules-Keeps :
      (format : Format) (ids : ℕ → String) (limit_ids : ℕ → ℕ → String) (group_id : String)
      (index : ℕ) (keys : KeyIds) (pending : Pending) (rules : List RuleRequest)
      → Keeps part (insert_rules format ids limit_ids group_id index keys pending rules)
  unfolding insert_rules
  insert_rules-Keeps format ids limit_ids group_id index keys pending [] = λ _. refl
  insert_rules-Keeps format ids limit_ids group_id index keys pending (r ∷ rs) =
      >>=-Keeps part _ _ (insert_rule-Keeps _) (λ _.
        >>=-Keeps part _ _ (insert_limits-Keeps _ _ 0 r.limits)
          (λ _. insert_rules-Keeps format ids limit_ids group_id (suc index) _ _ rs))

  insert_dependencies-Keeps :
      (format : Format) (keys : KeyIds) (pending : Pending)
      → Keeps part (insert_dependencies format keys pending)
  unfolding insert_dependencies
  insert_dependencies-Keeps format keys [] = λ _. refl
  insert_dependencies-Keeps format keys ((rule_id, d) ∷ rest) =
      >>=-Keeps part _ _ (if-Keeps part _ _ _ (λ _. refl) (insert_dependency-Keeps _))
        (λ _. insert_dependencies-Keeps format keys rest)

  pub insert_groups-Keeps :
      (format : Format) (ids : RowIds) (version_id : String) (index : ℕ)
      (groups : List RuleGroupRequest)
      → Keeps part (insert_groups format ids version_id index groups)
  unfolding insert_groups
  insert_groups-Keeps format ids version_id index [] = λ _. refl
  insert_groups-Keeps format ids version_id index (g ∷ gs) =
      >>=-Keeps part _ _ (insert_group-Keeps _) (λ _.
        >>=-Keeps part _ _ (insert_rules-Keeps format _ _ _ 0 _ [] g.rules) (λ found.
          >>=-Keeps part _ _ (insert_dependencies-Keeps format found.0 found.1)
            (λ _. insert_groups-Keeps format ids version_id (suc index) gs)))
