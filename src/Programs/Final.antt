-- ===== src/Programs/Final.antt =====
-- A version after `PublishRuleVersion` of accts-api/application/program_service.go.
use mathlib.Core.Path.{subst}
use paisa.Prelude.{
  String, ◌==◌, eq_refl, ◌≡◌, refl, ap, sym, ◌∙◌, true, false, not, some, List, [], ◌∷◌, find,
  find-passes, find-update_first, arith,
}
use paisa.Prelude.Int.{ℤ}
use paisa.Domain.Errors.{conflict_error}
use paisa.Domain.Constants.{draft, published, rule_status_eq}
use paisa.Domain.Config.{Runtime}
use paisa.Domain.Rules.{RuleGraph}
use paisa.Domain.Programs.{RuleVersion}
use paisa.Db.Result.{ok, err}
use paisa.Db.State.{Db, query_row, lift, fail_if}
use paisa.Db.Accounts.{partner_by_key, ensure_active_status}
use paisa.Db.Inversion.{>>=-run, >>=-stop, partner_by_key-same, within_tx-refused}
use paisa.Programs.Store.{is_version, publish_at, lock_rule_version_status}
use paisa.Programs.Service.{validate_graph, publish_for, publish_rule_version}
use paisa.Programs.Versions.{IsKeyed}
use paisa.Programs.Versioned.{changed}
use paisa.Programs.Publishing.{
  Published, published_versions, archived_for, publish_rule_version-Published,
}

find_narrow :
    (p g i : String) (vs : List RuleVersion) (w : RuleVersion)
    → find (λ v. v.id == i) vs ≡ some w
    → is_version p g i w ≡ true
    → find (is_version p g i) vs ≡ some w
find_narrow p g i [] w e h = cc
find_narrow p g i (v ∷ vs) w e h = ground (arith, find_narrow p g i vs w)

module _ (rt : Runtime) (order : RuleGraph → List String) where
  -- The row of the version after its publication.
  Published-row :
      (now : ℤ) (p g i : String) (db db' : Db)
      → IsKeyed db.rule_versions
      → Published rt order now p g i db db'
      → (w : RuleVersion) × (find (is_version p g i) db'.rule_versions ≡ some w)
        × (w.status ≡ published)
  Published-row now p g i db db' keyed h =
      let (w, at, partner, program, scope) =
        changed now p g i h.row db.rule_versions h.found keyed in
      let id = find-passes (λ v. v.id == i) (archived_for p g h.row db.rule_versions) w at in
      (
        publish_at now w,
        subst (λ (d : Db). find (is_version p g i) d.rule_versions ≡ some (publish_at now w))
            (sym h.after)
            (find_narrow p g i (published_versions now p g i h.row db.rule_versions)
              (publish_at now w)
              (find-update_first (λ v. v.id == i) (publish_at now)
                (archived_for p g h.row db.rule_versions) w at id)
              (rw (id, partner, program, eq_refl p, eq_refl g) refl)),
        refl,
      )

  lock-is :
      (p g i : String) (db : Db) (w : RuleVersion)
      → find (is_version p g i) db.rule_versions ≡ some w
      → lock_rule_version_status p g i db ≡ (ok w.status, db)
  unfolding lock_rule_version_status query_row
  lock-is p g i db w found = rw found refl

  publish_for-refused :
      (now : ℤ) (p g i : String) (db : Db) (w : RuleVersion)
      → find (is_version p g i) db.rule_versions ≡ some w
      → rule_status_eq w.status draft ≡ false
      → publish_for (validate_graph rt order) now p g i db
        ≡ (err (conflict_error "only draft rule versions can be published"), db)
  unfolding publish_for fail_if
  publish_for-refused now p g i db w found no_draft =
      >>=-run (lock_rule_version_status p g i) _ (lock-is p g i db w found)
      ∙ >>=-stop (fail_if (not (rule_status_eq w.status draft)) _) _ (rw no_draft refl)

  -- Where keys are unique, a publication that succeeds is final: the same version cannot be
  -- published again, and the attempt is refused with a conflict and changes nothing.
  pub publish_rule_version-once :
      (now now' : ℤ) (partner_key g i : String) (v : RuleVersion) (db db' : Db)
      → IsKeyed db.rule_versions
      → publish_rule_version rt order now partner_key g i db ≡ (ok v, db')
      → publish_rule_version rt order now' partner_key g i db'
        ≡ (err (conflict_error "only draft rule versions can be published"), db')
  unfolding publish_rule_version lift
  publish_rule_version-once now now' partner_key g i v db db' keyed h =
      let (partner, found, is_ok, h') =
        publish_rule_version-Published rt order now partner_key g i v db db' h in
      let (w, at, status) = Published-row now partner.id g i db db' keyed h' in
      let same : db'.partners ≡ db.partners = ap (λ (d : Db). d.partners) h'.after in
      within_tx-refused _ (
        >>=-run (partner_by_key partner_key) _ (partner_by_key-same partner_key db db' same found)
        ∙ >>=-run (lift (ensure_active_status "partner" partner.status)) _
            (ap (λ r. (r, db')) is_ok)
        ∙ publish_for-refused now' partner.id g i db' w at (rw status refl))
