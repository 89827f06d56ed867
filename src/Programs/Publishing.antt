-- ===== src/Programs/Publishing.antt =====
-- What `PublishRuleVersion` of accts-api/application/program_service.go does to the versions.
use mathlib.Core.Path.{subst, subst₂}
use paisa.Prelude.{
  String, ◌==◌, eq_refl, ◌≡◌, refl, ap, sym, ◌∙◌, inl, inr, false, not, some, List, map, find,
  update_first, arith, Bool-cases, Option-cases, if◌then◌else◌,
}
use paisa.Prelude.Int.{ℤ}
use paisa.Domain.Errors.{Error}
use paisa.Domain.Constants.{RuleStatus, draft, published, archived, program_base, rule_status_eq}
use paisa.Domain.Config.{Runtime}
use paisa.Domain.Rules.{RuleGraph}
use paisa.Domain.Types.{Partner}
use paisa.Domain.Programs.{RuleVersion}
use paisa.Db.Result.{Result, ok, err}
use paisa.Db.State.{Db, Tx, pure, lift, ◌>>=◌}
use paisa.Db.Accounts.{partner_by_key, ensure_active_status}
use paisa.Db.Inversion.{
  >>=-eq-ok, fail_if-eq-ok, query_row-eq-ok, lift-eq-ok, within_tx-eq-ok, within_tx-err,
  partner_by_key-keeps,
}
use paisa.Programs.Store.{
  is_version, is_published_in, archive_if, publish_at, get_rule_version_row,
  lock_rule_version_status, archive_published_rule_versions, publish_rule_version_row,
}
use paisa.Programs.Graph.{stored_graph, load_graph}
use paisa.Programs.Service.{validate_graph, publish_valid, publish_for, publish_rule_version}

draft_only : (s : RuleStatus) → not (rule_status_eq s draft) ≡ false → s ≡ draft
draft_only draft h = refl
draft_only published h = ground arith
draft_only archived h = ground arith

-- The versions of a program once its own published ones are archived for `row`.
abbrev pub archived_for : String → String → RuleVersion → List RuleVersion → List RuleVersion
archived_for p g row vs =
    if row.scope == program_base then map (archive_if (is_published_in p g program_base)) vs else vs

abbrev pub published_versions :
    ℤ → String → String → String → RuleVersion → List RuleVersion → List RuleVersion
published_versions now p g i row vs =
    update_first (λ v. v.id == i) (publish_at now) (archived_for p g row vs)

pub load_graph-stored : (i : String) (db : Db) → load_graph i db ≡ (ok (stored_graph db i), db)
unfolding load_graph ◌>>=◌
load_graph-stored i db = ground (arith, eq_refl i)

abbrev archive_for : String → String → RuleVersion → Tx (Unit {0})
archive_for p g row =
    if row.scope == program_base then archive_published_rule_versions p g program_base else pure tt

archive-after :
    (p g : String) (row : RuleVersion) (db db' : Db) (u : Unit {0})
    → archive_for p g row db ≡ (ok u, db')
    → db' ≡ record db { rule_versions = archived_for p g row db.rule_versions }
unfolding archive_published_rule_versions
archive-after p g row db db' u h = elim (Bool-cases (row.scope == program_base)) [
  | inl e ↦ rw e (ap (λ (r : Result (Unit {0}) × Db). r.1) (sym (rw e at h)))
  | inr e ↦ rw e (ap (λ (r : Result (Unit {0}) × Db). r.1) (sym (rw e at h)))
]

some_inj : {A : Type 0} (a b : A) → some a ≡ some b → a ≡ b
some_inj a b h = cc

publish_row-after :
    (now : ℤ) (i : String) (v : RuleVersion) (db db' : Db)
    → publish_rule_version_row now i db ≡ (ok v, db')
    → db' ≡ record db {
      rule_versions = update_first (λ w. w.id == i) (publish_at now) db.rule_versions;
    }
unfolding publish_rule_version_row
publish_row-after now i v db db' h =
    let (_, d₁, e₁, h₁) =
      >>=-eq-ok
        (λ (d : Db). pure tt (record d {
          rule_versions = update_first (λ w. w.id == i) (publish_at now) d.rule_versions;
        }))
        _ h in
    (query_row-eq-ok _ h₁).1 ∙ ap (λ (r : Result (Unit {0}) × Db). r.1) (sym e₁)

module _ (rt : Runtime) (order : RuleGraph → List String) where
  -- What a publication that succeeds has found, and has done.
  pub record Published (now : ℤ) (p g i : String) (db db' : Db) : Type 0 where
    pub row : RuleVersion
    pub found : find (is_version p g i) db.rule_versions ≡ some row
    pub drafted : row.status ≡ draft
    pub valid : validate_graph rt order (stored_graph db i) ≡ ok tt
    pub after :
        db' ≡ record db { rule_versions = published_versions now p g i row db.rule_versions }

  lock-found :
      (p g i : String) (db db' : Db) (s : RuleStatus)
      → lock_rule_version_status p g i db ≡ (ok s, db')
      → (row : RuleVersion) × (find (is_version p g i) db.rule_versions ≡ some row)
        × (row.status ≡ s)
        × (db' ≡ db)
  unfolding lock_rule_version_status
  lock-found p g i db db' s h =
      let (e, k) = query_row-eq-ok _ h in
      elim (Option-cases (find (is_version p g i) db.rule_versions)) [
        | inl n ↦ ground (arith, n, e)
        | inr (row, n) ↦ (row, n, ground (arith, n, e), k)
      ]

  publish_valid-after :
      (now : ℤ) (p g i : String) (row v : RuleVersion) (db db' : Db)
      → find (is_version p g i) db.rule_versions ≡ some row
      → publish_valid now p g i db ≡ (ok v, db')
      → db' ≡ record db { rule_versions = published_versions now p g i row db.rule_versions }
  unfolding publish_valid get_rule_version_row archive_published_rule_versions
  publish_valid-after now p g i row v db db' found h =
      let (meta, d₁, e₁, h₁) = >>=-eq-ok (get_rule_version_row p g i) _ h in
      let (u, d₂, e₂, h₂) =
        >>=-eq-ok
          (if meta.scope == program_base
            then archive_published_rule_versions p g program_base
            else pure tt)
          _ h₁ in
      let (e, k) = query_row-eq-ok _ e₁ in
      let same : meta ≡ row = some_inj meta row (sym e ∙ found) in
      let k₁ : d₂ ≡ record db { rule_versions = archived_for p g row db.rule_versions } =
        archive-after p g row db d₂ u
          (subst₂ (λ (m : RuleVersion) (d : Db). archive_for p g m d ≡ (ok u, d₂)) same k e₂) in
      publish_row-after now i v d₂ db' h₂
      ∙ ap
          (λ (d : Db). record d {
            rule_versions = update_first (λ w. w.id == i) (publish_at now) d.rule_versions;
          })
          k₁

  publish_for-Published :
      (now : ℤ) (p g i : String) (v : RuleVersion) (db db' : Db)
      → publish_for (validate_graph rt order) now p g i db ≡ (ok v, db')
      → Published now p g i db db'
  unfolding publish_for
  publish_for-Published now p g i v db db' h =
      let (s, d₁, e₁, h₁) = >>=-eq-ok (lock_rule_version_status p g i) _ h in
      let (is_draft, h₂) = fail_if-eq-ok _ _ _ h₁ in
      let (graph, d₃, e₃, h₃) = >>=-eq-ok (load_graph i) _ h₂ in
      let (_, d₄, e₄, h₄) = >>=-eq-ok (lift (validate_graph rt order graph)) _ h₃ in
      let (row, found, status, k₁) = lock-found p g i db d₁ s e₁ in
      let stored = sym e₃ ∙ load_graph-stored i d₁ in
      let k₃ : d₃ ≡ d₁ = ap (λ (r : Result RuleGraph × Db). r.1) stored in
      let loaded : graph ≡ stored_graph d₁ i = ground (arith, stored) in
      let (valid, k₄) = lift-eq-ok _ e₄ in
      let same : d₄ ≡ db = k₄ ∙ k₃ ∙ k₁ in
      record {
        row = row;
        found = found;
        drafted = status ∙ draft_only s is_draft;
        valid = rw (sym k₁, sym loaded) valid;
        after = publish_valid-after now p g i row v db db' found (rw same at h₄);
      }

  -- A publication that succeeds found its partner, which is active, and is a `Published` step.
  pub publish_rule_version-Published :
      (now : ℤ) (partner_key g i : String) (v : RuleVersion) (db db' : Db)
      → publish_rule_version rt order now partner_key g i db ≡ (ok v, db')
      → (partner : Partner) × (partner_by_key partner_key db ≡ (ok partner, db))
        × (ensure_active_status "partner" partner.status ≡ ok tt)
        × Published now partner.id g i db db'
  unfolding publish_rule_version
  publish_rule_version-Published now partner_key g i v db db' h =
      let (partner, d₁, e₁, h₁) = >>=-eq-ok (partner_by_key partner_key) _ (within_tx-eq-ok _ h) in
      let (_, d₂, e₂, h₂) = >>=-eq-ok (lift (ensure_active_status "partner" partner.status)) _ h₁ in
      let k₁ : d₁ ≡ db = partner_by_key-keeps partner_key db d₁ e₁ in
      let k₂ : d₂ ≡ db = (lift-eq-ok _ e₂).1 ∙ k₁ in
      (
        partner,
        subst (λ d. partner_by_key partner_key db ≡ (ok partner, d)) k₁ e₁,
        (lift-eq-ok _ e₂).0,
        publish_for-Published now partner.id g i v db db' (
            subst (λ d. publish_for (validate_graph rt order) now partner.id g i d ≡ (ok v, db')) k₂
              h₂),
      )

  pub publish_rule_version-err :
      (now : ℤ) (partner_key g i : String) (db : Db) (x : Error)
      → (publish_rule_version rt order now partner_key g i db).0 ≡ err x
      → (publish_rule_version rt order now partner_key g i db).1 ≡ db
  unfolding publish_rule_version
  publish_rule_version-err now partner_key g i db x e =
      within_tx-err _ (ap (λ r. (r, (publish_rule_version rt order now partner_key g i db).1)) e)
