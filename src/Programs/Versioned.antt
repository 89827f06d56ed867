-- ===== src/Programs/Versioned.antt =====
-- The invariant of the versions: keys are unique, and a program has at most one published version
-- of its own rules. The operations of accts-api/application/program_service.go keep it.
use mathlib.Core.Path.{subst, subst₂}
use paisa.Prelude.{
  String, ◌==◌, eq_iff, ◌≤◌, ◌≡◌, refl, ap, sym, ◌∙◌, inl, inr, Bool, true, false, some, List, [],
  ◌∷◌, map, find, find-passes, arith, Bool-cases,
}
use paisa.Prelude.Int.{ℤ}
use paisa.Domain.Constants.{program_base}
use paisa.Domain.Config.{Runtime}
use paisa.Domain.Rules.{RuleGraph}
use paisa.Domain.Programs.{RuleVersion}
use paisa.Db.Result.{Result-cases}
use paisa.Db.State.{Db}
use paisa.Programs.Store.{is_version, is_published_in, archive_if, publish_at}
use paisa.Programs.Versions.{
  IsKeyed, base_published, find_by_id, map-IsKeyed, update-IsKeyed, archived_base, archived_other,
  update_adds_one, update_adds_none,
}
use paisa.Programs.Publishing.{
  archived_for, published_versions, publish_rule_version-Published, publish_rule_version-err,
}
use paisa.Programs.Service.{publish_rule_version}

pub record IsVersioned (vs : List RuleVersion) : Type 0 where
  pub keyed : IsKeyed vs
  pub single : (p g : String) → base_published p g vs ≤ 1

module _ (now : ℤ) (p g i : String) (row : RuleVersion) (vs : List RuleVersion)
    (found : find (is_version p g i) vs ≡ some row) (keyed : IsKeyed vs) where
  of_base :
      (row.scope == program_base) ≡ true
      → archived_for p g row vs ≡ map (archive_if (is_published_in p g program_base)) vs
  of_base e = rw e refl

  of_add_on : (row.scope == program_base) ≡ false → archived_for p g row vs ≡ vs
  of_add_on e = rw e refl

  archived_for-IsKeyed : IsKeyed (archived_for p g row vs)
  archived_for-IsKeyed = elim (Bool-cases (row.scope == program_base)) [
    | inl e ↦
        rw e
          (map-IsKeyed (archive_if (is_published_in p g program_base)) (λ v. ground arith) vs keyed)
    | inr e ↦ rw e keyed
  ]

  published_versions-IsKeyed : IsKeyed (published_versions now p g i row vs)
  published_versions-IsKeyed =
      update-IsKeyed (publish_at now) (λ v. (refl, refl, refl, refl)) (λ v. v.id == i) _
        archived_for-IsKeyed

  find-map :
      (t : RuleVersion → Bool) (f : RuleVersion → RuleVersion) (ws : List RuleVersion)
      → ((w : RuleVersion) → t (f w) ≡ t w)
      → find t ws ≡ some row
      → find t (map f ws) ≡ some (f row)
  find-map t f [] same e = cc
  find-map t f (w ∷ ws) same e = ground (arith, same w, find-map t f ws same)

  passes : is_version p g i row ≡ true
  passes = find-passes (is_version p g i) vs row found

  -- The row that the publication changes, with the key of the one that it read.
  pub changed :
      (w : RuleVersion) × (find (λ v. v.id == i) (archived_for p g row vs) ≡ some w)
      × (w.partner_id ≡ p)
      × (w.program_id ≡ g)
      × (w.scope ≡ row.scope)
  changed =
      let by_id = find_by_id p g i vs row keyed found in
      let partner = (eq_iff row.partner_id p).0 (ground (arith, passes)) in
      let program = (eq_iff row.program_id g).0 (ground (arith, passes)) in
      elim (Bool-cases (row.scope == program_base)) [
        | inl e ↦ (
          archive_if (is_published_in p g program_base) row,
          subst
              (λ ws.
                find (λ v. v.id == i) ws ≡ some (archive_if (is_published_in p g program_base) row))
              (sym (of_base e))
              (find-map (λ v. v.id == i) (archive_if (is_published_in p g program_base)) vs
                (λ w. ground arith) by_id),
          ground (arith, partner),
          ground (arith, program),
          ground arith,
        )
        | inr e ↦ (
          row,
          subst (λ ws. find (λ v. v.id == i) ws ≡ some row) (sym (of_add_on e)) by_id,
          partner,
          program,
          refl,
        )
      ]

  archived_for-single :
      (q h : String) → base_published q h (archived_for p g row vs) ≤ base_published q h vs
  archived_for-single q h = elim (Bool-cases (row.scope == program_base)) [
    | inl e ↦ rw (of_base e) (archived_other q h p g vs)
    | inr e ↦ rw (of_add_on e) (omega arith)
  ]

  published_versions-single :
      ((q h : String) → base_published q h vs ≤ 1)
      → (q h : String) → base_published q h (published_versions now p g i row vs) ≤ 1
  published_versions-single single q h =
      let (w, at, partner, program, scope) = changed in
      let r = is_published_in q h program_base in
      let f = publish_at now in
      let ws = archived_for p g row vs in
      elim (Bool-cases (r (f w))) [
        | inr unlike ↦ omega (
          arith,
          update_adds_none r (λ v. v.id == i) f ws w at unlike,
          archived_for-single q h,
          single q h,
        )
        | inl is_base ↦
            let base : (row.scope == program_base) ≡ true =
              rw (sym scope) (ground (arith, is_base)) in
            let same_p : p ≡ q =
              sym partner ∙ (eq_iff w.partner_id q).0 (ground (arith, is_base)) in
            let same_g : g ≡ h =
              sym program ∙ (eq_iff w.program_id h).0 (ground (arith, is_base)) in
            let none_left : base_published q h ws ≡ 0 =
              subst₂ (λ a b. base_published a b ws ≡ 0) same_p same_g
                (ap (base_published p g) (of_base base) ∙ archived_base p g vs) in
            omega (arith, update_adds_one r (λ v. v.id == i) f ws, none_left)
      ]

module _ (rt : Runtime) (order : RuleGraph → List String) where
  -- From versions with the invariant, a publication leaves versions with it, whatever its outcome.
  pub publish_rule_version-IsVersioned :
      (now : ℤ) (partner_key g i : String) (db : Db)
      → IsVersioned db.rule_versions
      → IsVersioned (publish_rule_version rt order now partner_key g i db).1.rule_versions
  publish_rule_version-IsVersioned now partner_key g i db inv =
      let q = publish_rule_version rt order now partner_key g i db in
      elim (Result-cases q.0) [
        | inr (x, e) ↦ rw (publish_rule_version-err rt order now partner_key g i db x e) inv
        | inl (v, e) ↦
            let (partner, _, _, h) =
              publish_rule_version-Published rt order now partner_key g i v db q.1
                (ap (λ r. (r, q.1)) e) in
            subst IsVersioned (sym (ap (λ (d : Db). d.rule_versions) h.after)) (record {
              keyed =
                  published_versions-IsKeyed now partner.id g i h.row db.rule_versions h.found
                    inv.keyed;
              single =
                  published_versions-single now partner.id g i h.row db.rule_versions h.found
                    inv.keyed inv.single;
            })
      ]
