-- ===== src/Programs/Versions.antt =====
-- The table program_rule_versions under the updates of a publication.
use paisa.Prelude.{
  ℕ, String, ◌==◌, eq_iff, eq_refl, suc, ◌≤◌, ◌≡◌, refl, inl, inr, Bool, true, false, some, List,
  [], ◌∷◌, map, length, any, find, find-passes, keep, update_first, arith, Bool-cases,
}
use paisa.Domain.Constants.{program_base, archived}
use paisa.Domain.Programs.{RuleVersion}
use paisa.Programs.Store.{is_version, version_clashes, is_published_in, archive_if}

-- No two rows have the same key.
abbrev pub IsKeyed : List RuleVersion → Type 0
IsKeyed [] = Unit
IsKeyed (v ∷ vs) = (any (version_clashes v) vs ≡ false) × IsKeyed vs

-- The number of published versions of a program's own rules.
abbrev pub base_published : String → String → List RuleVersion → ℕ
base_published p g vs = length (keep (is_published_in p g program_base) vs)

any-false-find :
    {A : Type 0} (q p : A → Bool) (xs : List A) (x : A)
    → any q xs ≡ false
    → find p xs ≡ some x
    → q x ≡ false
any-false-find q p [] x h e = cc
any-false-find q p (y ∷ ys) x h e = ground (arith, any-false-find q p ys x)

clash_of_id :
    (v w : RuleVersion) (i : String)
    → (v.id == i) ≡ true
    → (w.id == i) ≡ true
    → version_clashes v w ≡ true
clash_of_id v w i e k = ground (arith, (eq_iff v.id i).0 e, (eq_iff w.id i).0 k, eq_refl i)

pub find_by_id :
    (p g i : String) (vs : List RuleVersion) (v : RuleVersion)
    → IsKeyed vs
    → find (is_version p g i) vs ≡ some v
    → find (λ w. w.id == i) vs ≡ some v
find_by_id p g i [] v keyed e = cc
find_by_id p g i (w ∷ vs) v keyed e = elim (Bool-cases (is_version p g i w)) [
  | inl t ↦ ground (arith, t, e)
  | inr t ↦
      let found : find (is_version p g i) vs ≡ some v = ground (arith, t, e) in
      let no_clash = any-false-find (version_clashes w) (is_version p g i) vs v keyed.0 found in
      let passes = find-passes (is_version p g i) vs v found in
      elim (Bool-cases (w.id == i)) [
        | inl same ↦ ground (arith, clash_of_id w v i same, passes, no_clash)
        | inr other ↦ ground (arith, other, find_by_id p g i vs v keyed.1 found)
      ]
]

-- A change of a row that keeps its key.
abbrev pub KeepsKey : (RuleVersion → RuleVersion) → Type 0
KeepsKey f =
    (v : RuleVersion)
    → ((f v).id ≡ v.id)
      × ((f v).program_id ≡ v.program_id)
      × ((f v).scope ≡ v.scope)
      × ((f v).version ≡ v.version)

module _ (f : RuleVersion → RuleVersion) (same : KeepsKey f) where
  any-map :
      (v : RuleVersion) (vs : List RuleVersion)
      → any (version_clashes (f v)) (map f vs) ≡ any (version_clashes v) vs
  any-map v [] = refl
  any-map v (w ∷ vs) = ground (arith, same v, same w, any-map v vs)

  pub map-IsKeyed : (vs : List RuleVersion) → IsKeyed vs → IsKeyed (map f vs)
  map-IsKeyed [] k = tt
  map-IsKeyed (v ∷ vs) k = (ground (arith, any-map v vs, k.0), map-IsKeyed vs k.1)

  any-update :
      (t : RuleVersion → Bool) (v : RuleVersion) (vs : List RuleVersion)
      → any (version_clashes v) (update_first t f vs) ≡ any (version_clashes v) vs
  any-update t v [] = refl
  any-update t v (w ∷ vs) = ground (arith, same w, any-update t v vs)

  pub update-IsKeyed :
      (t : RuleVersion → Bool) (vs : List RuleVersion) → IsKeyed vs → IsKeyed (update_first t f vs)
  update-IsKeyed t [] k = tt
  update-IsKeyed t (v ∷ vs) k = elim (Bool-cases (t v)) [
    | inl e ↦ ground (arith, e, k, same v)
    | inr e ↦ ground (arith, e, any-update t v vs, k.0, update-IsKeyed t vs k.1)
  ]

archived_unpublished :
    (p g s : String) (v : RuleVersion)
    → is_published_in p g s (record v { status = archived }) ≡ false
archived_unpublished p g s v = ground arith

module _ (p g : String) where
  -- Archiving the program's own versions leaves none of them published.
  pub archived_base :
      (vs : List RuleVersion)
      → base_published p g (map (archive_if (is_published_in p g program_base)) vs) ≡ 0
  archived_base [] = refl
  archived_base (v ∷ vs) = ground (arith, archived_base vs)

  pub archived_other :
      (q h : String) (vs : List RuleVersion)
      → base_published p g (map (archive_if (is_published_in q h program_base)) vs)
        ≤ base_published p g vs
  archived_other q h [] = omega arith
  archived_other q h (v ∷ vs) = elim (Bool-cases (is_published_in q h program_base v)) [
    | inl e ↦
        rw (e, archived_unpublished p g program_base v) (ground (arith, archived_other q h vs))
    | inr e ↦ rw e (elim (Bool-cases (is_published_in p g program_base v)) [
      | inl k ↦ rw k (omega (arith, archived_other q h vs))
      | inr k ↦ rw k (archived_other q h vs)
    ])
  ]

module _ (r : RuleVersion → Bool) (t : RuleVersion → Bool) (f : RuleVersion → RuleVersion) where
  -- One update adds at most one row to those that pass a test.
  pub update_adds_one :
      (vs : List RuleVersion) → length (keep r (update_first t f vs)) ≤ suc (length (keep r vs))
  update_adds_one [] = omega arith
  update_adds_one (v ∷ vs) = ground (arith, update_adds_one vs)

  pub update_adds_none :
      (vs : List RuleVersion) (v : RuleVersion)
      → find t vs ≡ some v
      → r (f v) ≡ false
      → length (keep r (update_first t f vs)) ≤ length (keep r vs)
  update_adds_none [] v e h = omega arith
  update_adds_none (w ∷ vs) v e h = ground (arith, update_adds_none vs v)
