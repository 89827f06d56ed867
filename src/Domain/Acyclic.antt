-- ===== src/Domain/Acyclic.antt =====
-- `validateDependencies` and `ValidateNoDependencyCycles` of accts-api/domain/rules.go together.
use paisa.Prelude.{
  String, ◌==◌, eq_iff, ◌≡◌, ◌≢◌, refl, inl, inr, ℕ, zero, suc, ◌≤◌, ◌<◌, length, Option, some,
  List, [], ◌∷◌, All, keep, eqb, arith, Bool-cases, Option-cases,
}
use paisa.Prelude.Int.{ℤ, ◌<ℤ◌, ltb_ℤ, int_laws}
use paisa.Domain.Rules.{
  RuleGraphGroup, RuleGraphRule, RuleGraphDependency, RuleMap, rules_by_id, check_dependency,
  validate_dependencies,
}
use paisa.Domain.Publish.{
  Marks, mark, edges, visit_all, close, visit, check_known, validate_no_dependency_cycles,
}
use paisa.Db.Result.{Result, ok, all_ok, Result-cases}

-- The rules whose priority is less than `p`.
abbrev rank : List RuleGraphRule → ℤ → ℕ
rank rules p = length (keep (λ r. ltb_ℤ r.priority p) rules)

rank-length : (rules : List RuleGraphRule) (p : ℤ) → rank rules p ≤ length rules
rank-length [] p = omega arith
rank-length (r ∷ rs) p = ground (arith, rank-length rs p)

rank-≤ : (rules : List RuleGraphRule) (p q : ℤ) → p <ℤ q → rank rules p ≤ rank rules q
rank-≤ [] p q h = omega arith
rank-≤ (r ∷ rs) p q h = ground (arith, rank-≤ rs p q h)

-- The rule itself counts for a greater priority, not for its own.
rank-< :
    (rules : List RuleGraphRule) (id : String) (r : RuleGraphRule) (q : ℤ)
    → rules_by_id rules id ≡ some r
    → r.priority <ℤ q
    → rank rules r.priority < rank rules q
rank-< [] id r q e h = cc
rank-< (s ∷ rs) id r q e h = elim (Option-cases (rules_by_id rs id)) [
  | inl n ↦
      let same : s ≡ r = ground (arith, e, n) in ground (arith, same, rank-≤ rs r.priority q h)
  | inr (t, n) ↦ ground (arith, rank-< rs id r q (ground (arith, e, n)) h)
]

-- `x` and `id` are rules, and `x` comes first.
abbrev Before : RuleMap → String → String → Type 0
Before rules id x =
    (r : RuleGraphRule) × (q : RuleGraphRule) × (rules id ≡ some r)
    × (rules x ≡ some q)
    × (q.priority <ℤ r.priority)

check_dependency-Before :
    (rules : RuleMap) (groups : List RuleGraphGroup) (d : RuleGraphDependency) (r : RuleGraphRule)
    → check_dependency rules groups d ≡ ok tt
    → rules d.rule_id ≡ some r
    → Before rules d.rule_id d.depends_on_rule_id
check_dependency-Before rules groups d r h e = elim (Option-cases (rules d.depends_on_rule_id)) [
  | inl n ↦ ground (arith, h, e, n)
  | inr (q, n) ↦ (r, q, e, n, ground (arith, h, e, n))
]

edges-Before :
    (rules : RuleMap) (groups : List RuleGraphGroup) (deps : List RuleGraphDependency)
    → all_ok (check_dependency rules groups) deps ≡ ok tt
    → (id : String) → All (Before rules id) (edges rules deps id)
edges-Before rules groups [] h id = tt
edges-Before rules groups (d ∷ ds) h id = elim (Result-cases (check_dependency rules groups d)) [
  | inr (x, e) ↦ ground (arith, h, e)
  | inl (u, e) ↦
      let rest = edges-Before rules groups ds (ground (arith, h, e)) id in
      elim (Option-cases (rules d.rule_id)) [
        | inl n ↦ ground (arith, n, rest)
        | inr (r, n) ↦ elim (Bool-cases (d.rule_id == id)) [
          | inl t ↦ ground (
            arith,
            n,
            t,
            rest,
            (eq_iff d.rule_id id).0 t,
            check_dependency-Before rules groups d r e n,
          )
          | inr f ↦ ground (arith, n, f, rest)
        ]
      ]
]

module _ (rules : List RuleGraphRule) (graph : String → List String) where
  -- Every rule on the path comes after `id`.
  abbrev Clear : String → Marks → Type 0
  Clear id s = (g : String) → s g ≡ 1 → Before (rules_by_id rules) g id

  -- A visit succeeds, and leaves no rule on the path that was not there.
  abbrev Visited : Marks → Option (Result Marks) → Type 0
  Visited s o = (s' : Marks) × (o ≡ some (ok s')) × ((g : String) → s' g ≡ 1 → s g ≡ 1)

  visit_all-Visited :
      (f : String → Marks → Option (Result Marks)) (id : String) (xs : List String) (s : Marks)
      → ((x : String) (t : Marks) → Before (rules_by_id rules) id x → Clear x t → Visited t (f x t))
      → ((x : String) → Before (rules_by_id rules) id x → Clear x s)
      → All (Before (rules_by_id rules) id) xs
      → Visited s (visit_all f xs s)
  visit_all-Visited f id [] s k c h = (s, refl, λ g e. e)
  visit_all-Visited f id (x ∷ xs) s k c h =
      let (s', e, w) = k x s h.0 (c x h.0) in
      let (t, e', w') = visit_all-Visited f id xs s' k (λ y b g m. c y b g (w g m)) h.1 in
      (t, ground (arith, e, e'), λ g m. w g (w' g m))

  abbrev Enough : ℕ → String → Type 0
  Enough n id =
      (0 < n) × ((r : RuleGraphRule) → rules_by_id rules id ≡ some r → rank rules r.priority < n)

  Enough-Before :
      (n : ℕ) (id x : String) → Enough (suc n) id → Before (rules_by_id rules) id x → Enough n x
  Enough-Before n id x m (r, q, e, e', h) =
      let less = rank-< rules x q r.priority e' h in
      let below = m.1 r e in
      (
        omega (arith, less, below),
        λ q' e''.
            let same : q' ≡ q = ground (arith, e', e'') in rw same (omega (arith, less, below)),
      )

  Clear-not_marked : (id : String) (s : Marks) → Clear id s → s id ≡ 1 → ⊥
  Clear-not_marked id s c e =
      let (r, q, f, g, h) = c id e in
      let same : r ≡ q = ground (arith, f, g) in omega (arith, rw same at h)

  mark-Clear :
      (id x : String) (s : Marks)
      → Clear id s
      → Before (rules_by_id rules) id x
      → Clear x (mark id 1 s)
  mark-Clear id x s c b g e = elim (Bool-cases (g == id)) [
    | inl t ↦ rw ((eq_iff g id).0 t) b
    | inr f ↦
        let (r, q, e₁, e₂, h) = c g (ground (arith, e, f)) in
        let (r', q', e₃, e₄, h') = b in
        let same : r' ≡ q = ground (arith, e₂, e₃) in
        (r, q', e₁, e₄, omega (int_laws, h, rw same at h'))
  ]

  close-Visited :
      (id : String) (s : Marks) (o : Option (Result Marks))
      → Visited (mark id 1 s) o
      → Visited s (close id o)
  close-Visited id s o (s', e, w) = (mark id 2 s', ground (arith, e), λ g m. ground (arith, w g))

  visit-Visited :
      ((x : String) → All (Before (rules_by_id rules) x) (graph x))
      → (n : ℕ) (id : String) (s : Marks) → Enough n id
      → Clear id s
      → Visited s (visit n graph id s)
  unfolding visit
  visit-Visited valid zero id s m c = absurd (omega (arith, m.0))
  visit-Visited valid (suc n) id s m c =
      let deeper = close-Visited id s _ (
        visit_all-Visited (visit n graph) id (graph id) (mark id 1 s)
          (λ x t b d. visit-Visited valid n x t (Enough-Before n id x m b) d)
          (λ x b. mark-Clear id x s c b) (valid id)) in
      let clear = Clear-not_marked id s c in
      elim (Bool-cases (eqb (s id) 1)) [
        | inl t ↦ absurd (clear (ground (arith, t)))
        | inr f ↦ elim (Bool-cases (eqb (s id) 2)) [
          | inl t ↦ (s, ground (arith, f, t), λ g e. e)
          | inr f' ↦ (deeper.0, ground (arith, f, f', deeper.1), deeper.2)
        ]
      ]

  -- From no rule on a path, any rules can be visited.
  visits :
      ((x : String) → All (Before (rules_by_id rules) x) (graph x))
      → (xs : List String) (s : Marks) → ((g : String) → s g ≢ 1)
      → Visited s (visit_all (visit (suc (length rules)) graph) xs s)
  visits valid [] s none_on = (s, refl, λ g e. e)
  visits valid (x ∷ xs) s none_on =
      let enough : Enough (suc (length rules)) x =
        (omega arith, λ r e. omega (arith, rank-length rules r.priority)) in
      let (s', e, w) =
        visit-Visited valid (suc (length rules)) x s enough (λ g m. absurd (none_on g m)) in
      let (t, e', w') = visits valid xs s' (λ g m. none_on g (w g m)) in
      (t, ground (arith, e, e'), λ g m. w g (w' g m))

check_known-ok :
    (rules : RuleMap) (groups : List RuleGraphGroup) (deps : List RuleGraphDependency)
    → all_ok (check_dependency rules groups) deps ≡ ok tt
    → all_ok (check_known rules) deps ≡ ok tt
check_known-ok rules groups [] h = refl
check_known-ok rules groups (d ∷ ds) h = elim (Result-cases (check_dependency rules groups d)) [
  | inr (x, e) ↦ ground (arith, h, e)
  | inl (u, e) ↦
      let rest = check_known-ok rules groups ds (ground (arith, h, e)) in
      elim (Option-cases (rules d.rule_id)) [
        | inl n ↦ ground (arith, n, rest)
        | inr (r, n) ↦
            let (_, q, _, e', _) = check_dependency-Before rules groups d r e n in
            ground (arith, n, e', rest)
      ]
]

-- When the dependencies pass their own check, by which they point backward in the order of
-- priorities, the search for cycles ends within its fuel and finds none, whatever order it takes
-- the rules in.
pub no_cycles :
    (groups : List RuleGraphGroup) (rules : List RuleGraphRule) (deps : List RuleGraphDependency)
    → validate_dependencies (rules_by_id rules) groups deps ≡ ok tt
    → (order : List String) → validate_no_dependency_cycles order rules deps ≡ some (ok tt)
unfolding validate_dependencies validate_no_dependency_cycles
no_cycles groups rules deps h order =
    let known = rules_by_id rules in
    let graph = edges known deps in
    let valid = edges-Before known groups deps h in
    let (s', e, _) = visits rules graph valid order (λ id. 0) (λ g. omega arith) in
    ground (arith, check_known-ok known groups deps h, e)
