-- ===== src/Processing/Cache.antt =====
-- `ruleGraphCache` of accts-api/application/services.go, and `loadPublishedRuleGraphs` of
-- reward_processing_service.go. The cache outlives the transactions, which do not roll it back, and
-- is shared by all requests: its content where an event is processed is an argument.
use mathlib.Core.Path.{fun_ext}
use paisa.Prelude.{
  String, ◌==◌, eq_iff, eq_refl, ◌≡◌, refl, sym, ap, ◌∙◌, inl, inr, Bool, true, false, none, some,
  List, [], ◌∷◌, All, All-mono, any, arith, Bool-cases, Option-cases, if◌then◌else◌,
}
use paisa.Domain.Rules.{RuleGraph}
use paisa.Db.Result.{ok}
use paisa.Db.State.{Db, Tx, pure, fail, ◌>>=◌}
use paisa.Db.Inversion.{>>=-run}
use paisa.Db.Frame.{Keeps, >>=-Keeps, if-Keeps}
use paisa.Programs.Graph.{Graphs, stored_graph, graph_not_found, load_graphs}

-- The two results of `getMany`.
abbrev pub found_of : Graphs → List String → Graphs
found_of cache ids id = if any (λ i. i == id) ids then cache id else none

abbrev pub missing_of : Graphs → List String → List String
missing_of cache [] = []
missing_of cache (id ∷ ids) =
    let rest = missing_of cache ids in elim (cache id) [ some _ ↦ rest | none ↦ id ∷ rest ]

-- `getMany`
unfoldable pub get_many : Graphs → List String → Graphs × List String
get_many cache ids = (found_of cache ids, missing_of cache ids)

-- `putMany`, and the loop that adds what was loaded to what was found.
unfoldable pub put_many : Graphs → Graphs → Graphs
put_many cache graphs id = elim (graphs id) [ some graph ↦ some graph | none ↦ cache id ]

abbrev pub all_there : Graphs → List String → Bool
all_there graphs [] = true
all_there graphs (id ∷ ids) =
    let rest = all_there graphs ids in elim (graphs id) [ some _ ↦ rest | none ↦ false ]

-- The steps of `loadPublishedRuleGraphs` after `getMany`.
unfoldable pub load_missing : Graphs → List String → List String → Tx Graphs
load_missing found ids [] = pure found
load_missing found ids (id ∷ rest) = do
  loaded ← load_graphs (id ∷ rest)
  let graphs = put_many found loaded
  (if all_there graphs ids then pure graphs else fail graph_not_found)

-- `loadPublishedRuleGraphs`; what it leaves in the cache is `cache_after`.
unfoldable pub load_published_rule_graphs : Graphs → List String → Tx Graphs
unfolding get_many
load_published_rule_graphs cache ids =
    let (found, missing) = get_many cache ids in load_missing found ids missing

unfoldable pub cache_after : Graphs → List String → Db → Graphs
unfolding put_many
cache_after cache ids db =
    put_many cache
      (λ id. if any (λ i. i == id) (missing_of cache ids) then some (stored_graph db id) else none)

-- The graphs that the cache has are those that the database has.
abbrev pub IsCoherent : Db → Graphs → Type 0
IsCoherent db cache =
    (id : String) (graph : RuleGraph) → cache id ≡ some graph → graph ≡ stored_graph db id

-- The graphs of some versions, straight from the database.
abbrev pub direct : Db → List String → Graphs
direct db ids id = if any (λ i. i == id) ids then some (stored_graph db id) else none

pub cache_after-IsCoherent :
    (db : Db) (cache : Graphs) (ids : List String)
    → IsCoherent db cache
    → IsCoherent db (cache_after cache ids db)
unfolding cache_after
cache_after-IsCoherent db cache ids h id graph e =
    elim (Bool-cases (any (λ i. i == id) (missing_of cache ids))) [
      | inl t ↦ ground (arith, t, e)
      | inr t ↦ h id graph (ground (arith, t, e))
    ]

-- What was loaded is coherent.
pub direct-IsCoherent : (db : Db) (ids : List String) → IsCoherent db (direct db ids)
direct-IsCoherent db ids id graph e = elim (Bool-cases (any (λ i. i == id) ids)) [
  | inl t ↦ ground (arith, t, e)
  | inr t ↦ ground (arith, t, e)
]

missing-any :
    (cache : Graphs) (ids : List String) (id : String)
    → cache id ≡ none
    → any (λ i. i == id) (missing_of cache ids) ≡ any (λ i. i == id) ids
missing-any cache [] id e = refl
missing-any cache (i ∷ is) id e = elim (Option-cases (cache i)) [
  | inl n ↦ ground (arith, n, missing-any cache is id e)
  | inr (g, n) ↦ elim (Bool-cases (i == id)) [
    | inl same ↦
        let clash : none ≡ some g = sym e ∙ ap cache (sym ((eq_iff i id).0 same)) ∙ n in
        absurd (ground (arith, clash))
    | inr other ↦ ground (arith, n, other, missing-any cache is id e)
  ]
]

missing-sub :
    (cache : Graphs) (ids : List String) (id : String)
    → any (λ i. i == id) (missing_of cache ids) ≡ true
    → any (λ i. i == id) ids ≡ true
missing-sub cache [] id h = h
missing-sub cache (i ∷ is) id h = elim (Option-cases (cache i)) [
  | inl n ↦ ground (arith, n, h, missing-sub cache is id)
  | inr (g, n) ↦ ground (arith, n, h, missing-sub cache is id)
]

direct-in :
    (db : Db) (ids : List String) (id : String)
    → any (λ i. i == id) ids ≡ true
    → direct db ids id ≡ some (stored_graph db id)
direct-in db ids id h = ap (λ b. if b then some (stored_graph db id) else none) h

direct-out :
    (db : Db) (ids : List String) (id : String)
    → any (λ i. i == id) ids ≡ false
    → direct db ids id ≡ none
direct-out db ids id h = ap (λ b. if b then some (stored_graph db id) else none) h

put-some :
    (cache graphs : Graphs) (id : String) (g : RuleGraph)
    → graphs id ≡ some g
    → put_many cache graphs id ≡ some g
unfolding put_many
put-some cache graphs id g h = ground (arith, h)

put-none :
    (cache graphs : Graphs) (id : String) → graphs id ≡ none → put_many cache graphs id ≡ cache id
unfolding put_many
put-none cache graphs id h = ground (arith, h)

merged :
    (db : Db) (cache : Graphs) (ids : List String) (id : String)
    → IsCoherent db cache
    → put_many (found_of cache ids) (direct db (missing_of cache ids)) id ≡ direct db ids id
merged db cache ids id h =
    let missing = missing_of cache ids in
    elim (Bool-cases (any (λ i. i == id) missing)) [
      | inl t ↦
          put-some (found_of cache ids) (direct db missing) id (stored_graph db id)
            (direct-in db missing id t)
          ∙ sym (direct-in db ids id (missing-sub cache ids id t))
      | inr t ↦
          put-none (found_of cache ids) (direct db missing) id (direct-out db missing id t)
          ∙ elim (Option-cases (cache id)) [
            | inl n ↦
                let out : any (λ i. i == id) ids ≡ false = sym (missing-any cache ids id n) ∙ t in
                ap (λ b. if b then cache id else none) out ∙ sym (direct-out db ids id out)
            | inr (g, n) ↦
                ap (λ o. if any (λ i. i == id) ids then o else none) (n ∙ ap some (h id g n))
          ]
    ]

all_there-direct :
    (db : Db) (all ids : List String)
    → All (λ id. any (λ i. i == id) all ≡ true) ids
    → all_there (direct db all) ids ≡ true
all_there-direct db all [] h = refl
all_there-direct db all (id ∷ ids) h =
    ground (arith, direct-in db all id h.0, all_there-direct db all ids h.1)

any_self : (ids : List String) → All (λ id. any (λ i. i == id) ids ≡ true) ids
any_self [] = tt
any_self (id ∷ ids) = (
  rw (eq_refl id) refl,
  All-mono (λ j. any (λ i. i == j) ids ≡ true) (λ j. any (λ i. i == j) (id ∷ ids) ≡ true)
      (λ j h. ground (arith, h)) ids (any_self ids),
)

load_graphs-direct : (db : Db) (ids : List String) → load_graphs ids db ≡ (ok (direct db ids), db)
unfolding load_graphs
load_graphs-direct db ids = refl

load_missing-direct :
    (db : Db) (found : Graphs) (ids missing : List String)
    → put_many found (direct db missing) ≡ direct db ids
    → load_missing found ids missing db ≡ (ok (direct db ids), db)
unfolding load_missing put_many
load_missing-direct db found ids [] whole = ap (λ (graphs : Graphs). (ok graphs, db)) whole
load_missing-direct db found ids (id ∷ rest) whole =
    >>=-run (load_graphs (id ∷ rest)) _ (load_graphs-direct db (id ∷ rest))
    ∙ ap
        (λ (graphs : Graphs).
          (if all_there graphs ids then pure graphs else fail graph_not_found) db)
        whole
    ∙ ap (λ b. (if b then pure (direct db ids) else fail graph_not_found) db)
        (all_there-direct db ids ids (any_self ids))

-- With a cache whose graphs are those of the database, the graphs that processing gets are those
-- that it would load from the database without a cache, and none is missing.
pub load_published_rule_graphs-direct :
    (db : Db) (cache : Graphs) (ids : List String)
    → IsCoherent db cache
    → load_published_rule_graphs cache ids db ≡ (ok (direct db ids), db)
unfolding load_published_rule_graphs
load_published_rule_graphs-direct db cache ids h =
    load_missing-direct db (found_of cache ids) ids (missing_of cache ids)
      (fun_ext (λ id. merged db cache ids id h))

module _ {B : Type 0} (part : Db → B) where
  load_missing-Keeps :
      (found : Graphs) (ids missing : List String) → Keeps part (load_missing found ids missing)
  unfolding load_missing load_graphs
  load_missing-Keeps found ids [] = λ _. refl
  load_missing-Keeps found ids (id ∷ rest) =
      >>=-Keeps part (load_graphs (id ∷ rest)) _ (λ _. refl)
        (λ loaded. if-Keeps part _ (pure _) (fail graph_not_found) (λ _. refl) (λ _. refl))

  -- Loading reads only.
  pub load_published_rule_graphs-Keeps :
      (cache : Graphs) (ids : List String) → Keeps part (load_published_rule_graphs cache ids)
  unfolding load_published_rule_graphs
  load_published_rule_graphs-Keeps cache ids =
      load_missing-Keeps (found_of cache ids) ids (missing_of cache ids)
