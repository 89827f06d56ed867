-- ===== src/Processing/Counts.antt =====
-- The result of `ProcessTransactionEvents` of
-- accts-api/application/reward_processing_service.go.
use paisa.Prelude.Int.{ℤ}
use paisa.Domain.Errors.{Error}
use paisa.Ledger.Reconciled.{books}
use paisa.Db.Inversion.{within_tx-err}
use paisa.Db.Result.{Result-cases}
use paisa.Processing.Balanced.{after_failure-db}
use paisa.Processing.Once.{failure-books}
use paisa.Processing.Service.{at_time, attempt, with_lines, record_failure, after_failure}
use paisa.Domain.Transactions.{TransactionRow}
use paisa.Processing.Store.{Arrange}
use paisa.Prelude.{
  length-map, inl, inr, ℕ, zero, suc, ◌+◌, ◌≤◌, ◌≡◌, refl, ap, ◌∙◌, List, [], ◌∷◌, length, map,
  arith,
}
use paisa.Db.Result.{Result, ok, err}
use paisa.Db.State.{Db, within_tx}
use paisa.Db.Inversion.{>>=-run}
use paisa.Programs.Graph.{Graphs}
use paisa.Processing.Store.{
  ProcessingEventBundle, bundle_of, take, claimed, claim, claim_and_load_accepted_transactions,
}
use paisa.Processing.Service.{
  EventIds, Setting, ProcessTransactionEventsResult, count_one, process_one_event, process_bundles,
  process_transaction_events,
}

take-bound : {A : Type 0} (n : ℕ) (xs : List A) → length (take n xs) ≤ n
take-bound zero xs = omega arith
take-bound (suc n) [] = omega arith
take-bound (suc n) (x ∷ xs) = ground (arith, take-bound n xs)

abbrev total : ProcessTransactionEventsResult → ℕ
total r = r.processed + r.failed

count_one-total :
    (r : Result (Unit {0})) (t : ProcessTransactionEventsResult)
    → total (count_one r t) ≡ suc (total t)
count_one-total (ok _) t = omega arith
count_one-total (err _) t = omega arith

module _ (s : Setting) (cache : Graphs) where
  -- An event whose processing fails leaves the ledger as it was.
  process_one_event-failed :
      (ids : EventIds) (bundle : ProcessingEventBundle) (db : Db) (e : Error)
      → (process_one_event s cache ids bundle db).0 ≡ err e
      → books (process_one_event s cache ids bundle db).1 ≡ books db
  unfolding process_one_event attempt
  process_one_event-failed ids bundle db e h =
      let event = with_lines s cache bundle in
      let q = attempt s cache ids event db in
      elim (Result-cases q.0) [
        | inl (u, k) ↦ absurd (ground (arith, k, h))
        | inr (x, k) ↦
            let undone : q.1 ≡ db = within_tx-err _ (ap (λ r. (r, q.1)) k) in
            let after = record_failure s cache ids event x q.1 in
            let run : process_one_event s cache ids bundle db ≡ after_failure s cache x after =
              ground (arith, k) in
            ap (λ (r : Result (Unit {0}) × Db). books r.1) run
            ∙ ap books (after_failure-db s cache x after)
            ∙ failure-books s cache ids event x q.1
            ∙ ap books undone
      ]

module _ (s : Setting) where
  process_bundles-total :
      (caches : ℕ → Graphs) (ids : ℕ → EventIds) (nows : ℕ → ℤ) (index : ℕ)
      (bundles : List ProcessingEventBundle) (db : Db)
      → total (process_bundles s caches ids nows index bundles db).0 ≡ length bundles
  unfolding process_bundles
  process_bundles-total caches ids nows index [] db = refl
  process_bundles-total caches ids nows index (b ∷ bs) db =
      count_one-total (process_one_event (at_time s (nows index)) (caches index) (ids index) b db).0
        _
      ∙ ap suc (process_bundles-total caches ids nows (suc index) bs _)

  -- Where no event is processed, the ledger is as it was.
  process_bundles-books :
      (caches : ℕ → Graphs) (ids : ℕ → EventIds) (nows : ℕ → ℤ) (index : ℕ)
      (bundles : List ProcessingEventBundle) (db : Db)
      → (process_bundles s caches ids nows index bundles db).0.processed ≡ 0
      → books (process_bundles s caches ids nows index bundles db).1 ≡ books db
  unfolding process_bundles
  process_bundles-books caches ids nows index [] db h = refl
  process_bundles-books caches ids nows index (b ∷ bs) db h =
      let q = process_one_event (at_time s (nows index)) (caches index) (ids index) b db in
      let rest = process_bundles-books caches ids nows (suc index) bs q.1 in
      elim (Result-cases q.0) [
        | inl (u, k) ↦ absurd (ground (arith, k, h))
        | inr (x, k) ↦
            rest (ground (arith, k, h))
            ∙ process_one_event-failed (at_time s (nows index)) (caches index) (ids index) b db x k
      ]

  -- A run of processing never fails as a whole, and the events that it counts as processed or
  -- failed are together as many as it claimed, 50 at most, where the claim gives each row that it
  -- updates once. If it counts none as processed, the ledger and the balances are as they were.
  pub process_transaction_events-counts :
      (arrange : Arrange)
      → ((rows : List TransactionRow) → length (arrange rows) ≡ length rows)
      → (caches : ℕ → Graphs) (ids : ℕ → EventIds) (nows : ℕ → ℤ) (db : Db)
      → let q = process_transaction_events s arrange caches ids nows db in
        (r : ProcessTransactionEventsResult) × (q.0 ≡ ok r)
        × (r.processed + r.failed ≡ length (claimed 50 db.transaction_events))
        × (r.processed + r.failed ≤ 50)
        × (r.processed ≡ 0 → books q.1 ≡ books db)
  unfolding process_transaction_events claim_and_load_accepted_transactions within_tx
  process_transaction_events-counts arrange once caches ids nows db =
      let rows = claimed 50 db.transaction_events in
      let bundles = map (bundle_of db) (arrange rows) in
      let q = process_bundles s caches ids nows 0 bundles (claim 50 db) in
      let whole : q.0.processed + q.0.failed ≡ length rows =
        process_bundles-total caches ids nows 0 bundles (claim 50 db)
        ∙ length-map (bundle_of db) (arrange rows)
        ∙ once rows in
      let short : length rows ≤ 50 = take-bound 50 _ in
      let run : process_transaction_events s arrange caches ids nows db ≡ (ok q.0, q.1) =
        >>=-run (within_tx (claim_and_load_accepted_transactions arrange 50)) _ refl in
      (
        q.0,
        ap (λ (r : Result ProcessTransactionEventsResult × Db). r.0) run,
        whole,
        omega (arith, whole, short),
        λ none_processed.
            ap (λ (r : Result ProcessTransactionEventsResult × Db). books r.1) run
            ∙ process_bundles-books caches ids nows 0 bundles (claim 50 db) none_processed,
      )
