-- ===== src/System/Tests.antt =====
-- A run of several services: a member buys, the purchase is processed, and a reward is ordered.
use paisa.Prelude.{String, refl, List, []}
use paisa.Prelude.Int.{pos}
use paisa.Domain.Rules.{RuleGraph}
use paisa.Db.State.{Db}
use paisa.Redemption.Backed.{IsConsistent}
use paisa.Redemption.Cafe.{auth, order}
use paisa.Redemption.Service.{create_redemption}
use paisa.Redemption.Reach.{Step}
use paisa.Transactions.Tests.{codec}
use paisa.Members.Tests.{hashing, no_cast}
use paisa.Processing.Cached.{uncached}
use paisa.Processing.Service.{process_transaction_events}
use paisa.Processing.Tests.{setting, in_order, event_ids, visited, visited-IsConsistent}
use paisa.System.Reach.{Call, Calls, Calls-IsConsistent}

abbrev no_order : RuleGraph → List String
no_order graph = []

abbrev rewarded : Db
rewarded =
    (process_transaction_events setting in_order (λ _. uncached) event_ids (λ _. pos 2000)
      visited).1

abbrev ordered_after : Db
ordered_after = (create_redemption "r1" "e2" "rdm_1" (pos 3000) auth order rewarded).1

Calls-IsConsistent_example : IsConsistent ordered_after
Calls-IsConsistent_example =
    Calls-IsConsistent no_cast hashing codec setting no_order
      (Calls.next
        (Calls.next Calls.here
          (Call.process in_order (λ _. uncached) event_ids (λ _. pos 2000) refl))
        (Call.redemption (Step.create "r1" "e2" "rdm_1" (pos 3000) auth order refl)))
      visited-IsConsistent
