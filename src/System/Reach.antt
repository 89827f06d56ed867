-- ===== src/System/Reach.antt =====
-- Sequences of calls of all the services of accts-api/application that change a modelled table.
use paisa.Prelude.{ℕ, String, ◌≡◌, List}
use paisa.Prelude.Int.{ℤ}
use paisa.Domain.Rules.{RuleGraph}
use paisa.Domain.Transactions.{TransactionIngestRequest}
use paisa.Db.State.{Db}
use paisa.Redemption.Backed.{IsConsistent, money-IsConsistent, money-Preserves}
use paisa.Redemption.Reach as RedemptionCalls
use paisa.Members.Store.{Cast}
use paisa.Members.Identifiers.{Hashing}
use paisa.Members.Reach as MembersCalls
use paisa.Programs.Graph.{Graphs}
use paisa.Programs.Reach as ProgramsCalls
use paisa.Transactions.Service.{Codec, ingest_transaction}
use paisa.Domain.Members.{MemberRuleAssignmentRequest, MemberRuleAssignmentUpdateRequest}
use paisa.Members.Service.{create_rule_assignment, update_rule_assignment}
use paisa.System.Assignments.{create_rule_assignment-money, update_rule_assignment-money}
use paisa.Processing.Store.{Arrange}
use paisa.Processing.Service.{EventIds, Setting, process_transaction_events}
use paisa.Processing.Balanced.{process_transaction_events-IsConsistent}
use paisa.System.Untouched.{program_step-money, ingest_transaction-money}

module _ (cast : Cast) (hashing : Hashing) (codec : Codec) (s : Setting)
    (order : RuleGraph → List String) where
  -- One call of a service, whatever its outcome.
  pub data Call (db db' : Db) : Type 0 where
    redemption : RedemptionCalls.Step db db' → Call db db'
    member : MembersCalls.Step cast hashing db db' → Call db db'
    program : ProgramsCalls.Step s.rt order db db' → Call db db'
    ingest :
        (new_id : String) (now : ℤ) (key : String) (request : TransactionIngestRequest)
        → db' ≡ (ingest_transaction codec new_id now key request db).1
        → Call db db'
    assign :
        (now : ℤ) (id key member_id : String) (body : MemberRuleAssignmentRequest)
        → db' ≡ (create_rule_assignment cast now id key member_id body db).1
        → Call db db'
    reassign :
        (now : ℤ) (key member_id id : String) (body : MemberRuleAssignmentUpdateRequest)
        → db' ≡ (update_rule_assignment cast now key member_id id body db).1
        → Call db db'
    process :
        (arrange : Arrange) (caches : ℕ → Graphs) (ids : ℕ → EventIds) (nows : ℕ → ℤ)
        → db' ≡ (process_transaction_events s arrange caches ids nows db).1
        → Call db db'

  pub data Calls (start : Db) : Db → Type 0 where
    here : Calls start start
    next : {db db' : Db} → Calls start db → Call db db' → Calls start db'

  Call-IsConsistent : {db db' : Db} → Call db db' → IsConsistent db → IsConsistent db'
  Call-IsConsistent (redemption st) inv = RedemptionCalls.Step-IsConsistent st inv
  Call-IsConsistent (member st) inv = MembersCalls.Step-IsConsistent cast hashing st inv
  Call-IsConsistent {db} {db'} (program st) inv =
      money-IsConsistent (program_step-money s.rt order st) inv
  Call-IsConsistent {db} (ingest i now key request same) inv = rw same (
      money-Preserves (ingest_transaction codec i now key request)
        (ingest_transaction-money codec i now key request) db inv)
  Call-IsConsistent {db} (assign now id key m body same) inv = rw same (
      money-Preserves (create_rule_assignment cast now id key m body)
        (create_rule_assignment-money cast now id key m body) db inv)
  Call-IsConsistent {db} (reassign now key m id body same) inv = rw same (
      money-Preserves (update_rule_assignment cast now key m id body)
        (update_rule_assignment-money cast now key m id body) db inv)
  Call-IsConsistent {db} (process arrange caches ids nows same) inv =
      rw same (process_transaction_events-IsConsistent s arrange caches ids nows db inv)

  -- From a consistent database, every sequence of calls that create, capture, release and validate
  -- redemptions, adjust or post points with no reserved delta, open accounts, create, resolve and
  -- enroll members, change rule assignments and programs, ingest and process transactions leaves a
  -- consistent one, whichever of them fail and whatever the times of their transactions: the
  -- balances are the sums of the ledger's entries, and the reserved points of each account are the
  -- costs of its open redemptions.
  pub Calls-IsConsistent : {start db : Db} → Calls start db → IsConsistent start → IsConsistent db
  Calls-IsConsistent here inv = inv
  Calls-IsConsistent (next calls call) inv = Call-IsConsistent call (Calls-IsConsistent calls inv)
