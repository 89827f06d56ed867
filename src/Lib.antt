-- ===== src/Lib.antt =====
-- Paisa is a loyalty platform: partners' members earn points from purchases, and redeem them for
-- the partner's catalog items. This library models the Go service accts-api, and proves what
-- keeps its points right.
--
-- The parts, and the files that model them:
--
--   Prelude      Boolean tests, lists, integers, and Go's 64-bit int with its wrap-around
--   Domain       accts-api/domain: error values, constants, structs, ApplyLedgerDelta (Balance),
--                the readers of JSON settings (Config), rule graphs and their validation before
--                publishing (Rules, Publish, Acyclic)
--   Db           the tables of db/schema.sql; WithinTx and the lookups of partners, members and
--                accounts (accts-api/adapters/postgres)
--   Ledger       accts-api/adapters/postgres/internal/repository/ledger.go and
--                accts-api/application/ledger_service.go
--   Redemption   CatalogStore.Get and RedemptionStore of merchant_ops.go, and RedemptionService of
--                accts-api/application/merchant_services.go
--   Rewards      accts-api/application/rule_engine.go, with the statements on limits of rule.go and
--                on earlier purchases of transaction.go; Rewards/Refund, Bounds and Reversal, what
--                a refund computes in accts-api/application/reward_processing_service.go
--   Transactions IngestTransaction of accts-api/application/transaction_service.go, and the
--                statements on events of transaction.go
--   Programs     accts-api/application/program_service.go, ProgramStore and InsertGroups of
--                program.go, and the loading of rule graphs of rule.go
--   Members      accts-api/application/member_service.go and MemberStore of member.go
--   Processing   accts-api/application/reward_processing_service.go: Store, the rows of
--                reward_calculation.go and the claims of transaction.go; Selection, the rule
--                versions that apply to a member (rule.go); Cache, the cache of rule graphs of
--                services.go; Service, the processing of purchases, refunds and batches;
--                Refunds, the refunds of one purchase, one after another
--   System       sequences of calls of all these services
--
-- A service call is an action `Tx A`, a function from the database to a result and the database
-- after it: `PostLedgerEntry` is `post_ledger_entry`, `CreateRedemption` is `create_redemption`,
-- and so on, each under the source's name. `within_tx` is `WithinTx`: an error gives the old
-- database back. The redemptions call the ledger's `post_ledger_entry` for each reserve, capture
-- and release, and the processing of a purchase or a refund calls it for the points of its
-- calculation; that is the one place where balances move. Processing takes its rules from the
-- versions that Programs publishes, through the cache, and the member's program from the
-- enrollments of Members. Db/Frame has the lemmas on what an action leaves alone, which the
-- proofs over whole services are put together from.
--
-- The service's sources of new values are arguments: ids that the database makes, tokens, and the
-- clock's time in nanoseconds; in a batch, each event's transaction has a time of its own.
-- Strings compare as they do in Go. A Go int is an integer with each sum and product reduced to
-- 64 bits; the INTEGER columns refuse what does not fit 32 bits. A primary key or a unique key
-- makes a query for one row fit one row at most: the model takes the first, and an insert that
-- repeats a key is a duplicate key error.
--
-- What the rules take from Go's library (float arithmetic, numbers and times in text, fmt.Sprint,
-- case folding) is the record `Runtime`, and what ingestion takes (JSON, SHA-256, RFC3339 times)
-- is the record `Codec`; every theorem holds for any of them. What members' services take (case,
-- SHA-256, the cast of a text to a time) are the records and arguments `Hashing` and `Cast`, and
-- what storing a rule takes is `Format`. `sort.Slice` is not stable, so the two sorts by priority
-- are arguments, and so is the order in which Go ranges over the map of rules. A JSONB column
-- gives back what was stored; a calculation keeps its awards as a list. UPDATE ... RETURNING
-- gives the claimed rows in no order of its own, so that order is an argument. A column CHAR(3)
-- fills a shorter text up with blanks and refuses a longer one. ORDER BY takes rows with equal
-- keys in the order of their insertion. The cache of rule graphs outlives the transactions and is
-- shared by all requests: its content where an event is processed is an argument, and
-- `cache_after` is what loading leaves in it.
--
-- The search for dependency cycles recurses on fuel: one more than there are rules, since a path
-- of dependencies that point backward in the order of priorities meets no rule twice. All other
-- loops are recursions on lists.
--
-- Not modelled: concurrent transactions (each runs alone, as the row locks of the ledger make
-- them do for one account), faults of the connection, foreign keys, the syntax of uuid, the
-- columns created_at and updated_at (rows are kept newest first instead). The reads for display
-- GetRuleVersionReview and GetRewardsProfile only collect rows. ValidateRuleVersionForPublish and
-- the repository's EnrollMember are called by nothing. The tables redemption_codes and campaigns
-- are left out, since no modelled operation gets to a statement on them that succeeds. Outside
-- the model are manual and normalized ingestion, the HTTP layer, authentication, reporting,
-- campaigns and integrations, and the front end.
pub mod Prelude
pub mod Domain
pub mod Db
pub mod Ledger
pub mod Programs
pub mod Members
pub mod Redemption
pub mod Rewards
pub mod Processing
pub mod Transactions
pub mod System
