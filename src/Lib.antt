-- ===== src/Lib.antt =====
-- A message queue on PostgreSQL (package message): messages are received once or enqueued, claimed
-- by workers, handled, retried, dead-lettered and archived. Several processes run the package on the
-- same three tables; a statement runs whole or not at all, a transaction commits or leaves nothing,
-- and each call of the database may fail.
--
-- Which file models what:
--   Message     message.go, errors.go, logger.go, metrics.go: data, errors, reported events
--   Backoff     backoff.go, utils.go: delays on int64, and the cut of stored error texts (Backoff/Utf8:
--               where they are in UTF-8)
--   Config      config.go and the page options of messaging_admin.go
--   Cipher, Crypto   crypto.go: the registry of versions, with Base64 and JSON strings as Go's
--               libraries write and read them, and the default cipher (Crypto/Aes)
--   Names       db.go: valid names, and the names of the tables
--   Schema      schema.go, migrate.go: Migrate and DropSchema, by the names that the statements create
--               and drop
--   Database    the tables of schema.go, what SQL does to their rows, and transactions; `Act` is an
--               action on the world, `Keeps`, `Leads` and `Triple` say what an action does to them
--   Store       store.go: inserts, reads, claims and what ends a claim, one function per method
--   Messaging   messaging.go: New, Receive, Enqueue, EnqueueBatch, Register, ProcessBatch;
--               Messaging/Goroutines has the goroutines of a batch, as steps in any order
--   Admin       messaging_admin.go: retries of the dead-letter queue, queries, the dedup table;
--               Admin/Query/Where has the WHERE clauses as text, with their placeholders
--   Cleanup     cleanup.go: purges, recovery of stuck rows, archiving of exhausted ones, RunAll
--   Runner      runner.go: Start, Stop, the loop's goroutine and the end of contexts as steps in any order
--   Invariant   what the tables keep, and that each call keeps whatever meets `IsInvariant`
--   System      any calls of any instances in any order; System/Lifecycle states the life of a message
--               as an abstract state machine, and that each call refines it; System/Completion, on
--               Database/Total, has ProcessBatch where no call of the database fails
-- The functions have the source's names in snake case; insertHot is `insert_hot`, handleOne
-- `handle_one`, withDefaults `with_defaults`.
--
-- Loops of batches (purgeBatched, RetryAllFailed) are on fuel; more fuel than there are rows to take
-- is enough, since every batch but the last takes at least one. Times and durations are nanoseconds;
-- times are natural numbers from the year 1. The numbers of rows are not bounded; retry_count is an INT
-- where RecoverStuck adds to it. The base of an exponential delay is rounded to a float64.
--
-- The world has as parameters what PostgreSQL accepts, what it makes of a JSON value, which rows
-- others have locked, and which calls fail with what text. Handlers, the encoding of headers, ciphers
-- other than the default one, and for this one what crypto/aes, crypto/cipher, crypto/sha256 and
-- crypto/rand do, are parameters too.
--
-- Not modelled: the text of the SQL and DDL statements, but for the clauses of whereBuilder. In
-- `process_batch` the goroutines are run one after another (Messaging/Goroutines has their slots);
-- what others do meanwhile is part of what a handler may do to the world. A handler gets its message as
-- a value and cannot change what ProcessBatch reads of it afterwards. Each statement is one step, also
-- the UPDATE of RetryFailed, whose sub-select takes no locks. Contexts are modelled as
-- failing calls, and by which goroutines got a slot. The text of an error leaves out %q's escapes in
-- an invalid name.
pub mod Prelude
pub mod Message
pub mod Backoff
pub mod Cipher
pub mod Crypto
pub mod Config
pub mod Database
pub mod Names
pub mod Store
pub mod Messaging
pub mod Admin
pub mod Cleanup
pub mod Invariant
pub mod System
pub mod Tests
pub mod Schema
pub mod Runner
