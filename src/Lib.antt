-- ===== src/Lib.antt =====
-- IronLedger, a double-entry ledger. Commands enter through the handlers of
-- crates/ledger/src/service.rs; a handler fingerprints its command, answers a repeated one from the
-- stored idempotency record, builds a journal entry with the flows of crates/domain/src/flow.rs,
-- checks it against the balances, and commits entry, balances, events and record in one call of the
-- store. The store is the in-memory one of crates/ledger/src/memory.rs, or the
-- tables of the PostgreSQL adapter. Its outbox hands the
-- events to a relay; the projector adds the entries of such events up to a read model, and the
-- reconciler rebuilds balances from the journal and compares them with a view.
--
-- Files:
--   Prelude/*                 helpers: integers, ordered maps, texts, results
--   Domain/Amount, Asset, Account, Audit, Ids, Error, Event
--                             crates/domain/src/{amount,asset,account,audit,ids,error,event}.rs;
--                             Amount/Exact, Amount/Printed and Asset/Normal are proofs
--   Domain/Journal            crates/domain/src/journal.rs: `Posting`, `JournalEntry::new`
--                             (`new_entry`), `validate_balanced`; below it the proofs on sums by asset
--   Domain/Money              crates/domain/src/money.rs; Money/Units and Parsed are proofs
--   Domain/Flow               crates/domain/src/flow.rs: each `into_entry` is `<flow>_entry`;
--                             Flow/Records holds the flows, Flow/Moves what they move
--   Ledger/Error, Idempotency, Json, Port, Command
--                             crates/ledger/src/{error,idempotency,port,command}.rs; Json is
--                             `canonicalize`, Json/Canonical and Idempotency/Fingerprint are proofs
--   Ledger/Store              crates/ledger/src/memory.rs: `State`; Store/Commit is `commit`
--                             (`commit_entry`), Store/Accounts `AccountRepo` (`create` is
--                             `create_account`), Store/Outbox `OutboxRepo`, Store/Queries the rest;
--                             Store/Frame, Atomic, Applied, Postings, Sound, Opening, Opened,
--                             Reach, Filed, Claims and Numbered are
--                             proofs
--   Ledger/Action             the ports as state-passing calls that may fail
--   Ledger/Service            crates/ledger/src/service.rs: Service/Handlers are the closures of the
--                             handlers, Service/Guard and Checks `guard_postings`, Service/Post
--                             `post_entry`, Service/CreateAccount `create_account`; Service/Query
--                             is the queries; Service/Memory, Replay, Balanced, Serve and Served
--                             are proofs
--   Ledger/Chart              crates/ledger/src/chart.rs
--   Projector                 crates/projector/src/{memory,projector,port,error}.rs; Projector/Replay
--                             is the loop of `replay`; Projector/Projected and the modules below
--                             Replay are proofs
--   EventBus                  crates/event-bus/src/error.rs and the publisher of kafka.rs; Backoff is
--                             retry.rs, Relay relay.rs over the outbox of Ledger/Store, Consumer the
--                             loop of kafka.rs for one message; Relay/Settled, Ticks, Runs and
--                             Consumer/Attempts are proofs
--   Postgres                  crates/storage-postgres/src over the tables of migrations/001_init.sql;
--                             Convert is error.rs and convert.rs, Store the transactions of
--                             store.rs, Projection projection.rs, Balances the
--                             reads of store.rs and history.rs; Convert/Columns, Store/Represents, Refines, Commits,
--                             Found and Projection/Follows are proofs
--   Grpc                      crates/api-grpc/src over proto/ironledger/v1/ledger.proto: Messages are
--                             the messages, Mapping and Requests map.rs (a function on a request
--                             is `read_<name>`), Server the handlers of server.rs
--                             (`<name>_rpc`); Resubmitted is proofs
--   Reconciler                crates/reconciler/src/{reconciler,port,error}.rs; Reconciler/Rebuilt,
--                             Total, Compared and Clean are proofs
--   */Tests, Tests/Calls      runs of the theorems at concrete values
--
-- How code becomes definitions. An `i128` is an integer with the range checks of the checked
-- operations written out; a text is the list of its characters, with its UTF-8 length; a UUID and an
-- instant are natural numbers. A hash map is an association list in the order of its keys, so that
-- equal maps are equal lists; the code reads them by key alone or sorts what it reads. A method on
-- the locked state is a function from the state to a result and a state. A loop is recursion on the
-- list it consumes; the digits of a number are found with fuel one above the number, and the
-- batches of a replay with fuel one above the length of the log. The
-- error payloads that the code renders as text are kept as the values rendered.
--
-- The relay's loop is a list of turns: in each, the producer has its own answers and the clock its
-- instants, and within a turn the answer depends on the message alone. The ids of outbox rows and the
-- attempts, an i64 and an i32 in the code, are natural numbers: their ends take 2^63 events or 2^31
-- failed attempts on one message.
--
-- Parameters. The clock and the random identifiers of a call are the record `Ambient`, or arguments
-- `now` and `id`. serde, the printer of serde_json and SHA-256 are the records `Codec` and `Hashing`
-- and the payload of a command. The Kafka producer's `send`, the handler of a consumer and its offset
-- store are fields of `KafkaPublisher` and `Consumer`. The texts that uuid, chrono and
-- the errors render are the fields of `Rendering`. What sqlx renders for a violated constraint,
-- what a TIMESTAMPTZ column keeps of an instant (microseconds, where the code has nanoseconds) and the
-- configured topic are fields of `Driver`. A transaction on the tables is a function, and a rollback
-- gives back the tables of its start. Nothing is assumed of them but, where a theorem says so, that a
-- codec reads back what it has written, that the identifier drawn for a new account is unused, that an
-- event can be written as JSON, and that an identifier is read from the text it is shown as.
--
-- Not modelled: of the PostgreSQL adapter, the outbox queries, the lists of accounts and entries, the
-- purge, the status of consumers, row locks and failures of the database; the HTTP server, the start
-- of the gRPC server and its reconciliation call, the connections to Kafka, the command line, metrics
-- and tracing, and the lock, which every operation of the in-memory stores holds from start to end.
pub mod Prelude
pub mod Domain
pub mod Ledger
pub mod Projector
pub mod Reconciler
pub mod EventBus
pub mod Postgres
pub mod Grpc
