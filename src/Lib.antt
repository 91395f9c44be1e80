-- ===== src/Lib.antt =====
-- The ledger service, a double-entry ledger over Postgres: a request to move money names two
-- accounts, an amount and an idempotency key, and the service carries it out once for that key.
--
-- The parts, and the files that model them:
--   Domain/Currency, Domain/Money   src/domain/money.rs: `Currency`, `MoneyError`, `Money` with
--                                   `new`, `checked_add`, `checked_sub`, `checked_lt`, `canonical`
--   Domain/Postings                 src/domain/mod.rs: `Entry`, `TransactionDetail::is_balanced`
--   Domain/Fingerprint, Domain/Bytes  src/domain/mod.rs: `TransferIntent::request_hash`, and
--                                   the UTF-8 encoding of the standard library
--   Error                           src/error.rs: `LedgerError`, its responses, and the readings
--                                   of a database error
--   Schema                          migrations/0001_init.sql: the tables, the statements that the
--                                   service sends, their constraints, and the triggers
--                                   and the sweep `ledger_check_invariants` (Schema/Sweep)
--   Db/Session                      the driver: statements, `begin`, `commit`, `rollback`
--   Db/Transactions, Db/Accounts    src/db/transactions.rs, src/db/accounts.rs
--   Db/Transfers                    src/db/transfers.rs: `execute`, the only code that moves money
--   Db/Locks                        the locks of src/db/transfers.rs, session beside session
--   Db/Sweep                        src/db/mod.rs: `check_invariants`
--   Config                          src/config.rs, and `PoolConfig` of src/db/mod.rs
--   Http                            src/http/transfers.rs, src/http/accounts.rs,
--                                   src/http/transactions.rs: the handlers
--   Http/Router                     src/http/mod.rs, src/http/health.rs: the routes, the replies
--                                   and the health probes
--   Http/Layers                     src/http/mod.rs: `app`, the router below its layers
--   Startup                         src/main.rs, and `connect` of src/db/mod.rs
-- The router finds the handler of a request. A handler checks its request and calls src/db; its
-- errors become responses in src/error.rs.
-- Prelude holds shared helpers, Decimal the interface of the crate `rust_decimal` with its laws,
-- Tests concrete runs. Modules below a component prove its properties: Schema/Invariant states the
-- invariants of the tables, Schema/Effects, Schema/Flights and Schema/Opening what each statement does to
-- them, Schema/Carried when it succeeds, Db/Session/Triples carries a property through the steps of
-- a request, Db/Session/Calm runs a request that meets no fault, Db/Transfers/Book is the ledger as
-- its users see it, Schema/Reconciliation what the sweep decides, and Http/Serving and Http/Receipts
-- follow a request from the router to the tables. Schema/Writes is the step relation of what the
-- service may do to the tables, and Schema/Permanence, Schema/Totals and Schema/Conservation what
-- follows for any number of steps; Http/History serves one request after the other. Db/Session/Panics
-- and the modules Panics and Attempts carry the absence of panics up to the handlers, Http/Opened
-- follows an account from its request to its read, and the modules below Db/Transactions say what
-- the read of a transaction shows. Db/Transfers/Neighbours,
-- Db/Transfers/Once and Db/Transfers/Retried place a transfer between what other sessions do.
-- Db/Transfers/Loop carries a property from an attempt to the retry loop, Db/Transfers/Known and
-- Db/Transfers/Refused are about the calls that must not pay, Db/Transfers/Refusal and the two
-- modules on it about those that end after the claim of the key, Config/Reading is what a variable of
-- the environment means, and Startup/Order the order of the start and the end as a state machine.
--
-- State: the committed tables and a step counter (`World`), and the tables of the open database
-- transaction (`Tx`). Every call of the service is a function from the world to a result and a
-- world. An environment (`Env`) gives, for each step, the identifier that `Uuid::new_v4` draws, the
-- time, whether the server fails the statement, whether a commit that fails has taken effect, and
-- what other sessions have committed before a statement on the pool and before `begin`. A
-- transaction works on the tables as they are at its begin: the row locks and the unique index are
-- taken to keep the rows that it uses from changing until it ends. `SELECT .. FOR UPDATE` is
-- therefore a read.
-- Of what fails only a `commit` may have taken effect; an INSERT on the pool that fails, as the one
-- of a new account, has not. What Postgres refuses without a constraint of the schema (U+0000 in a
-- text, a session that is lost) is one of the faults.
--
-- Numbers: an amount in the tables is an integer in units of 10⁻⁸ (NUMERIC(20, 8)); UUIDs and
-- instants are natural numbers; text is the list of its code points. A decimal of `rust_decimal`
-- is abstract: its operations are the record `Decimal`, and what the service relies on are the
-- laws `DecimalLaws`, which the concrete `Decimal.Fixed` meets. The laws of `fetched` and
-- `from_i64` are stated for all integers; the database holds those of its columns only. SHA-256
-- and the bytes of a UUID are parameters (`Digest`), with the documented laws `UuidLaws`.
--
-- Bounds and fuel: `Money::new` calls itself at most once, and is given room for two calls. The
-- retry loop of `execute` has fuel for four attempts, which is one and the three retries that its
-- guard allows. The halving loop of the binary search has as much fuel as
-- the table has entries.
--
-- Not modelled: tracing and the signals of src/main.rs, which are calls of frameworks; what the layers
-- of `app` do inside, which are the crate tower-http (the record `Tower`, with the documented laws
-- `TowerLaws`); how the pool opens connections and how migrations run;
-- how axum matches a path and takes a request apart before a handler runs (the record `Framework`);
-- logging; the triggers that refuse UPDATE and DELETE of log rows, which the service never issues;
-- the texts that `Display` prints for errors.
pub mod Prelude
pub mod Decimal
pub mod Domain
pub mod Error
pub mod Schema
pub mod Db
pub mod Config
pub mod Http
pub mod Startup
mod Tests
