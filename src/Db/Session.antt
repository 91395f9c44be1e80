-- ===== src/Db/Session.antt =====
-- How a request meets the database: the world that it runs in, and the steps of the driver `sqlx`.
-- Between `begin` and `commit` the statements of one database transaction work on a copy of the
-- tables that `commit` publishes; the row locks and the unique index keep other sessions away from
-- the rows that it reads and writes. Other sessions commit before the statements that stand
-- outside a transaction, and before `begin`.
pub mod Triples
pub mod Seen
pub mod Writes
pub mod Calm
pub mod Returned
pub mod Panics
use ledger_rs.Prelude.{
  ℕ, suc, Bool, true, false, Option, none, some, List, [], Result, ok, err, panicked,
}
use ledger_rs.Error.{SqlxError, LedgerError, database}
use ledger_rs.Schema.Rows.{Db}
use ledger_rs.Schema.Deferred.{run_deferred}

-- What the service does not decide, by the number of the step. `uuid` is what `Uuid::new_v4` draws
-- and `now` the time of the database; `fault` is the error with which the server or the connection
-- fails a statement; `applied` says whether a commit that fails so has taken effect; `others` is
-- what other sessions commit before the step.
pub record Env : Type 0 where
  pub uuid : ℕ → ℕ
  pub now : ℕ → ℕ
  pub fault : ℕ → Option SqlxError
  pub applied : ℕ → Bool
  pub others : ℕ → Db → Db

-- The committed tables, and the number of the next step.
pub record World : Type 0 where
  pub db : Db
  pub step : ℕ

-- The open transaction of this session: its number, the time of its start, which `now()` gives in
-- all its statements, the tables as it sees them, and the
-- transactions whose entries the deferred trigger has to check.
pub record Tx : Type 0 where
  pub tables : Db
  pub xid : ℕ
  pub started : ℕ
  pub pending : List ℕ

abbrev pub Action : Type 0 → Type 0 → Type 0
Action E A = World → Result E A × World

infixl 5 ◌>>=◌ ◌>>◌
unfoldable pub ◌>>=◌ : {E A B : Type 0} → Action E A → (A → Action E B) → Action E B
◌>>=◌ m f w =
    let (r, w') = m w in elim r [ ok a ↦ f a w' | err e ↦ (err e, w') | panicked ↦ (panicked, w') ]

abbrev pub ◌>>◌ : {E B : Type 0} → Action E (Unit {0}) → Action E B → Action E B
m >> k = m >>= λ _. k

unfoldable pub pure : {E A : Type 0} → A → Action E A
pure a w = (ok a, w)

unfoldable pub raise : {E A : Type 0} → E → Action E A
raise e w = (err e, w)

-- A computation that touches no database.
unfoldable pub lift : {E A : Type 0} → Result E A → Action E A
lift r w = (r, w)

unfoldable pub map_error : {E F A : Type 0} → (E → F) → Action E A → Action F A
map_error f m w =
    let (r, w') = m w in
    elim r [ ok a ↦ (ok a, w') | err e ↦ (err (f e), w') | panicked ↦ (panicked, w') ]

-- `?` on an error of the driver.
abbrev pub query : {A : Type 0} → Action SqlxError A → Action LedgerError A
query = map_error database

-- A call whose result is a value, to be matched on.
unfoldable pub attempt : {E F A : Type 0} → Action E A → Action F (Result E A)
attempt m w =
    let (r, w') = m w in
    elim r [ ok a ↦ (ok (ok a), w') | err e ↦ (ok (err e), w') | panicked ↦ (panicked, w') ]

module _ (env : Env) where
  -- What others have committed by now, at the next step.
  abbrev pub arrive : World → World
  arrive w = record { db = env.others w.step w.db; step = suc w.step }

  abbrev pub tick : World → World
  tick w = record w { step = suc w.step }

  abbrev pub faulty : {A : Type 0} → Option SqlxError → Result SqlxError A → Result SqlxError A
  faulty none r = r
  faulty (some e) r = err e

  -- A statement on the pool that only reads.
  unfoldable pub read : {A : Type 0} → (Db → A) → Action SqlxError A
  read f w = (faulty (env.fault w.step) (ok (f (arrive w).db)), arrive w)

  -- A statement on the pool that writes, in a database transaction of its own.
  unfoldable pub publish : Result SqlxError (Db) → World → Result SqlxError (Unit {0}) × World
  publish (ok db') w = (ok tt, record w { db = record db' { next_xid = suc db'.next_xid } })
  publish (err e) w = (err e, w)
  publish panicked w = (panicked, w)

  unfoldable pub write : (Db → Result SqlxError Db) → Action SqlxError (Unit {0})
  unfolding publish
  write f w = publish (faulty (env.fault w.step) (f (arrive w).db)) (arrive w)

  -- `Uuid::new_v4`
  unfoldable pub new_v4 : {E : Type 0} → Action E ℕ
  new_v4 w = (ok (env.uuid w.step), tick w)

  -- `now()` in a statement on the pool, the next one.
  unfoldable pub now : {E : Type 0} → Action E ℕ
  now w = (ok (env.now w.step), w)

  -- `pool.begin()`. The transaction takes its number, whatever becomes of it.
  unfoldable pub begin : Action SqlxError Tx
  begin w =
      let w' = arrive w in
      let db = record w'.db { next_xid = suc w'.db.next_xid } in
      (
        faulty (env.fault w.step) (
            ok (record {
              tables = db;
              xid = w'.db.next_xid;
              started = env.now w.step;
              pending = [];
            })),
        record w' { db = db },
      )

  -- A statement in an open transaction.
  unfoldable pub run : {A : Type 0} → Result SqlxError A → Action SqlxError A
  run r w = (faulty (env.fault w.step) r, tick w)

  -- `tx.rollback()`, and the rollback when the transaction is dropped, publish nothing.
  unfoldable pub rollback : Action SqlxError (Unit {0})
  rollback w = (faulty (env.fault w.step) (ok tt), tick w)

  -- The deferred triggers have passed, or not; then the commit may fail, before or after it took
  -- effect.
  unfoldable pub settle :
      Result SqlxError (Unit {0})
      → Option SqlxError
      → Bool
      → Db
      → World
      → Result SqlxError (Unit {0}) × World
  settle (ok _) none applied db w = (ok tt, record w { db = db })
  settle (ok _) (some e) true db w = (err e, record w { db = db })
  settle (ok _) (some e) false db w = (err e, w)
  settle (err e) fault applied db w = (err e, w)
  settle panicked fault applied db w = (panicked, w)

  -- `tx.commit()`
  unfoldable pub commit : Tx → Action SqlxError (Unit {0})
  unfolding settle
  commit tx w =
      settle (run_deferred tx.pending tx.tables) (env.fault w.step) (env.applied w.step) tx.tables
        (tick w)
