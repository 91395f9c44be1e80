-- ===== src/Startup.antt =====
-- src/main.rs, and `connect` of src/db/mod.rs: what the service does from its start to its end. The
-- runtime, the pool, the migrations and the server are the platform's.
pub mod Order
use ledger_rs.Prelude.{
  ℕ, ◌*◌, Bool, true, false, List, [], ◌∷◌, Result, ok, err, panicked, if◌then◌else◌,
}
use ledger_rs.Prelude.Text.{Text, codes}
use ledger_rs.Config.{PoolConfig, Config, ConfigError, Process, from_env}
use ledger_rs.Http.Router.{AppState, app_state}

-- `PgPoolOptions`, in seconds; `after_connect` are the settings of each new session, which Postgres
-- reads as milliseconds.
pub record PoolOptions : Type 0 where
  pub max_connections : ℕ
  pub min_connections : ℕ
  pub acquire_timeout : ℕ
  pub max_lifetime : ℕ
  pub idle_timeout : ℕ
  pub after_connect : List (Text × ℕ)

-- `Duration::as_millis`
abbrev pub as_millis : ℕ → ℕ
as_millis seconds = seconds * 1_000

-- The options that `connect` gives the pool.
abbrev pub pool_options : PoolConfig → PoolOptions
pool_options config = record {
  max_connections = config.max_connections;
  min_connections = config.min_connections;
  acquire_timeout = config.acquire_timeout;
  max_lifetime = config.max_lifetime;
  idle_timeout = config.idle_timeout;
  after_connect =
      (codes "statement_timeout", as_millis config.statement_timeout)
      ∷ (codes "lock_timeout", as_millis config.lock_timeout)
      ∷ (codes "idle_in_transaction_session_timeout", as_millis config.idle_in_transaction_timeout)
      ∷ [];
}

-- Which of the platform's calls succeed; `serves` is whether the server ends without an error.
pub record Platform (A : Type 0) : Type 0 where
  pub connects : Text → PoolOptions → Bool
  pub migrates : Bool
  pub binds : A → Bool
  pub serves : Bool

pub data StartError : Type 0 where
  bad_config : ConfigError → StartError
  no_database : StartError
  no_migrations : StartError
  no_listener : StartError
  server_error : StartError

-- What the service has done, in its order. `drained` is the wait for the pool to close.
pub data Event (A : Type 0) : Type 0 where
  connected : Text → PoolOptions → Event A
  migrated : Event A
  listening : A → Event A
  served : AppState → Event A
  drained : ℕ → Event A

abbrev pub Run : Type 0 → Type 0
Run A = List (Event A) × Result StartError (Unit {0})

module _ {A : Type 0} where
  abbrev pub after : Event A → Run A → Run A
  after event (events, result) = (event ∷ events, result)

  abbrev pub stop : StartError → Run A
  stop e = ([], err e)

  -- `call.context(..)?`, and what follows it.
  abbrev pub unless_failed : Bool → StartError → Event A → Run A → Run A
  unless_failed succeeds e event rest = if succeeds then after event rest else stop e

  -- From the settings on.
  unfoldable pub start : Platform A → Config A → Run A
  start platform config =
      let options = pool_options config.pool in
      let ended : Run A =
        (drained config.shutdown_grace ∷ [], if platform.serves then ok tt else err server_error) in
      unless_failed (platform.connects config.database_url options) no_database
        (connected config.database_url options)
        (unless_failed (platform.migrates) no_migrations migrated (
          unless_failed (platform.binds config.bind_addr) no_listener (listening config.bind_addr)
            (after (served (app_state config)) ended)))

  unfoldable pub proceed : Platform A → Result ConfigError (Config A) → Run A
  proceed platform (ok config) = start platform config
  proceed platform (err e) = stop (bad_config e)
  proceed platform panicked = ([], panicked)

  -- `main`
  unfoldable pub main : Process A → Platform A → Run A
  main process platform = proceed platform (from_env process)
