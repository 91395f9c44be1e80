-- ===== src/Config.antt =====
-- src/config.rs: the settings, read from the environment, and their validation. Durations are
-- whole seconds. An error names the variable or the rule; its wording is left out.
pub mod Url
pub mod Coherence
pub mod Reading
pub mod Redaction
use ledger_rs.Prelude.{
  ℕ, ◌*◌, Bool, true, false, Option, none, some, ltb, leb, ◌==◌, Result, ok, err, ◌>>=◌, ◌>>◌,
  fail_if, ok_or,
}
use ledger_rs.Prelude.Text.{Text, codes}

-- `PoolConfig` of src/db/mod.rs.
pub record PoolConfig : Type 0 where
  pub max_connections : ℕ
  pub min_connections : ℕ
  pub acquire_timeout : ℕ
  pub max_lifetime : ℕ
  pub idle_timeout : ℕ
  pub statement_timeout : ℕ
  pub lock_timeout : ℕ
  pub idle_in_transaction_timeout : ℕ

-- `Default for PoolConfig`
abbrev pub default_pool : PoolConfig
default_pool = record {
  max_connections = 16;
  min_connections = 1;
  acquire_timeout = 10;
  max_lifetime = 30 * 60;
  idle_timeout = 10 * 60;
  statement_timeout = 30;
  lock_timeout = 5;
  idle_in_transaction_timeout = 30;
}

pub record Config (A : Type 0) : Type 0 where
  pub database_url : Text
  pub bind_addr : A
  pub pool : PoolConfig
  pub request_timeout : ℕ
  pub max_body_bytes : ℕ
  pub shutdown_grace : ℕ
  pub allow_funding_account_creation : Bool

pub data ConfigError : Type 0 where
  no_database_url : ConfigError
  invalid_bind_addr : ConfigError
  invalid : Text → ConfigError
  no_connections : ConfigError
  min_exceeds_max : ℕ → ℕ → ConfigError
  request_not_above_acquire : ℕ → ℕ → ConfigError
  statement_not_above_lock : ℕ → ℕ → ConfigError

-- The environment, and the standard library's parsers: of `SocketAddr`, of the unsigned integers
-- of 32 and 64 bits and of the size of a pointer, and of `bool`.
pub record Process (A : Type 0) : Type 0 where
  pub var : Text → Option Text
  pub parse_addr : Text → Option A
  pub parse_u32 : Text → Option ℕ
  pub parse_u64 : Text → Option ℕ
  pub parse_usize : Text → Option ℕ
  pub parse_bool : Text → Option Bool

-- `Config::validate`
unfoldable pub validate : {A : Type 0} → Config A → Result ConfigError (Unit {0})
validate c = do
  fail_if (c.pool.max_connections == 0) no_connections
  fail_if (ltb c.pool.max_connections c.pool.min_connections)
      (min_exceeds_max c.pool.min_connections c.pool.max_connections)
  fail_if (leb c.request_timeout c.pool.acquire_timeout)
      (request_not_above_acquire c.request_timeout c.pool.acquire_timeout)
  fail_if (leb c.pool.statement_timeout c.pool.lock_timeout)
      (statement_not_above_lock c.pool.statement_timeout c.pool.lock_timeout)
  ok tt

module _ {A : Type 0} (process : Process A) where
  unfoldable pub env_or : Text → Text → Text
  env_or key default = elim (process.var key) [ none ↦ default | some raw ↦ raw ]

  unfoldable pub env_parse : {T : Type 0} → (Text → Option T) → Text → T → Result ConfigError T
  env_parse parse key default = elim (process.var key) [
    | none ↦ ok default
    | some raw ↦ ok_or (invalid key) (parse raw)
  ]

  abbrev pub env_secs : Text → ℕ → Result ConfigError ℕ
  env_secs = env_parse process.parse_u64

  unfoldable pub pool_from_env : Result ConfigError PoolConfig
  pool_from_env = do
    max_connections ← env_parse process.parse_u32 (codes "DATABASE_MAX_CONNECTIONS") 16
    min_connections ← env_parse process.parse_u32 (codes "DATABASE_MIN_CONNECTIONS") 1
    acquire_timeout ← env_secs (codes "DATABASE_ACQUIRE_TIMEOUT_SECS") 10
    max_lifetime ← env_secs (codes "DATABASE_MAX_LIFETIME_SECS") (30 * 60)
    idle_timeout ← env_secs (codes "DATABASE_IDLE_TIMEOUT_SECS") (10 * 60)
    statement_timeout ← env_secs (codes "DATABASE_STATEMENT_TIMEOUT_SECS") 30
    lock_timeout ← env_secs (codes "DATABASE_LOCK_TIMEOUT_SECS") 5
    idle_in_transaction_timeout ← env_secs (codes "DATABASE_IDLE_IN_TXN_TIMEOUT_SECS") 30
    ok (record {
      max_connections = max_connections;
      min_connections = min_connections;
      acquire_timeout = acquire_timeout;
      max_lifetime = max_lifetime;
      idle_timeout = idle_timeout;
      statement_timeout = statement_timeout;
      lock_timeout = lock_timeout;
      idle_in_transaction_timeout = idle_in_transaction_timeout;
    })

  -- The settings before they are validated.
  unfoldable pub read_env : Result ConfigError (Config A)
  read_env = do
    database_url ← ok_or no_database_url (process.var (codes "DATABASE_URL"))
    bind_addr ←
        ok_or invalid_bind_addr
          (process.parse_addr (env_or (codes "BIND_ADDR") (codes "0.0.0.0:3000")))
    pool ← pool_from_env
    request_timeout ← env_secs (codes "REQUEST_TIMEOUT_SECS") 30
    max_body_bytes ← env_parse process.parse_usize (codes "MAX_BODY_BYTES") (64 * 1024)
    shutdown_grace ← env_secs (codes "SHUTDOWN_GRACE_SECS") 20
    allow ← env_parse process.parse_bool (codes "ALLOW_FUNDING_ACCOUNT_CREATION") false
    ok (record {
      database_url = database_url;
      bind_addr = bind_addr;
      pool = pool;
      request_timeout = request_timeout;
      max_body_bytes = max_body_bytes;
      shutdown_grace = shutdown_grace;
      allow_funding_account_creation = allow;
    })

  -- `Config::from_env`
  unfoldable pub from_env : Result ConfigError (Config A)
  from_env = do config ← read_env; validate config; ok config
