-- ===== src/Config/Reading.antt =====
-- Which settings a service reads from its environment: one variable for each, with its default.
use ledger_rs.Prelude.{
  ◌*◌, ◌≡◌, ◌↔◌, inl, inr, refl, sym, subst, false, Option, Option-cases, none, some, ok, ok_or,
  ok_or-eq-ok, >>=-eq-ok, ok_injective,
}
use ledger_rs.Prelude.Text.{Text, codes}
use ledger_rs.Config.{
  PoolConfig, Config, no_database_url, invalid_bind_addr, Process, from_env, read_env,
  pool_from_env, env_parse, env_or, invalid,
}
use ledger_rs.Config.Coherence.{IsCoherent, from_env-IsCoherent, validate_decides}

-- The value that a variable is set to, or the default where it is not set.
pub data Setting {A T : Type 0} (p : Process A) (parse : Text → Option T) (key : Text)
    (default value : T) : Type 0 where
  by_default : p.var key ≡ none → value ≡ default → Setting p parse key default value
  by_variable :
      (raw : Text)
      → p.var key ≡ some raw
      → parse raw ≡ some value
      → Setting p parse key default value

-- The table of README.md.
pub record IsPoolRead {A : Type 0} (p : Process A) (c : PoolConfig) : Type 0 where
  pub max_connections :
      Setting p p.parse_u32 (codes "DATABASE_MAX_CONNECTIONS") 16 c.max_connections
  pub min_connections : Setting p p.parse_u32 (codes "DATABASE_MIN_CONNECTIONS") 1 c.min_connections
  pub acquire_timeout :
      Setting p p.parse_u64 (codes "DATABASE_ACQUIRE_TIMEOUT_SECS") 10 c.acquire_timeout
  pub max_lifetime : Setting p p.parse_u64 (codes "DATABASE_MAX_LIFETIME_SECS") 1_800 c.max_lifetime
  pub idle_timeout : Setting p p.parse_u64 (codes "DATABASE_IDLE_TIMEOUT_SECS") 600 c.idle_timeout
  pub statement_timeout :
      Setting p p.parse_u64 (codes "DATABASE_STATEMENT_TIMEOUT_SECS") 30 c.statement_timeout
  pub lock_timeout : Setting p p.parse_u64 (codes "DATABASE_LOCK_TIMEOUT_SECS") 5 c.lock_timeout
  pub idle_in_transaction_timeout :
      Setting p p.parse_u64
        (codes "DATABASE_IDLE_IN_TXN_TIMEOUT_SECS")
        30
        c.idle_in_transaction_timeout

pub record IsRead {A : Type 0} (p : Process A) (c : Config A) : Type 0 where
  pub database_url : p.var (codes "DATABASE_URL") ≡ some c.database_url
  pub address : Text
  pub address_text : Setting p some (codes "BIND_ADDR") (codes "0.0.0.0:3000") address
  pub bind_addr : p.parse_addr address ≡ some c.bind_addr
  pub pool_read : IsPoolRead p c.pool
  pub request_timeout : Setting p p.parse_u64 (codes "REQUEST_TIMEOUT_SECS") 30 c.request_timeout
  pub max_body_bytes : Setting p p.parse_usize (codes "MAX_BODY_BYTES") 65_536 c.max_body_bytes
  pub shutdown_grace : Setting p p.parse_u64 (codes "SHUTDOWN_GRACE_SECS") 20 c.shutdown_grace
  pub allow_funding_account_creation :
      Setting p p.parse_bool
        (codes "ALLOW_FUNDING_ACCOUNT_CREATION")
        false
        c.allow_funding_account_creation

module _ {A : Type 0} (p : Process A) where
  env_parse-Setting :
      {T : Type 0} (parse : Text → Option T) (key : Text) (default value : T)
      → env_parse p parse key default ≡ ok value
      → Setting p parse key default value
  unfolding env_parse
  env_parse-Setting parse key default value h = elim (Option-cases (p.var key)) [
    | inl unset ↦ by_default unset (sym (ok_injective (rw (unset, env_parse) at h)))
    | inr (raw, set) ↦
        by_variable raw set (ok_or-eq-ok (invalid key) (parse raw) (rw (set, env_parse) at h))
  ]

  Setting-env_parse :
      {T : Type 0} (parse : Text → Option T) (key : Text) (default value : T)
      → Setting p parse key default value
      → env_parse p parse key default ≡ ok value
  unfolding env_parse
  Setting-env_parse parse key default value (by_default unset same) =
      rw (unset, same, env_parse) refl
  Setting-env_parse parse key default value (by_variable raw set parsed) =
      rw (set, parsed, env_parse, ok_or) refl

  env_or-Setting : (key default : Text) → Setting p some key default (env_or p key default)
  unfolding env_or
  env_or-Setting key default = elim (Option-cases (p.var key)) [
    | inl unset ↦ by_default unset (rw (unset, env_or) refl)
    | inr (raw, set) ↦ by_variable raw set (rw (set, env_or) refl)
  ]

  Setting-env_or :
      (key default value : Text) → Setting p some key default value → env_or p key default ≡ value
  unfolding env_or
  Setting-env_or key default value (by_default unset same) = rw (unset, same, env_or) refl
  Setting-env_or key default value (by_variable raw set parsed) = rw (set, env_or) (cc parsed)

  pool_from_env-IsPoolRead : (c : PoolConfig) → pool_from_env p ≡ ok c → IsPoolRead p c
  unfolding pool_from_env
  pool_from_env-IsPoolRead c h =
      let (a, ha, h1) =
        >>=-eq-ok (env_parse p p.parse_u32 (codes "DATABASE_MAX_CONNECTIONS") 16) _ h in
      let (b, hb, h2) =
        >>=-eq-ok (env_parse p p.parse_u32 (codes "DATABASE_MIN_CONNECTIONS") 1) _ h1 in
      let (d, hd, h3) =
        >>=-eq-ok (env_parse p p.parse_u64 (codes "DATABASE_ACQUIRE_TIMEOUT_SECS") 10) _ h2 in
      let (e, he, h4) =
        >>=-eq-ok (env_parse p p.parse_u64 (codes "DATABASE_MAX_LIFETIME_SECS") (30 * 60)) _ h3 in
      let (f, hf, h5) =
        >>=-eq-ok (env_parse p p.parse_u64 (codes "DATABASE_IDLE_TIMEOUT_SECS") (10 * 60)) _ h4 in
      let (g, hg, h6) =
        >>=-eq-ok (env_parse p p.parse_u64 (codes "DATABASE_STATEMENT_TIMEOUT_SECS") 30) _ h5 in
      let (i, hi, h7) =
        >>=-eq-ok (env_parse p p.parse_u64 (codes "DATABASE_LOCK_TIMEOUT_SECS") 5) _ h6 in
      let (j, hj, h8) =
        >>=-eq-ok (env_parse p p.parse_u64 (codes "DATABASE_IDLE_IN_TXN_TIMEOUT_SECS") 30) _ h7 in
      subst (IsPoolRead p) (ok_injective h8) (record {
        max_connections = env_parse-Setting _ _ _ _ ha;
        min_connections = env_parse-Setting _ _ _ _ hb;
        acquire_timeout = env_parse-Setting _ _ _ _ hd;
        max_lifetime = env_parse-Setting _ _ _ _ he;
        idle_timeout = env_parse-Setting _ _ _ _ hf;
        statement_timeout = env_parse-Setting _ _ _ _ hg;
        lock_timeout = env_parse-Setting _ _ _ _ hi;
        idle_in_transaction_timeout = env_parse-Setting _ _ _ _ hj;
      })

  IsPoolRead-pool_from_env : (c : PoolConfig) → IsPoolRead p c → pool_from_env p ≡ ok c
  unfolding pool_from_env
  IsPoolRead-pool_from_env c r =
      rw
        (
          Setting-env_parse _ _ _ _ r.max_connections,
          Setting-env_parse _ _ _ _ r.min_connections,
          Setting-env_parse _ _ _ _ r.acquire_timeout,
          Setting-env_parse _ _ _ _ r.max_lifetime,
          Setting-env_parse _ _ _ _ r.idle_timeout,
          Setting-env_parse _ _ _ _ r.statement_timeout,
          Setting-env_parse _ _ _ _ r.lock_timeout,
          Setting-env_parse _ _ _ _ r.idle_in_transaction_timeout,
        )
        refl

  read_env-IsRead : (c : Config A) → read_env p ≡ ok c → IsRead p c
  unfolding read_env
  read_env-IsRead c h =
      let (url, hurl, h1) = >>=-eq-ok (ok_or no_database_url (p.var (codes "DATABASE_URL"))) _ h in
      let (addr, haddr, h2) =
        >>=-eq-ok
          (ok_or invalid_bind_addr
            (p.parse_addr (env_or p (codes "BIND_ADDR") (codes "0.0.0.0:3000"))))
          _ h1 in
      let (pool, hpool, h3) = >>=-eq-ok (pool_from_env p) _ h2 in
      let (a, ha, h4) =
        >>=-eq-ok (env_parse p p.parse_u64 (codes "REQUEST_TIMEOUT_SECS") 30) _ h3 in
      let (b, hb, h5) =
        >>=-eq-ok (env_parse p p.parse_usize (codes "MAX_BODY_BYTES") (64 * 1024)) _ h4 in
      let (d, hd, h6) = >>=-eq-ok (env_parse p p.parse_u64 (codes "SHUTDOWN_GRACE_SECS") 20) _ h5 in
      let (e, he, h7) =
        >>=-eq-ok (env_parse p p.parse_bool (codes "ALLOW_FUNDING_ACCOUNT_CREATION") false) _ h6 in
      subst (IsRead p) (ok_injective h7) (record {
        database_url = ok_or-eq-ok _ _ hurl;
        address = env_or p (codes "BIND_ADDR") (codes "0.0.0.0:3000");
        address_text = env_or-Setting _ _;
        bind_addr = ok_or-eq-ok _ _ haddr;
        pool_read = pool_from_env-IsPoolRead pool hpool;
        request_timeout = env_parse-Setting _ _ _ _ ha;
        max_body_bytes = env_parse-Setting _ _ _ _ hb;
        shutdown_grace = env_parse-Setting _ _ _ _ hd;
        allow_funding_account_creation = env_parse-Setting _ _ _ _ he;
      })

  IsRead-read_env : (c : Config A) → IsRead p c → read_env p ≡ ok c
  unfolding read_env
  IsRead-read_env c r =
      rw
        (
          r.database_url,
          Setting-env_or _ _ _ r.address_text,
          r.bind_addr,
          IsPoolRead-pool_from_env c.pool r.pool_read,
          Setting-env_parse _ _ _ _ r.request_timeout,
          Setting-env_parse _ _ _ _ r.max_body_bytes,
          Setting-env_parse _ _ _ _ r.shutdown_grace,
          Setting-env_parse _ _ _ _ r.allow_funding_account_creation,
        )
        refl

-- In every environment `from_env` gives exactly the settings that are coherent and of which each is
-- the value that its own variable is set to, or its default where the variable is not set; the URL
-- of the database has no default.
pub from_env_decides :
    {A : Type 0} (p : Process A) (c : Config A) → (from_env p ≡ ok c) ↔ (IsRead p c × IsCoherent c)
unfolding from_env
from_env_decides p c = (
  λ h. let (read, coherent) = from_env-IsCoherent p c h in (read_env-IsRead p c read, coherent),
  λ (read, coherent). rw (IsRead-read_env p c read, (validate_decides c).1 coherent) refl,
)
