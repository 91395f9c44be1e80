-- ===== src/Config/Coherence.antt =====
-- What the settings of a running service satisfy.
use ledger_rs.Prelude.{
  ◌≤◌, ◌<◌, ◌≡◌, ◌↔◌, refl, true, false, ok, ltb, leb, ◌==◌, arith, >>=-eq-ok, fail_if, ap, subst,
  ◌∙◌, ok_injective,
}
use ledger_rs.Config.{Config, Process, validate, read_env, from_env}

-- There are connections, the pool can hold its minimum, a request outlives its wait for a
-- connection, and the limit on a statement is above the one on its wait for a lock.
pub record IsCoherent {A : Type 0} (c : Config A) : Type 0 where
  pub some_connections : 0 < c.pool.max_connections
  pub min_fits : c.pool.min_connections ≤ c.pool.max_connections
  pub request_outlives : c.pool.acquire_timeout < c.request_timeout
  pub statement_outlives : c.pool.lock_timeout < c.pool.statement_timeout

fail_if-ok : {E : Type 0} (b : _) (e : E) → fail_if b e ≡ ok tt → b ≡ false
fail_if-ok true e h = cc
fail_if-ok false e h = refl

validate-IsCoherent : {A : Type 0} (c : Config A) → validate c ≡ ok tt → IsCoherent c
unfolding validate
validate-IsCoherent c h =
    let (_, p, h1) = >>=-eq-ok (fail_if (c.pool.max_connections == 0) _) _ h in
    let (_, q, h2) =
      >>=-eq-ok (fail_if (ltb c.pool.max_connections c.pool.min_connections) _) _ h1 in
    let (_, r, h3) = >>=-eq-ok (fail_if (leb c.request_timeout c.pool.acquire_timeout) _) _ h2 in
    let (_, s, _) = >>=-eq-ok (fail_if (leb c.pool.statement_timeout c.pool.lock_timeout) _) _ h3 in
    let a = fail_if-ok _ _ p in
    let b = fail_if-ok _ _ q in
    let d = fail_if-ok _ _ r in
    let e = fail_if-ok _ _ s in
    record {
      some_connections = ground arith;
      min_fits = ground arith;
      request_outlives = ground arith;
      statement_outlives = ground arith;
    }

IsCoherent-validate : {A : Type 0} (c : Config A) → IsCoherent c → validate c ≡ ok tt
unfolding validate
IsCoherent-validate c h =
    let a : (c.pool.max_connections == 0) ≡ false = ground (arith, h.some_connections) in
    let b : ltb c.pool.max_connections c.pool.min_connections ≡ false =
      ground (arith, h.min_fits) in
    let d : leb c.request_timeout c.pool.acquire_timeout ≡ false =
      ground (arith, h.request_outlives) in
    let e : leb c.pool.statement_timeout c.pool.lock_timeout ≡ false =
      ground (arith, h.statement_outlives) in
    rw (a, b, d, e) refl

-- The settings that `validate` passes are the coherent ones.
pub validate_decides : {A : Type 0} (c : Config A) → (validate c ≡ ok tt) ↔ IsCoherent c
validate_decides c = (validate-IsCoherent c, IsCoherent-validate c)

pub from_env-IsCoherent :
    {A : Type 0} (p : Process A) (c : Config A)
    → from_env p ≡ ok c
    → (read_env p ≡ ok c) × IsCoherent c
unfolding from_env
from_env-IsCoherent p c h =
    let (c', r, h1) = >>=-eq-ok (read_env p) _ h in
    let (_, v, h2) = >>=-eq-ok (validate c') _ h1 in
    let same : c' ≡ c = ok_injective h2 in
    (r ∙ ap ok same, subst IsCoherent same (validate-IsCoherent c' v))
