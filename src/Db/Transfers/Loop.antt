-- ===== src/Db/Transfers/Loop.antt =====
-- The retry loop: what its attempts keep.
use ledger_rs.Prelude.{ℕ, zero, suc, ◌+◌, ◌≤◌, ◌<◌, inl, inr, Result, Bool-cases, arith}
use ledger_rs.Prelude.Text.{Text}
use ledger_rs.Decimal.{Decimal}
use ledger_rs.Domain.Fingerprint.{TransferIntent, Digest}
use ledger_rs.Error.{LedgerError}
use ledger_rs.Db.Session.{Env, World}
use ledger_rs.Db.Transfers.{
  TransferResult, execute_once, is_retried, execute_from, execute, max_conflict_retries,
}
use ledger_rs.Db.Transfers.Attempts.{retried_early}

-- What holds of every attempt, and lets another one follow, holds of the whole call.
module _ {D : Type 0} ⦃dec : Decimal D⦄ (env : Env) (dg : Digest) (key : Text)
    (intent : TransferIntent D) (Before : World → Type 0)
    (After : Result LedgerError (TransferResult D) × World → Type 0)
    (attempt : (w : World) → Before w → After (execute_once env dg key intent w))
    (again : (x : Result LedgerError (TransferResult D) × World) → After x → Before x.1) where
  execute_from-After :
      (fuel n : ℕ) (w : World)
      → n ≤ max_conflict_retries
      → max_conflict_retries < fuel + n
      → Before w
      → After (execute_from env dg fuel n key intent w)
  unfolding execute_from
  execute_from-After zero n w p q h = absurd (omega arith)
  execute_from-After (suc fuel) n w p q h =
      let tried = attempt w h in
      elim (Bool-cases (is_retried n (execute_once env dg key intent w).0)) [
        | inl retried ↦
            let early = retried_early n _ retried in
            rw retried (
              execute_from-After fuel (n + 1) (execute_once env dg key intent w).1 (omega arith)
                (omega arith) (again _ tried))
        | inr last ↦ rw last tried
      ]

  pub execute-After : (w : World) → Before w → After (execute env dg key intent w)
  unfolding execute
  execute-After w h = execute_from-After 4 0 w (omega arith) (omega arith) h
