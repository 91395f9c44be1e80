-- ===== src/Db/Transfers/Attempts.antt =====
-- The attempts of a transfer never panic, and the fuel of the retry loop is enough for all of them.
use ledger_rs.Prelude.{
  ℕ, zero, suc, ◌+◌, ◌≤◌, ◌<◌, ◌≡◌, none, some, ok, err, panicked, Result, true, Bool-cases, inl,
  inr, arith, Option,
}
use ledger_rs.Prelude.Text.{Text}
use ledger_rs.Decimal.{Decimal, DecimalLaws}
use ledger_rs.Domain.Fingerprint.{TransferIntent, Digest, request_hash}
use ledger_rs.Error.{LedgerError}
use ledger_rs.Db.Session.{Env, World}
use ledger_rs.Db.Session.Panics.{Returned, NeverPanics, NeverPanics->>=}
use ledger_rs.Db.Transactions.{IdempotencyRecord}
use ledger_rs.Db.Transfers.{
  TransferResult, replay, write_path, execute_once, is_retried, execute_from, execute,
  max_conflict_retries,
}
use ledger_rs.Db.Transfers.Panics.{NeverPanics-find, NeverPanics-replay, NeverPanics-write_path}

-- A retried attempt is not the last.
pub retried_early :
    {A : Type 0} (n : ℕ) (r : Result LedgerError A)
    → is_retried n r ≡ true
    → n < max_conflict_retries
unfolding is_retried
retried_early n (ok a) h = absurd (ground arith)
retried_early n (err e) h = ground arith
retried_early n panicked h = absurd (ground arith)

module _ {D : Type 0} ⦃dec : Decimal D⦄ (laws : DecimalLaws D) (env : Env) (dg : Digest) where
  NeverPanics-found :
      (key : Text) (intent : TransferIntent D) (found : Option IdempotencyRecord)
      → NeverPanics {A = TransferResult D} (elim found [
        | some r ↦ replay env key r (request_hash dg intent)
        | none ↦ write_path env key intent (request_hash dg intent)
      ])
  NeverPanics-found key intent none = NeverPanics-write_path laws env key intent _
  NeverPanics-found key intent (some r) = NeverPanics-replay laws env key r _

  NeverPanics-once :
      (key : Text) (intent : TransferIntent D) → NeverPanics (execute_once env dg key intent)
  unfolding execute_once
  NeverPanics-once key intent =
      NeverPanics->>= _ _ (NeverPanics-find laws env key)
        λ found. NeverPanics-found key intent found

  execute_from-Returned :
      (fuel n : ℕ) (key : Text) (intent : TransferIntent D) (w : World)
      → n ≤ max_conflict_retries
      → max_conflict_retries < fuel + n
      → Returned (execute_from env dg fuel n key intent w).0
  unfolding execute_from
  execute_from-Returned zero n key intent w p q = absurd (omega arith)
  execute_from-Returned (suc fuel) n key intent w p q =
      elim (Bool-cases (is_retried n (execute_once env dg key intent w).0)) [
        | inl again ↦
            let early = retried_early n _ again in
            rw again (
              execute_from-Returned fuel (n + 1) key intent (execute_once env dg key intent w).1
                (omega arith) (omega arith))
        | inr last ↦ rw last ((NeverPanics-once key intent).returns w)
      ]

  pub NeverPanics-execute :
      (key : Text) (intent : TransferIntent D) → NeverPanics (execute env dg key intent)
  unfolding execute
  NeverPanics-execute key intent = record {
    returns = λ w. execute_from-Returned 4 0 key intent w (omega arith) (omega arith);
  }
