-- ===== src/Db/Transfers/Retried.antt =====
-- One call of `execute` beside other sessions: it adds the whole transfer at most once, also over its
-- retries.
use ledger_rs.Prelude.{
  ℕ, zero, suc, ◌+◌, ◌≡◌, ◌⊎◌, inl, inr, ap, ◌∙◌, none, some, ok, err, panicked, Result, Bool-cases,
  ok_injective,
}
use ledger_rs.Prelude.Text.{Text}
use ledger_rs.Decimal.{Decimal, DecimalLaws, IsExact}
use ledger_rs.Domain.Fingerprint.{TransferIntent, Digest, request_hash, created}
use ledger_rs.Error.{LedgerError}
use ledger_rs.Schema.Rows.{Db}
use ledger_rs.Db.Session.{Env, World}
use ledger_rs.Db.Session.Triples.{Outcome, Triple, Triple->>=, Triple-map_error, Triple-weaken}
use ledger_rs.Db.Session.Seen.{Triple-read_seen}
use ledger_rs.Db.Transactions.{find_by_idempotency_key}
use ledger_rs.Db.Transfers.{TransferResult, execute_once, is_retried, execute_from, execute}
use ledger_rs.Db.Transfers.Neighbours.{Neighbours, IsPaidOnce, IsOnce, IsTold, lawful, replay-Told}
use ledger_rs.Db.Transfers.Once.{write_path-Told, unkeyed}

module _ {D : Type 0} ⦃dec : Decimal D⦄ (laws : DecimalLaws D) (env : Env)
    (Others : Db → Db → Type 0) (beside : Neighbours env Others) where
  module _ (dg : Digest) (key : Text) (intent : TransferIntent D)
      (exact : IsExact intent.amount.amount) (start : Db) where
    abbrev Kept : Db → Type 0
    Kept = IsOnce Others key (request_hash dg intent) intent start

    abbrev Reported : TransferResult D → Db → Type 0
    Reported = IsTold Others key (request_hash dg intent) intent start

    execute_once-Reported : Triple Kept Kept (execute_once env dg key intent) Reported
    unfolding execute_once find_by_idempotency_key
    execute_once-Reported =
        Triple->>= Kept _ _
          (Triple-map_error Kept _ _ (
            Triple-read_seen Kept env
              (lawful env Others beside key (request_hash dg intent) intent start) _))
          (elim [
            | some r ↦
                Triple-weaken Kept _ (replay-Told env Others beside key _ intent start r _)
                  (λ db h. h.0) (λ a db h. h)
            | none ↦
                Triple-weaken Kept _
                  (write_path-Told laws env Others beside key _ intent exact start)
                  (λ db h. unkeyed laws env Others beside key _ intent exact start db h.0 h.1)
                  (λ a db h. h)
          ])

    Outcome-Kept :
        (x : Result LedgerError (TransferResult D) × World) → Outcome Kept Reported x → Kept x.1.db
    Outcome-Kept (ok a, w) h = h.0
    Outcome-Kept (err e, w) h = h
    Outcome-Kept (panicked, w) h = h

    execute_from-Reported :
        (fuel n : ℕ) (w : World)
        → Kept w.db
        → Outcome Kept Reported (execute_from env dg fuel n key intent w)
    unfolding execute_from
    execute_from-Reported zero n w v = v
    execute_from-Reported (suc fuel) n w v =
        let tried = execute_once-Reported.at w v in
        elim (Bool-cases (is_retried n (execute_once env dg key intent w).0)) [
          | inl again ↦ rw again (
              execute_from-Reported fuel (n + 1) (execute_once env dg key intent w).1
                (Outcome-Kept _ tried))
          | inr last ↦ rw last tried
        ]

  pub execute-Once :
      (dg : Digest) (key : Text) (intent : TransferIntent D) (w : World)
      → IsExact intent.amount.amount
      → let (r, w') = execute env dg key intent w in
        (Others w.db w'.db ⊎ IsPaidOnce Others key (request_hash dg intent) intent w.db w'.db)
        × ((x : TransferResult D)
            → r ≡ ok x
            → x.outcome ≡ created
            → IsPaidOnce Others key (request_hash dg intent) intent w.db w'.db)
  unfolding execute
  execute-Once dg key intent w exact =
      read_off (execute_from env dg 4 0 key intent w)
        (execute_from-Reported dg key intent exact w.db 4 0 w (inl (beside.nothing w.db)))
    where
      read_off :
          (x : Result LedgerError (TransferResult D) × World)
          → Outcome (Kept dg key intent exact w.db) (Reported dg key intent exact w.db) x
          → Kept dg key intent exact w.db x.1.db
            × ((a : TransferResult D)
                → x.0 ≡ ok a
                → a.outcome ≡ created
                → IsPaidOnce Others key (request_hash dg intent) intent w.db x.1.db)
      read_off (ok a, w') h =
          (h.0, λ b e c. h.1 (ap (λ (r : TransferResult D). r.outcome) (ok_injective e) ∙ c))
      read_off (err e, w') h = (h, λ b e c. cc)
      read_off (panicked, w') h = (h, λ b e c. cc)
