-- ===== src/Db/Transfers/Replay.antt =====
-- The retry loop of src/db/transfers.rs ends, and what a single replay gives.
use ledger_rs.Prelude.{
  ℕ, zero, suc, ◌+◌, ◌≤◌, ◌≡◌, refl, ◌∙◌, inl, inr, true, false, Option, none, some, List, Result,
  ok, err, Bool-cases, arith,
}
use ledger_rs.Prelude.Text.{Text, text_eq}
use ledger_rs.Decimal.{Decimal}
use ledger_rs.Domain.Postings.{TransactionDetail}
use ledger_rs.Domain.Fingerprint.{TransferIntent, Digest, request_hash, replayed}
use ledger_rs.Error.{LedgerError, idempotency_key_conflict, database, is_retryable_conflict}
use ledger_rs.Db.Session.{Env, World, ◌>>=◌, arrive, read, map_error, lift, pure}
use ledger_rs.Db.Session.Calm.{bind_ok}
use ledger_rs.Db.Transactions.{find_by_idempotency_key, select_key, IdempotencyRecord, get}
use ledger_rs.Db.Transfers.{TransferResult, is_retried, replay, execute_once, execute_from, execute}

module _ {D : Type 0} ⦃dec : Decimal D⦄ (env : Env) (dg : Digest) (key : Text)
    (intent : TransferIntent D) where
  -- The runs of the loop, with no bound on their length: an attempt whose result is returned, or
  -- one that is retried and the rest of the run.
  pub data Runs : ℕ → World → Result LedgerError (TransferResult D) × World → Type 0 where
    stop :
        {n : ℕ} {w : World}
        → is_retried n (execute_once env dg key intent w).0 ≡ false
        → Runs n w (execute_once env dg key intent w)
    again :
        {n : ℕ} {w : World} {x : Result LedgerError (TransferResult D) × World}
        → is_retried n (execute_once env dg key intent w).0 ≡ true
        → Runs (n + 1) (execute_once env dg key intent w).1 x
        → Runs n w x

  -- The fourth attempt is the last.
  last_attempt :
      (n : ℕ) (r : Result LedgerError (TransferResult D)) → 3 ≤ n → is_retried n r ≡ false
  unfolding is_retried
  last_attempt n (err (database e)) h = elim (Bool-cases (is_retryable_conflict e)) [
    | inl conflict ↦ rw conflict (ground arith)
    | inr other ↦ rw other refl
  ]
  last_attempt n r h = refl

  execute_from-Runs :
      (fuel n : ℕ) (w : World)
      → 4 ≤ suc fuel + n
      → Runs n w (execute_from env dg (suc fuel) n key intent w)
  unfolding execute_from
  execute_from-Runs zero n w h =
      let last = last_attempt n (execute_once env dg key intent w).0 (omega arith) in
      rw last (stop last)
  execute_from-Runs (suc fuel) n w h =
      elim (Bool-cases (is_retried n (execute_once env dg key intent w).0)) [
        | inr last ↦ rw last (stop last)
        | inl retry ↦ rw retry (again retry (execute_from-Runs fuel (n + 1) _ (omega arith)))
      ]

  Runs-unique :
      (n : ℕ) (w : World) (x y : Result LedgerError (TransferResult D) × World)
      → Runs n w x
      → Runs n w y
      → x ≡ y
  Runs-unique n w x y (stop _) (stop _) = refl
  Runs-unique n w x y (stop p) (again q _) = cc
  Runs-unique n w x y (again p _) (stop q) = cc
  Runs-unique n w x y (again _ r) (again _ s) = Runs-unique (n + 1) _ x y r s

  -- The loop always ends within the four attempts of `execute`: it gives the result of a run of the
  -- unbounded loop, and every such run has that result.
  pub execute-Runs :
      (w : World)
      → Runs 0 w (execute env dg key intent w)
        × ((x : Result LedgerError (TransferResult D) × World)
            → Runs 0 w x
            → x ≡ execute env dg key intent w)
  unfolding execute
  execute-Runs w =
      let run = execute_from-Runs 3 0 w (omega arith) in (run, λ x r. Runs-unique 0 w x _ r run)

  -- An attempt whose result is not retried is the whole request.
  pub single_attempt :
      (w : World) (x : Result LedgerError (TransferResult D) × World)
      → execute_once env dg key intent w ≡ x
      → is_retried 0 x.0 ≡ false
      → execute env dg key intent w ≡ x
  unfolding execute execute_from
  single_attempt w x e last = rw (e, last) refl

  pub replay-conflict :
      (r : IdempotencyRecord) (hash : List ℕ) (w : World)
      → text_eq r.request_hash hash ≡ false
      → replay {D = D} env key r hash w ≡ (err (idempotency_key_conflict key), w)
  unfolding replay lift ◌>>=◌
  replay-conflict r hash w other = rw other refl

  replay-get :
      (r : IdempotencyRecord) (hash : List ℕ) (detail : TransactionDetail D) (w w' : World)
      → text_eq r.request_hash hash ≡ true
      → get env r.transaction_id w ≡ (ok detail, w')
      → replay env key r hash w ≡ (ok (record { outcome = replayed; detail = detail }), w')
  unfolding replay lift pure ◌>>=◌
  replay-get r hash detail w w' same told = rw same (
      bind_ok (get env r.transaction_id)
        (λ (d : TransactionDetail D). pure (record { outcome = replayed; detail = d })) detail w'
        told)

  module _ (w : World) (reachable : env.fault w.step ≡ none) where
    pub found :
        (o : Option IdempotencyRecord)
        → select_key key (env.others w.step w.db) ≡ o
        → find_by_idempotency_key env key w ≡ (ok o, arrive env w)
    unfolding find_by_idempotency_key read map_error
    found o e = rw (reachable, e, read, map_error) refl

    -- If the lookup of the key meets no fault and finds it recorded for the same request, and the
    -- recorded transaction can be read, it is the answer, as a replay, and the world is the one
    -- after the reads.
    pub execute_replayed :
        (r : IdempotencyRecord) (detail : TransactionDetail D) (w' : World)
        → select_key key (env.others w.step w.db) ≡ some r
        → text_eq r.request_hash (request_hash dg intent) ≡ true
        → get env r.transaction_id (arrive env w) ≡ (ok detail, w')
        → execute env dg key intent w ≡ (ok (record { outcome = replayed; detail = detail }), w')
    unfolding execute_once is_retried
    execute_replayed r detail w' recorded same told =
        single_attempt w _
          (bind_ok _ _ _ _ (found _ recorded) ∙ replay-get r _ detail _ w' same told) refl
