-- ===== src/Db/Transfers/Invariant.antt =====
-- A transfer keeps the invariants of the ledger, whatever it returns and wherever it fails.
use ledger_rs.Prelude.{
  ℕ, zero, suc, ◌+◌, ◌≤◌, ◌≡◌, refl, sym, subst, none, some, List, [], ◌∷◌, ok, err, panicked,
  Result, Bool-cases, inl, inr,
}
use ledger_rs.Prelude.Int.{pos, neg, ◌+ℤ◌, int_laws}
use ledger_rs.Prelude.Text.{Text}
use ledger_rs.Decimal.{Decimal, DecimalLaws, IsExact, units}
use ledger_rs.Domain.Currency.{Currency}
use ledger_rs.Domain.Postings.{debit, credit}
use ledger_rs.Domain.Fingerprint.{TransferIntent, Digest, request_hash}
use ledger_rs.Error.{SqlxError, LedgerError, is_idempotency_key_collision}
use ledger_rs.Schema.Rows.{Db, TransactionRecord}
use ledger_rs.Schema.Statements.{insert_transaction}
use ledger_rs.Schema.Deferred.{run_deferred}
use ledger_rs.Schema.Invariant.{Inv, Flight-Inv}
use ledger_rs.Schema.Flights.{claim-Flight, ahead, behind}
use ledger_rs.Db.Session.{Env, World, Tx}
use ledger_rs.Db.Session.Triples.{
  Triple, Outcome, Triple->>=, Triple-lift, Triple-pure, Triple-raise, Triple-map_error,
  Triple-weaken, Triple-attempt-run, Triple-new_v4, Triple-commit, Triple-begin,
}
use ledger_rs.Db.Transfers.Reads.{
  get-Triple, replay-Triple, find-Triple, lost_race-Triple, lock-Triple,
}
use ledger_rs.Db.Transfers.{
  TransferResult, post, move_money, claimed, write_path, execute_once, is_retried, execute_from,
  execute, new_transaction,
}
use ledger_rs.Db.Transfers.UnderWay.{
  Inv-next_xid, Under, settled, deferred-IsBalanced, adjust-Triple, insert_entry-Triple,
}

module _ {D : Type 0} ⦃dec : Decimal D⦄ (laws : DecimalLaws D) (env : Env)
    (lawful : (n : ℕ) (db : Db) → Inv db → Inv (env.others n db)) where
  post-Triple :
      (k : ℕ) (tx : Tx) (from to : ℕ) (amount : D) (c : Currency)
      → IsExact amount
      → Triple Inv
          (Under k (λ _. pos 0) (pos 0) [] tx)
          (post env tx k from to amount c)
          (λ tx' db. Inv db × (run_deferred tx'.pending tx'.tables ≡ ok tt → Inv tx'.tables))
  unfolding post
  post-Triple k tx from to amount c exact =
      Triple->>= Inv _ _
        (adjust-Triple laws env k _ _ _ tx from (dec.negate amount)
          (subst (λ n. n ≤ 8) (sym (laws.scale-negate amount)) exact))
        λ tx1. Triple->>= Inv _ _ (adjust-Triple laws env k _ _ _ tx1 to amount exact) λ tx2.
          Triple->>= Inv _ _ (insert_entry-Triple laws env k _ _ _ tx2 from credit amount c) λ tx3.
            Triple-weaken Inv _ (insert_entry-Triple laws env k _ _ _ tx3 to debit amount c)
              (λ db h. h) landed
    where
      landed :
          (tx' : Tx) (db : Db)
          → Under k
              (behind to (dec.stored amount) (
                behind from
                  (neg (dec.stored amount))
                  (ahead to (units amount) (ahead from (units (dec.negate amount)) (λ _. pos 0)))))
              (dec.stored amount +ℤ (neg (dec.stored amount) +ℤ pos 0))
              (k ∷ k ∷ [])
              tx'
              db
          → Inv db × (run_deferred tx'.pending tx'.tables ≡ ok tt → Inv tx'.tables)
      landed tx' db u = (
        u.committed,
        λ passed.
            Flight-Inv k _ _ tx'.tables u.flight
              (λ id.
                rw (laws.stored_exact amount exact, laws.units-negate amount)
                  (settled from to (units amount) id))
              (omega int_laws) (deferred-IsBalanced k (k ∷ []) tx'.tables (rw u.waiting at passed)),
      )

  move_money-Triple :
      (k : ℕ) (tx : Tx) (intent : TransferIntent D)
      → IsExact intent.amount.amount
      → Triple Inv
          (Under k (λ _. pos 0) (pos 0) [] tx)
          (move_money env tx k intent)
          (λ _ db. Inv db)
  unfolding move_money
  move_money-Triple k tx intent exact =
      Triple->>= Inv _ _ (lock-Triple Inv env lawful tx _ (λ db u. u.committed)) λ a.
        Triple->>= Inv _ _ (lock-Triple Inv env lawful tx _ (λ db u. u.committed)) λ b.
          Triple->>= Inv _ _ (Triple-lift Inv _ (λ db u. u.committed)) λ from.
            Triple->>= Inv _ _ (Triple-lift Inv _ (λ db h. h.0.committed)) λ to.
              Triple->>= Inv _ _ (Triple-lift Inv _ (λ db h. h.0.0.committed)) λ _.
                Triple->>= Inv _ _
                  (Triple-weaken Inv _
                    (post-Triple k tx from.id to.id intent.amount.amount intent.amount.currency
                      exact)
                    (λ db h. h.0.0.0) (λ a db h. h))
                  λ tx'.
                    Triple->>= Inv _ _
                      (Triple-map_error Inv _ _
                        (Triple-commit Inv env tx' (λ db h. h.0) (λ db h. h.1) (λ db h. h)))
                      λ _.
                        Triple->>= Inv _ _ (get-Triple Inv env lawful k)
                          λ detail. Triple-pure Inv _ (λ db h. h)

  claimed-Triple :
      (t : TransactionRecord) (tx : Tx) (key : Text) (intent : TransferIntent D) (hash : List ℕ)
      (x : Result SqlxError Db)
      → IsExact intent.amount.amount
      → Triple Inv
          (λ db.
            (Inv db × (tx.tables ≡ db) × (tx.pending ≡ []))
            × ((tables : Db) → x ≡ ok tables → insert_transaction t tx.tables ≡ ok tables))
          (claimed env tx t.id key intent hash x)
          (λ _ db. Inv db)
  unfolding claimed
  claimed-Triple t tx key intent hash (ok tables) exact =
      Triple-weaken Inv _ (move_money-Triple t.id (record tx { tables = tables }) intent exact)
        (λ db h. record {
          committed = h.0.0;
          flight = claim-Flight t tx.tables tables (subst Inv (sym h.0.1) h.0.0) (h.1 tables refl);
          waiting = h.0.2;
        })
        (λ a db h. h)
  claimed-Triple t tx key intent hash (err e) exact =
      elim (Bool-cases (is_idempotency_key_collision e)) [
        | inl lost ↦ rw lost (
            Triple-weaken Inv _ (lost_race-Triple Inv env lawful key hash) (λ db h. h.0.0)
              (λ a db h. h))
        | inr other ↦ rw other (Triple-raise Inv _ (λ db h. h.0.0))
      ]
  claimed-Triple t tx key intent hash panicked exact = record { at = λ w h. h.0.0 }

  write_path-Triple :
      (key : Text) (intent : TransferIntent D) (hash : List ℕ)
      → IsExact intent.amount.amount
      → Triple Inv Inv (write_path env key intent hash) (λ _ db. Inv db)
  unfolding write_path
  write_path-Triple key intent hash exact = Triple->>= Inv _ _ (Triple-lift Inv _ (λ db h. h)) λ _.
      Triple->>= Inv _ _ (Triple-lift Inv _ (λ db h. h.0)) λ _.
        Triple->>= Inv _ _
          (Triple-weaken Inv _ (Triple-map_error Inv _ _ (Triple-begin Inv env lawful Inv-next_xid))
            (λ db h. h.0.0) (λ a db h. h))
          λ tx. Triple->>= Inv _ _ (Triple-new_v4 Inv env) λ id.
            Triple->>= Inv _ _ (Triple-attempt-run Inv env _ (λ db h. h.0)) λ claim.
              claimed-Triple (new_transaction id key hash intent.description tx.xid tx.started) tx
                key intent hash claim exact

  module _ (dg : Digest) where
    execute_once-Triple :
        (key : Text) (intent : TransferIntent D)
        → IsExact intent.amount.amount
        → Triple Inv Inv (execute_once env dg key intent) (λ _ db. Inv db)
    unfolding execute_once
    execute_once-Triple key intent exact =
        Triple->>= Inv _ _ (find-Triple Inv env lawful key) (elim [
          | some r ↦ replay-Triple Inv env lawful key r (request_hash dg intent)
          | none ↦ write_path-Triple key intent (request_hash dg intent) exact
        ])

    Outcome-Inv :
        (x : Result LedgerError (TransferResult D) × World)
        → Outcome Inv (λ _ db. Inv db) x
        → Inv x.1.db
    Outcome-Inv (ok a, w) h = h
    Outcome-Inv (err e, w) h = h
    Outcome-Inv (panicked, w) h = h

    execute_from-Inv :
        (fuel n : ℕ) (key : Text) (intent : TransferIntent D) (w : World)
        → IsExact intent.amount.amount
        → Inv w.db
        → Inv (execute_from env dg fuel n key intent w).1.db
    unfolding execute_from
    execute_from-Inv zero n key intent w exact v = v
    execute_from-Inv (suc fuel) n key intent w exact v =
        let tried =
          Outcome-Inv (execute_once env dg key intent w)
            ((execute_once-Triple key intent exact).at w v) in
        elim (Bool-cases (is_retried n (execute_once env dg key intent w).0)) [
          | inl again ↦ rw again (
              execute_from-Inv fuel (n + 1) key intent (execute_once env dg key intent w).1 exact
                tried)
          | inr last ↦ rw last tried
        ]

    -- The invariants of the ledger survive every call of `execute` with an amount of at most eight
    -- places, whatever the call returns, whichever statements fail, whether or not a failing
    -- commit has taken effect, and whatever other sessions commit that keep the invariants too.
    pub execute-Inv :
        (key : Text) (intent : TransferIntent D) (w : World)
        → IsExact intent.amount.amount
        → Inv w.db
        → Inv (execute env dg key intent w).1.db
    unfolding execute
    execute-Inv key intent w exact v = execute_from-Inv 4 0 key intent w exact v
