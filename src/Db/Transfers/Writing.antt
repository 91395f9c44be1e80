-- ===== src/Db/Transfers/Writing.antt =====
-- A transfer changes the tables by the statements of `Schema.Writes` alone.
use ledger_rs.Prelude.{
  ℕ, zero, suc, ◌+◌, ◌≡◌, refl, sym, subst, none, some, List, [], ok, err, panicked, Result,
  Bool-cases, inl, inr,
}
use ledger_rs.Prelude.Text.{Text}
use ledger_rs.Decimal.{Decimal}
use ledger_rs.Domain.Currency.{Currency}
use ledger_rs.Domain.Postings.{Direction, debit, credit}
use ledger_rs.Domain.Fingerprint.{TransferIntent, Digest, request_hash}
use ledger_rs.Error.{SqlxError, is_idempotency_key_collision}
use ledger_rs.Schema.Rows.{Db, TransactionRecord}
use ledger_rs.Schema.Statements.{insert_transaction}
use ledger_rs.Schema.Writes.{
  Write, numbers, claims, enters, updates, Written, then_write, Written-trans,
}
use ledger_rs.Db.Session.{Env, World, Tx}
use ledger_rs.Db.Session.Triples.{
  Triple, Triple->>=, Triple-lift, Triple-pure, Triple-raise, Triple-map_error, Triple-weaken,
  Triple-run, Triple-attempt-run, Triple-new_v4, Triple-commit, Triple-begin,
}
use ledger_rs.Db.Session.Writes.{Outcome-always}
use ledger_rs.Db.Transfers.Reads.{
  get-Triple, replay-Triple, find-Triple, lost_race-Triple, lock-Triple,
}
use ledger_rs.Db.Transfers.{
  post, move_money, claimed, write_path, execute_once, is_retried, execute_from, execute,
  new_transaction, new_entry, adjust_balance, insert_entry,
}

module _ {D : Type 0} ⦃dec : Decimal D⦄ (env : Env)
    (lawful : (n : ℕ) (db : Db) → Written D db (env.others n db)) (origin : Db) where
  -- Safe tables: those that the statements make of the first ones.
  abbrev pub Since : Db → Type 0
  Since = Written D origin

  abbrev pub others_write : (n : ℕ) (db : Db) → Since db → Since (env.others n db)
  others_write n db h = Written-trans D origin db (env.others n db) h (lawful n db)

  pub write_one : (a b : Db) → Write D a b → Since a → Since b
  write_one a b s h = then_write origin a b h s

  -- Both the committed tables and those of the open transaction.
  abbrev Both : Tx → Db → Type 0
  Both tx db = Since db × Since tx.tables

  adjust-Since :
      (tx : Tx) (k : ℕ) (delta : D) → Triple Since (Both tx) (adjust_balance env tx k delta) Both
  unfolding adjust_balance
  adjust-Since tx k delta =
      Triple->>= Since _ _ (Triple-map_error Since _ _ (Triple-run Since env _ (λ db h. h.0)))
        λ tables.
          Triple-pure Since _
            (λ db h. (h.0.0, write_one _ _ (updates k delta tx.tables tables h.1) h.0.1))

  insert_entry-Since :
      (tx : Tx) (k j : ℕ) (dir : Direction) (amount : D) (c : Currency)
      → Triple Since (Both tx) (insert_entry env tx k j dir amount c) Both
  unfolding insert_entry
  insert_entry-Since tx k j dir amount c = Triple->>= Since _ _ (Triple-new_v4 Since env) λ id.
      Triple->>= Since _ _ (Triple-map_error Since _ _ (Triple-run Since env _ (λ db h. h.0)))
        λ tables. Triple-pure Since _ (λ db h. (
          h.0.0,
          write_one _ _
              (enters tx.xid (new_entry env id k j dir amount c tx.started) tx.tables tables h.1)
              h.0.1,
        ))

  post-Since :
      (tx : Tx) (k from to : ℕ) (amount : D) (c : Currency)
      → Triple Since (Both tx) (post env tx k from to amount c) Both
  unfolding post
  post-Since tx k from to amount c = Triple->>= Since _ _ (adjust-Since tx from _) λ tx1.
      Triple->>= Since _ _ (adjust-Since tx1 to amount) λ tx2.
        Triple->>= Since _ _ (insert_entry-Since tx2 k from credit amount c)
          λ tx3. insert_entry-Since tx3 k to debit amount c

  move_money-Since :
      (tx : Tx) (k : ℕ) (intent : TransferIntent D)
      → Triple Since (Both tx) (move_money env tx k intent) (λ _ db. Since db)
  unfolding move_money
  move_money-Since tx k intent =
      Triple->>= Since _ _ (lock-Triple Since env others_write tx _ (λ db h. h.0)) λ a.
        Triple->>= Since _ _ (lock-Triple Since env others_write tx _ (λ db h. h.0)) λ b.
          Triple->>= Since _ _ (Triple-lift Since _ (λ db h. h.0)) λ from.
            Triple->>= Since _ _ (Triple-lift Since _ (λ db h. h.0.0)) λ to.
              Triple->>= Since _ _ (Triple-lift Since _ (λ db h. h.0.0.0)) λ _.
                Triple->>= Since _ _
                  (Triple-weaken Since _ (post-Since tx k from.id to.id _ _) (λ db h. h.0.0.0)
                    (λ a db h. h))
                  λ tx'.
                    Triple->>= Since _ _
                      (Triple-map_error Since _ _
                        (Triple-commit Since env tx' (λ db h. h.0) (λ db h _. h.1) (λ db h. h)))
                      λ _.
                        Triple->>= Since _ _ (get-Triple Since env others_write k)
                          λ detail. Triple-pure Since _ (λ db h. h)

  claimed-Since :
      (t : TransactionRecord) (tx : Tx) (key : Text) (intent : TransferIntent D) (hash : List ℕ)
      (x : Result SqlxError Db)
      → Triple Since
          (λ db.
            (Since db × (tx.tables ≡ db) × (tx.pending ≡ []))
            × ((tables : Db) → x ≡ ok tables → insert_transaction t tx.tables ≡ ok tables))
          (claimed env tx t.id key intent hash x)
          (λ _ db. Since db)
  unfolding claimed
  claimed-Since t tx key intent hash (ok tables) =
      Triple-weaken Since _ (move_money-Since (record tx { tables = tables }) t.id intent)
        (λ db h. (
          h.0.0,
          write_one _ _ (claims t tx.tables tables (h.1 tables refl))
              (subst Since (sym h.0.1) h.0.0),
        ))
        (λ a db h. h)
  claimed-Since t tx key intent hash (err e) = elim (Bool-cases (is_idempotency_key_collision e)) [
    | inl lost ↦ rw lost (
        Triple-weaken Since _ (lost_race-Triple Since env others_write key hash) (λ db h. h.0.0)
          (λ a db h. h))
    | inr other ↦ rw other (Triple-raise Since _ (λ db h. h.0.0))
  ]
  claimed-Since t tx key intent hash panicked = record { at = λ w h. h.0.0 }

  write_path-Since :
      (key : Text) (intent : TransferIntent D) (hash : List ℕ)
      → Triple Since Since (write_path env key intent hash) (λ _ db. Since db)
  unfolding write_path
  write_path-Since key intent hash = Triple->>= Since _ _ (Triple-lift Since _ (λ db h. h)) λ _.
      Triple->>= Since _ _ (Triple-lift Since _ (λ db h. h.0)) λ _.
        Triple->>= Since _ _
          (Triple-weaken Since _
            (Triple-map_error Since _ _
              (Triple-begin Since env others_write (λ db. write_one _ _ (numbers db))))
            (λ db h. h.0.0) (λ a db h. h))
          λ tx. Triple->>= Since _ _ (Triple-new_v4 Since env) λ id.
            Triple->>= Since _ _ (Triple-attempt-run Since env _ (λ db h. h.0)) λ claim.
              claimed-Since (new_transaction id key hash intent.description tx.xid tx.started) tx
                key intent hash claim

  module _ (dg : Digest) where
    execute_once-Since :
        (key : Text) (intent : TransferIntent D)
        → Triple Since Since (execute_once env dg key intent) (λ _ db. Since db)
    unfolding execute_once
    execute_once-Since key intent =
        Triple->>= Since _ _ (find-Triple Since env others_write key) (elim [
          | some r ↦ replay-Triple Since env others_write key r (request_hash dg intent)
          | none ↦ write_path-Since key intent (request_hash dg intent)
        ])

    execute_from-Since :
        (fuel n : ℕ) (key : Text) (intent : TransferIntent D) (w : World)
        → Since w.db
        → Since (execute_from env dg fuel n key intent w).1.db
    unfolding execute_from
    execute_from-Since zero n key intent w v = v
    execute_from-Since (suc fuel) n key intent w v =
        let tried =
          Outcome-always Since (execute_once env dg key intent w)
            ((execute_once-Since key intent).at w v) in
        elim (Bool-cases (is_retried n (execute_once env dg key intent w).0)) [
          | inl again ↦ rw again (
              execute_from-Since fuel (n + 1) key intent (execute_once env dg key intent w).1 tried)
          | inr last ↦ rw last tried
        ]

    pub execute-Since :
        (key : Text) (intent : TransferIntent D) (w : World)
        → Since w.db
        → Since (execute env dg key intent w).1.db
    unfolding execute
    execute-Since key intent w v = execute_from-Since 4 0 key intent w v
