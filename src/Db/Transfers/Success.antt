-- ===== src/Db/Transfers/Success.antt =====
-- A transfer that the tables let through is carried out.
use ledger_rs.Prelude.{ℕ, suc, ◌≡◌, refl, ap, ◌∙◌, none, some, sym, subst, List, length, ok, Result}
use ledger_rs.Prelude.Text.{Text, text_eq_refl}
use ledger_rs.Domain.Postings.{TransactionDetail}
use ledger_rs.Decimal.{Decimal, DecimalLaws}
use ledger_rs.Domain.Money.Validation.{IsValid}
use ledger_rs.Domain.Fingerprint.{TransferIntent, Digest, request_hash, created, replayed}
use ledger_rs.Error.{LedgerError, database}
use ledger_rs.Schema.Rows.{find_key}
use ledger_rs.Schema.Carried.{insert_transaction_fits, find_key-none}
use ledger_rs.Schema.Invariant.{Inv}
use ledger_rs.Db.Session.{Env, World, arrive}
use ledger_rs.Db.Session.Calm.{
  IsCalm, Returns, Returns-then, bind_ok, new_v4_ok, lift_ok, map_error-begin, attempt-run,
  map_error-read,
}
use ledger_rs.Db.Transfers.{
  TransferResult, new_transaction, claimed, write_path, execute_once, execute, is_retried,
}
use ledger_rs.Db.Transfers.Effect.{IsTransferred}
use ledger_rs.Db.Transfers.Replay.{single_attempt, execute_replayed}
use ledger_rs.Db.Transfers.ExactlyOnce.{execute_exactly_once}
use ledger_rs.Db.Transactions.{find_by_idempotency_key, select_key}
use ledger_rs.Db.Transfers.Payable.{DrawsNew, IsPayable}
use ledger_rs.Db.Transactions.Reading.{IsAnswered, detail_of, Returns-get}
use ledger_rs.Db.Transfers.Payment.{claim, claimed_tx, move_money-Returns}

module _ {D : Type 0} ⦃dec : Decimal D⦄ (laws : DecimalLaws D) (env : Env) (calm : IsCalm env) where
  module _ (key : Text) (intent : TransferIntent D) (valid : IsValid intent.amount) (w : World)
      (inv : Inv w.db) (pay : IsPayable intent w.db) (draws : DrawsNew env w.db)
      (fresh : find_key key w.db.transactions ≡ none) where
    write_path-Returns :
        (n : ℕ) (hash : List ℕ)
        → length hash ≡ 32
        → Returns
            (write_path env key intent hash)
            (record w { step = n })
            (λ r w'. (r.outcome ≡ created) × IsAnswered key hash r.detail w'.db)
    unfolding write_path claimed claimed_tx claim
    write_path-Returns n hash long =
        let k = env.uuid (suc n) in
        let time = env.now n in
        Returns-then _ _ tt _ (lift_ok _ _ (rw (pay.two_accounts) refl)) (
          Returns-then _ _ tt _ (lift_ok _ _ (rw (pay.positive) refl)) (
            Returns-then _ _ _ _ (map_error-begin env calm (record w { step = n }) database) (
              Returns-then _ _ _ _ (new_v4_ok env calm _) (
                Returns-then _ _ _ _
                  (attempt-run env calm _ _ _ (
                    insert_transaction_fits
                      (new_transaction k key hash intent.description w.db.next_xid time) _ long
                      (draws.transaction_new (suc n)) (find_key-none key w.db.transactions fresh)))
                  (move_money-Returns laws env calm key hash intent valid w.db inv pay draws k
                    w.db.next_xid time (draws.transaction_new (suc n)) _)))))

    unrecorded : select_key key w.db ≡ none
    unfolding select_key
    unrecorded = rw (select_key, fresh) refl

    -- The whole call: one attempt, on the write path.
    execute-Returns :
        (dg : Digest)
        → ((bs : List ℕ) → length (dg.sha256 bs) ≡ 32)
        → Returns
            (execute env dg key intent)
            w
            (λ r w'. (r.outcome ≡ created) × IsAnswered key (request_hash dg intent) r.detail w'.db)
    unfolding execute_once find_by_idempotency_key is_retried request_hash
    execute-Returns dg long =
        let hash = request_hash dg intent in
        let made = write_path-Returns (suc w.step) hash (long _) in
        let found = map_error-read env calm w database (select_key key) in
        let once : execute_once env dg key intent w ≡ (ok made.value, made.left) =
          bind_ok _ _ _ _ found ∙ rw unrecorded (made.runs) in
        record {
          value = made.value;
          left = made.left;
          runs = single_attempt env dg key intent w _ once refl;
          holds = made.holds;
        }

    -- Where no statement fails, no other session commits, the identifiers that are drawn are new
    -- and the fingerprint has 32 bytes, from tables with the invariants of the ledger a request
    -- under a fresh key with a valid positive amount between two accounts of its currency, which
    -- the sender has or may owe and after which both balances fit their columns, reports a created
    -- transaction, and the whole transfer is in the tables.
    pub execute_succeeds :
        (dg : Digest)
        → ((bs : List ℕ) → length (dg.sha256 bs) ≡ 32)
        → (x : TransferResult D) × ((execute env dg key intent w).0 ≡ ok x)
          × (x.outcome ≡ created)
          × IsTransferred key
              (request_hash dg intent)
              intent
              w.db
              (execute env dg key intent w).1.db
    execute_succeeds dg long =
        let made = execute-Returns dg long in
        let told : (execute env dg key intent w).0 ≡ ok made.value =
          ap (λ (r : Result LedgerError (TransferResult D) × World). r.0) (made.runs) in
        (
          made.value,
          told,
          made.holds.0,
          (execute_exactly_once laws env (calm.alone) dg key intent w (valid.exact)).1 made.value
              told (made.holds.0),
        )

    -- Where no statement fails, no other session commits, the identifiers that are drawn are new
    -- and the fingerprint has 32 bytes, from tables with the invariants of the ledger a request
    -- under a fresh key with a valid positive amount between two accounts of its currency, which
    -- the sender has or may owe and after which both balances fit their columns, returns, and the
    -- same request, sent again, is answered with the same transaction as a replay, and changes
    -- nothing.
    pub execute_again :
        (dg : Digest)
        → ((bs : List ℕ) → length (dg.sha256 bs) ≡ 32)
        → (x : TransferResult D) × (u : World) × (v : World) × (execute env dg key intent w
            ≡ (ok x, u))
          × (execute env dg key intent u
              ≡ (ok (record { outcome = replayed; detail = x.detail }), v))
          × (v.db ≡ u.db)
    unfolding select_key
    execute_again dg long =
        let made = execute-Returns dg long in
        let (_, answered) = made.holds in
        let u = made.left in
        let same : env.others u.step u.db ≡ u.db = calm.alone u.step u.db in
        let read = Returns-get env calm answered.transaction.id made.value.detail (arrive env u) (
          subst (λ b. detail_of answered.transaction.id b ≡ ok made.value.detail) (sym same)
            (answered.shown)) in
        let recorded : select_key key (env.others u.step u.db)
            ≡ some (record {
              transaction_id = answered.transaction.id;
              request_hash = answered.transaction.request_hash;
            }) =
          rw (same, select_key, answered.recorded) refl in
        (
          made.value,
          u,
          read.left,
          made.runs,
          execute_replayed env dg key intent u (calm.faultless u.step) _ made.value.detail read.left
              recorded (rw (answered.same_hash) (text_eq_refl (request_hash dg intent)))
              (read.runs ∙ ap (λ (d : TransactionDetail D). (ok d, read.left)) (read.holds.0)),
          read.holds.1 ∙ same,
        )
