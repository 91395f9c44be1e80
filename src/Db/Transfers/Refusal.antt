-- ===== src/Db/Transfers/Refusal.antt =====
-- A request that ends with an error after it has claimed a fresh key, in calm.
use ledger_rs.Prelude.{
  ℕ, suc, ◌≡◌, refl, ◌∙◌, true, false, none, List, length, ok, err, Result, ◌==◌,
}
use ledger_rs.Prelude.Text.{Text}
use ledger_rs.Decimal.{Decimal}
use ledger_rs.Domain.Money.{is_positive}
use ledger_rs.Domain.Fingerprint.{TransferIntent, Digest, request_hash}
use ledger_rs.Error.{LedgerError, database}
use ledger_rs.Schema.Rows.{Db, find_key, contains, transaction_ids}
use ledger_rs.Schema.Carried.{insert_transaction_fits, find_key-none}
use ledger_rs.Db.Session.{Env, World, Tx, Action, ◌>>=◌, lift}
use ledger_rs.Db.Session.Calm.{
  IsCalm, bind_ok, bind_err, new_v4_ok, lift_ok, map_error-begin, attempt-run, map_error-read,
}
use ledger_rs.Db.Transactions.{find_by_idempotency_key, select_key}
use ledger_rs.Db.Transfers.{
  TransferResult, new_transaction, claimed, write_path, move_money, execute_once, execute,
  is_retried,
}
use ledger_rs.Db.Transfers.Effect.{Same}
use ledger_rs.Db.Transfers.Replay.{single_attempt}

-- The action ends with the error, and no row is changed.
pub record Refuses {A : Type 0} (m : Action LedgerError A) (w : World) (e : LedgerError) (db : Db)
    : Type 0 where
  pub left : World
  pub runs : m w ≡ (err e, left)
  pub kept : Same db left.db

module _ {A : Type 0} {w : World} {e : LedgerError} {db : Db} where
  pub Refuses-then :
      {B : Type 0} (m : Action LedgerError A) (f : A → Action LedgerError B) (a : A) (u : World)
      → m w ≡ (ok a, u)
      → Refuses (f a) u e db
      → Refuses (m >>= f) w e db
  Refuses-then m f a u h r = record {
    left = r.left;
    runs = bind_ok m f a u h ∙ r.runs;
    kept = r.kept;
  }

  pub Refuses-lift :
      {B : Type 0} (r : Result LedgerError A) (f : A → Action LedgerError B)
      → r ≡ err e
      → Same db w.db
      → Refuses (lift r >>= f) w e db
  unfolding lift ◌>>=◌
  Refuses-lift r f h s = record { left = w; runs = rw h refl; kept = s }

  pub Refuses-first :
      {B : Type 0} (m : Action LedgerError A) (f : A → Action LedgerError B) (u : World)
      → m w ≡ (err e, u)
      → Same db u.db
      → Refuses (m >>= f) w e db
  Refuses-first m f u h s = record { left = u; runs = bind_err m f e u h; kept = s }

module _ {D : Type 0} ⦃dec : Decimal D⦄ (env : Env) (calm : IsCalm env) (key : Text)
    (intent : TransferIntent D) (w : World)
    (two : (intent.from_account_id == intent.to_account_id) ≡ false)
    (positive : is_positive intent.amount ≡ true) (fresh : find_key key w.db.transactions ≡ none)
    (new : (n : ℕ) → contains (env.uuid n) (transaction_ids w.db.transactions) ≡ false)
    (e : LedgerError)
    (refused : (tx : Tx) (k : ℕ) (u : World)
      → tx.tables.accounts ≡ w.db.accounts
      → Same w.db u.db
      → Refuses (move_money env tx k intent) u e w.db) where
  write_path-Refuses :
      (n : ℕ) (hash : List ℕ)
      → length hash ≡ 32
      → Refuses (write_path env key intent hash) (record w { step = n }) e w.db
  unfolding write_path claimed
  write_path-Refuses n hash long = Refuses-then _ _ tt _ (lift_ok _ _ (rw two refl)) (
      Refuses-then _ _ tt _ (lift_ok _ _ (rw positive refl)) (
        Refuses-then _ _ _ _ (map_error-begin env calm (record w { step = n }) database) (
          Refuses-then _ _ _ _ (new_v4_ok env calm _) (
            Refuses-then _ _ _ _
              (attempt-run env calm _ _ _ (
                insert_transaction_fits
                  (new_transaction (env.uuid (suc n)) key hash intent.description w.db.next_xid
                    (env.now n))
                  _ long (new (suc n)) (find_key-none key w.db.transactions fresh)))
              (refused _ (env.uuid (suc n)) _ refl (record {
                accounts_same = refl;
                transactions_same = refl;
                entries_same = refl;
              }))))))

  unrecorded : select_key key w.db ≡ none
  unfolding select_key
  unrecorded = rw (select_key, fresh) refl

  pub execute-Refuses :
      (dg : Digest)
      → ((bs : List ℕ) → length (dg.sha256 bs) ≡ 32)
      → is_retried {A = TransferResult D} 0 (err e) ≡ false
      → (u : World) × (execute env dg key intent w ≡ (err e, u)) × Same w.db u.db
  unfolding execute_once find_by_idempotency_key request_hash
  execute-Refuses dg long last =
      let r = write_path-Refuses (suc w.step) (request_hash dg intent) (long _) in
      let found = map_error-read env calm w database (select_key key) in
      let once : execute_once env dg key intent w ≡ (err e, r.left) =
        bind_ok _ _ _ _ found ∙ rw unrecorded (r.runs) in
      (r.left, single_attempt env dg key intent w _ once last, r.kept)
