-- ===== src/Db/Transfers.antt =====
-- src/db/transfers.rs: the only code that moves money.
pub mod Replay
pub mod UnderWay
pub mod Invariant
pub mod Effect
pub mod Steps
pub mod Neighbours
pub mod Once
pub mod Retried
pub mod ExactlyOnce
pub mod Payable
pub mod Statements
pub mod Payment
pub mod Success
pub mod Book
pub mod Overdraft
pub mod Panics
pub mod Attempts
pub mod Known
pub mod Loop
pub mod Refusal
pub mod Refused
pub mod Unknown
pub mod Reads
pub mod Writing
use ledger_rs.Prelude.{
  ℕ, zero, suc, ◌+◌, Bool, true, false, not, ◌&&◌, Option, none, some, List, [], ◌∷◌, ltb, ◌==◌,
  Result, ok, err, panicked, ok_or, fail_if, or_panic, if◌then◌else◌,
}
use ledger_rs.Prelude
use ledger_rs.Prelude.Text.{Text, codes, text_eq}
use ledger_rs.Decimal.{Decimal}
use ledger_rs.Domain.Currency.{Currency, as_str, currency_eq}
use ledger_rs.Domain.Money.{is_positive}
use ledger_rs.Domain.Postings.{Direction, debit, credit, TransactionDetail}
use ledger_rs.Domain.Fingerprint.{
  TransferIntent, TransferOutcome, created, replayed, Digest, request_hash,
}
use ledger_rs.Error.{
  SqlxError, LedgerError, account_not_found, insufficient_funds, account_currency_mismatch,
  self_transfer, non_positive_amount, idempotency_key_conflict, validation, database,
  is_idempotency_key_collision, is_retryable_conflict, is_overdraft_violation,
}
use ledger_rs.Schema.Rows.{TransactionRecord, EntryRecord, Db}
use ledger_rs.Schema.Statements.{insert_transaction, insert_entry_row, update_balance}
use ledger_rs.Db.Session.{
  Env, World, Tx, Action, ◌>>=◌, ◌>>◌, pure, raise, lift, query, map_error, attempt, run, begin,
  commit, rollback, new_v4,
}
use ledger_rs.Db.Accounts.{AccountRow, fetch_for_update}
use ledger_rs.Db.Transactions.{IdempotencyRecord, find_by_idempotency_key, get}

pub record TransferResult (D : Type 0) : Type 0 where
  pub outcome : TransferOutcome
  pub detail : TransactionDetail D

abbrev pub max_conflict_retries : ℕ
max_conflict_retries = 3

-- Why an UPDATE of a balance, or the COMMIT, was refused.
unfoldable pub overdraft_error : ℕ → SqlxError → LedgerError
overdraft_error account_id e =
    if is_overdraft_violation e then insufficient_funds account_id else database e

-- `lock_order.sort_unstable()` on two ids.
abbrev pub lock_order : ℕ → ℕ → ℕ × ℕ
lock_order a b = if ltb b a then (b, a) else (a, b)

abbrev pub collision_without_record : LedgerError
collision_without_record =
    validation (codes "idempotency key collided but no transaction was found")

abbrev pub new_transaction : ℕ → Text → List ℕ → Text → ℕ → ℕ → TransactionRecord
new_transaction id key hash description xid now = record {
  id = id;
  idempotency_key = key;
  request_hash = hash;
  description = description;
  created_xid = xid;
  created_at = now;
}

-- The guard of the retry loop, on the result of an attempt.
unfoldable pub is_retried : {A : Type 0} → ℕ → Result LedgerError A → Bool
is_retried n r = elim r [
  | err (database e) ↦ is_retryable_conflict e && ltb n max_conflict_retries
  | _ ↦ false
]

module _ {D : Type 0} ⦃dec : Decimal D⦄ where
  -- `locked[&id]`, in a map of the two rows by their ids.
  unfoldable pub locked_row : ℕ × AccountRow D → ℕ × AccountRow D → ℕ → Option (AccountRow D)
  locked_row (i, a) (j, b) id = if id == j then some b else if id == i then some a else none

  unfoldable pub check_currency : AccountRow D → Currency → Result LedgerError (Unit {0})
  check_currency account currency =
      fail_if (not (currency_eq account.currency currency))
        (account_currency_mismatch account.id (as_str account.currency) (as_str currency))

  -- The tests on the two locked rows: the currencies, then the funds.
  unfoldable pub check_accounts :
      AccountRow D → AccountRow D → D → Currency → Result LedgerError (Unit {0})
  check_accounts from to amount currency = Prelude.◌>>◌ (check_currency from currency) (
      Prelude.◌>>◌ (check_currency to currency) (
        fail_if (not from.allows_negative_balance && dec.lt from.balance amount)
          (insufficient_funds from.id)))

module _ {D : Type 0} ⦃dec : Decimal D⦄ (env : Env) where
  -- `replay`
  unfoldable pub replay : Text → IdempotencyRecord → List ℕ → Action LedgerError (TransferResult D)
  replay key r hash = do
    lift (fail_if (not (text_eq r.request_hash hash)) (idempotency_key_conflict key))
    detail ← get env r.transaction_id
    pure (record { outcome = replayed; detail = detail })

  -- `adjust_balance`
  unfoldable pub adjust_balance : Tx → ℕ → D → Action LedgerError Tx
  adjust_balance tx account_id delta = do
    tables ←
        map_error (overdraft_error account_id) (run env (update_balance account_id delta tx.tables))
    pure (record tx { tables = tables })

  abbrev pub new_entry : ℕ → ℕ → ℕ → Direction → D → Currency → ℕ → EntryRecord
  new_entry id transaction_id account_id direction amount currency now = record {
    id = id;
    transaction_id = transaction_id;
    account_id = account_id;
    direction = direction;
    amount = dec.stored amount;
    currency = as_str currency;
    created_at = now;
  }

  -- `insert_entry`
  unfoldable pub insert_entry : Tx → ℕ → ℕ → Direction → D → Currency → Action LedgerError Tx
  insert_entry tx transaction_id account_id direction amount currency = do
    id ← new_v4 env
    tables ← query (
        run env (
          insert_entry_row tx.xid
            (new_entry id transaction_id account_id direction amount currency tx.started)
            tx.tables))
    pure (record tx { tables = tables; pending = transaction_id ∷ tx.pending })

  -- One round of the locking loop.
  unfoldable pub lock : Tx → ℕ → Action LedgerError (AccountRow D)
  lock tx id = do found ← fetch_for_update env tx id; lift (ok_or (account_not_found id) found)

  -- The two updates and the two entries.
  unfoldable pub post : Tx → ℕ → ℕ → ℕ → D → Currency → Action LedgerError Tx
  post tx transaction_id from to amount currency = do
    tx ← adjust_balance tx from (dec.negate amount)
    tx ← adjust_balance tx to amount
    tx ← insert_entry tx transaction_id from credit amount currency
    insert_entry tx transaction_id to debit amount currency

  -- From the claimed key to the commit.
  unfoldable pub move_money : Tx → ℕ → TransferIntent D → Action LedgerError (TransferResult D)
  move_money tx transaction_id intent = do
    let (first, second) = lock_order intent.from_account_id intent.to_account_id
    a ← lock tx first
    b ← lock tx second
    from ← lift (or_panic (locked_row (first, a) (second, b) intent.from_account_id))
    to ← lift (or_panic (locked_row (first, a) (second, b) intent.to_account_id))
    let amount = intent.amount.amount
    let currency = intent.amount.currency
    lift (check_accounts from to amount currency)
    tx ← post tx transaction_id from.id to.id amount currency
    map_error (overdraft_error from.id) (commit env tx)
    detail ← get env transaction_id
    pure (record { outcome = created; detail = detail })

  -- Another request has won the key.
  unfoldable pub lost_race : Text → List ℕ → Action LedgerError (TransferResult D)
  lost_race key hash = do
    query (rollback env)
    found ← find_by_idempotency_key env key
    r ← lift (ok_or collision_without_record found)
    replay key r hash

  -- What follows the INSERT that claims the key.
  unfoldable pub claimed :
      Tx
      → ℕ
      → Text
      → TransferIntent D
      → List ℕ
      → Result SqlxError Db
      → Action LedgerError (TransferResult D)
  claimed tx id key intent hash (ok tables) = move_money (record tx { tables = tables }) id intent
  claimed tx id key intent hash (err e) =
      if is_idempotency_key_collision e then lost_race key hash else raise (database e)
  claimed tx id key intent hash panicked = λ w. (panicked, w)

  -- The write path: the tests on the request, then the database transaction.
  unfoldable pub write_path :
      Text → TransferIntent D → List ℕ → Action LedgerError (TransferResult D)
  write_path key intent hash = do
    lift (fail_if (intent.from_account_id == intent.to_account_id) self_transfer)
    lift (fail_if (not (is_positive intent.amount)) non_positive_amount)
    tx ← query (begin env)
    id ← new_v4 env
    claim ← attempt (
        run env (
          insert_transaction (new_transaction id key hash intent.description tx.xid tx.started)
            tx.tables))
    claimed tx id key intent hash claim

  module _ (dg : Digest) where
    unfoldable pub execute_once : Text → TransferIntent D → Action LedgerError (TransferResult D)
    execute_once key intent = do
      let hash = request_hash dg intent
      found ← find_by_idempotency_key env key
      elim found [ some r ↦ replay key r hash | none ↦ write_path key intent hash ]

    -- `loop { match execute_once(..) }`, with the number of the attempt; the first argument is fuel.
    unfoldable pub execute_from :
        ℕ → ℕ → Text → TransferIntent D → Action LedgerError (TransferResult D)
    execute_from zero n key intent w = (panicked, w)
    execute_from (suc fuel) n key intent w =
        let (r, w') = execute_once key intent w in
        let again = execute_from fuel (n + 1) key intent w' in
        if is_retried n r then again else (r, w')

    -- One attempt and three retries.
    unfoldable pub execute : Text → TransferIntent D → Action LedgerError (TransferResult D)
    execute key intent = execute_from 4 0 key intent
