-- ===== src/Schema/Statements.antt =====
-- INSERT and UPDATE on the tables of migrations/0001_init.sql, as the service writes them, with
-- the CHECK, UNIQUE and foreign-key constraints and the row trigger on entries. Postgres evaluates
-- the CHECK constraints of a row in the order of their names, before its unique indexes.
use ledger_rs.Prelude.{
  ℕ, Bool, false, not, ◌&&◌, ◌||◌, Option, none, some, List, [], ◌∷◌, length, all, leb, ◌==◌,
  Result, ok, err, ◌>>=◌, ◌>>◌, fail_if, if◌then◌else◌,
}
use ledger_rs.Prelude.Int.{pos, magnitude, ltb_ℤ}
use ledger_rs.Prelude.Text.{Text, codes, text_eq}
use ledger_rs.Decimal.{Decimal}
use ledger_rs.Error.{SqlxError, db_err, unique_violation, check_violation, foreign_key_violation}
use ledger_rs.Schema.Rows.{
  AccountRecord, TransactionRecord, EntryRecord, Db, contains, contains_text, find_account,
  find_transaction, ids, transaction_ids, keys, entry_ids,
}

abbrev pub violation : Text → Text → SqlxError
violation sqlstate constraint = db_err (some sqlstate) (some constraint)

-- NUMERIC(20, 8) holds less than 10¹² in size.
abbrev pub numeric_limit : ℕ
numeric_limit = 100_000_000_000_000_000_000

abbrev pub numeric_overflow : SqlxError
numeric_overflow = db_err (some (codes "22003")) none

-- `CHECK (allows_negative_balance OR balance >= 0)`
abbrev pub balance_allowed : AccountRecord → Bool
balance_allowed a = a.allows_negative_balance || not (ltb_ℤ a.balance (pos 0))

-- `currency ~ '^[A-Z]{3}$'`
abbrev three_letters : Text → Bool
three_letters c = length c == 3 && all (λ x. leb 65 x && leb x 90) c

-- `INSERT INTO accounts`
unfoldable pub insert_account : AccountRecord → Db → Result SqlxError Db
insert_account a db = do
  fail_if (not (balance_allowed a))
      (violation check_violation (codes "accounts_balance_non_negative"))
  fail_if (not (three_letters a.currency))
      (violation check_violation (codes "accounts_currency_check"))
  fail_if (not (leb 1 (length a.name) && leb (length a.name) 255))
      (violation check_violation (codes "accounts_name_check"))
  fail_if (contains a.id (ids db.accounts)) (violation unique_violation (codes "accounts_pkey"))
  ok (record db { accounts = a ∷ db.accounts })

-- `INSERT INTO transactions`
unfoldable pub insert_transaction : TransactionRecord → Db → Result SqlxError Db
insert_transaction t db = do
  fail_if (not (length t.request_hash == 32))
      (violation check_violation (codes "transactions_request_hash_check"))
  fail_if (contains t.id (transaction_ids db.transactions))
      (violation unique_violation (codes "transactions_pkey"))
  fail_if (contains_text t.idempotency_key (keys db.transactions))
      (violation unique_violation (codes "transactions_idempotency_key_key"))
  ok (record db { transactions = t ∷ db.transactions })

-- `assert_entry_in_parent_xact`, on the row of the parent.
unfoldable pub assert_entry_in_parent_xact :
    ℕ → Option TransactionRecord → Result SqlxError (Unit {0})
assert_entry_in_parent_xact xid none = err (db_err (some foreign_key_violation) none)
assert_entry_in_parent_xact xid (some parent) =
    fail_if (not (parent.created_xid == xid))
      (violation check_violation (codes "entries_written_with_parent"))

-- The composite foreign key of an entry: some account has its id and its currency.
unfoldable pub account_matches : Text → Option AccountRecord → Bool
account_matches currency none = false
account_matches currency (some a) = text_eq a.currency currency

-- `INSERT INTO entries`, in the database transaction `xid`.
unfoldable pub insert_entry_row : ℕ → EntryRecord → Db → Result SqlxError Db
insert_entry_row xid e db = do
  fail_if (leb numeric_limit (magnitude e.amount)) numeric_overflow
  assert_entry_in_parent_xact xid (find_transaction e.transaction_id db.transactions)
  fail_if (not (ltb_ℤ (pos 0) e.amount)) (violation check_violation (codes "entries_amount_check"))
  fail_if (contains e.id (entry_ids db.entries)) (violation unique_violation (codes "entries_pkey"))
  fail_if (not (account_matches e.currency (find_account e.account_id db.accounts)))
      (violation foreign_key_violation (codes "entries_account_currency_fkey"))
  ok (record db { entries = e ∷ db.entries })

module _ {D : Type 0} ⦃dec : Decimal D⦄ where
  -- `SET balance = balance + $1` on one row.
  unfoldable pub set_balance : D → AccountRecord → Result SqlxError AccountRecord
  set_balance delta a = do
    let raised = record a { balance = dec.stored_sum a.balance delta }
    fail_if (leb numeric_limit (magnitude raised.balance)) numeric_overflow
    fail_if (not (balance_allowed raised))
        (violation check_violation (codes "accounts_balance_non_negative"))
    ok raised

  -- `UPDATE accounts SET balance = balance + $1 WHERE id = $2`
  unfoldable pub update_accounts :
      ℕ → D → List AccountRecord → Result SqlxError (List AccountRecord)
  update_accounts k delta [] = ok []
  update_accounts k delta (a ∷ rest) = do
    a' ← if a.id == k then set_balance delta a else ok a
    rest' ← update_accounts k delta rest
    ok (a' ∷ rest')

  unfoldable pub update_balance : ℕ → D → Db → Result SqlxError Db
  update_balance k delta db = do
    accounts' ← update_accounts k delta db.accounts
    ok (record db { accounts = accounts' })
