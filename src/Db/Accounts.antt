-- ===== src/Db/Accounts.antt =====
-- src/db/accounts.rs: account rows, their creation and their reads.
use ledger_rs.Prelude.{
  ℕ, Bool, true, false, Option, none, some, ok, err, Result, ok_or, map_err, [],
}
use ledger_rs.Prelude
use ledger_rs.Prelude.Int.{pos}
use ledger_rs.Prelude.Text.{Text, codes, text_eq}
use ledger_rs.Decimal.{Decimal}
use ledger_rs.Domain.Currency.{Currency, as_str}
use ledger_rs.Domain.Money
use ledger_rs.Domain.Postings.{Account}
use ledger_rs.Error.{
  LedgerError, SqlxError, account_not_found, validation, database, money, check_violation,
  constraint_failure,
}
use ledger_rs.Schema.Rows.{AccountRecord, Db, find_account}
use ledger_rs.Schema.Statements.{insert_account}
use ledger_rs.Db.Session.{
  Env, Tx, Action, ◌>>=◌, ◌>>◌, lift, query, map_error, read, write, run, new_v4, now,
}

-- The row as the driver decodes it.
pub record AccountRow (D : Type 0) : Type 0 where
  pub id : ℕ
  pub name : Text
  pub currency : Currency
  pub balance : D
  pub allows_negative_balance : Bool
  pub created_at : ℕ

-- The `map_err` of `create`.
unfoldable pub creation_error : SqlxError → LedgerError
creation_error e = elim (constraint_failure e) [
  | none ↦ database e
  | some (code, _) ↦ elim (text_eq code check_violation) [
    | true ↦ validation (codes "account name must be 1-255 characters")
    | false ↦ database e
  ]
]

-- The row that the INSERT of `create` writes; the columns that it leaves out take their defaults.
abbrev pub new_account : ℕ → Text → Currency → Bool → ℕ → AccountRecord
new_account id name currency allows_negative_balance now = record {
  id = id;
  name = name;
  currency = as_str currency;
  balance = pos 0;
  allows_negative_balance = allows_negative_balance;
  created_at = now;
}

module _ {D : Type 0} ⦃dec : Decimal D⦄ where
  abbrev pub to_row : AccountRecord → AccountRow D
  to_row a = record {
    id = a.id;
    name = a.name;
    currency = record { code = a.currency };
    balance = dec.fetched a.balance;
    allows_negative_balance = a.allows_negative_balance;
    created_at = a.created_at;
  }

  -- `TryFrom<AccountRow>`
  unfoldable pub to_account : AccountRow D → Result LedgerError (Account D)
  to_account row = Prelude.◌>>=◌ (map_err money (Money.new row.balance row.currency)) λ balance.
      ok (record {
        id = row.id;
        name = row.name;
        balance = balance;
        allows_negative_balance = row.allows_negative_balance;
        created_at = row.created_at;
      })

  abbrev pub select_account : ℕ → Db → Option (AccountRow D)
  select_account id db = elim (find_account id db.accounts) [
    | none ↦ none
    | some a ↦ some (to_row a)
  ]

  -- `fetch`
  unfoldable pub fetch : Env → ℕ → Action LedgerError (Option (AccountRow D))
  fetch env id = query (read env (select_account id))

  -- `fetch_for_update`, in an open transaction.
  unfoldable pub fetch_for_update : Env → Tx → ℕ → Action LedgerError (Option (AccountRow D))
  fetch_for_update env tx id = query (run env (ok (select_account id tx.tables)))

  unfoldable pub get : Env → ℕ → Action LedgerError (Account D)
  get env id = do
    found ← fetch env id
    row ← lift (ok_or (account_not_found id) found)
    lift (to_account row)

  unfoldable pub create : Env → Text → Currency → Bool → Action LedgerError (Account D)
  create env name currency allows_negative_balance = do
    id ← new_v4 env
    now ← now env
    let a = new_account id name currency allows_negative_balance now
    map_error creation_error (write env (insert_account a))
    lift (to_account (to_row a))
