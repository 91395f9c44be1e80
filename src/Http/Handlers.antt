-- ===== src/Http/Handlers.antt =====
-- src/http/transfers.rs, src/http/accounts.rs and src/http/transactions.rs. A payload that does not
-- parse is the text of its rejection.
use ledger_rs.Prelude.{ℕ, Bool, not, ◌&&◌, Option, length, ltb, Result, map_err, fail_if}
use ledger_rs.Prelude.Text.{Text, codes}
use ledger_rs.Decimal.{Decimal}
use ledger_rs.Domain.Currency.{Currency}
use ledger_rs.Domain.Money.{Money, new}
use ledger_rs.Domain.Postings.{Account, TransactionDetail}
use ledger_rs.Domain.Fingerprint.{TransferIntent, TransferOutcome, created, replayed, Digest}
use ledger_rs.Error.{LedgerError, validation, money, funding_account_creation_disabled}
use ledger_rs.Db.Session.{Env, Action, ◌>>=◌, ◌>>◌, pure, lift}
use ledger_rs.Db.Accounts
use ledger_rs.Db.Transactions
use ledger_rs.Db.Transfers.{execute}
use ledger_rs.Http.Headers.{extract_idempotency_key, trim, is_empty}

pub record CreateAccountRequest : Type 0 where
  pub name : Text
  pub currency : Currency
  pub allows_negative_balance : Bool

pub record TransferRequest (D : Type 0) : Type 0 where
  pub from_account_id : ℕ
  pub to_account_id : ℕ
  pub amount : D
  pub currency : Currency
  pub description : Text

abbrev pub max_name_len : ℕ
max_name_len = 255

abbrev pub max_description_len : ℕ
max_description_len = 512

unfoldable pub outcome_status : TransferOutcome → ℕ
outcome_status created = 201
outcome_status replayed = 200

abbrev pub to_intent : {D : Type 0} → TransferRequest D → Money D → TransferIntent D
to_intent request amount = record {
  from_account_id = request.from_account_id;
  to_account_id = request.to_account_id;
  amount = amount;
  description = request.description;
}

module _ {D : Type 0} ⦃dec : Decimal D⦄ (env : Env) where
  -- `POST /transfers`
  unfoldable pub create_transfer :
      Digest
      → Option (Option Text)
      → Result Text (TransferRequest D)
      → Action LedgerError (ℕ × TransactionDetail D)
  create_transfer dg header payload = do
    key ← lift (extract_idempotency_key header)
    request ← lift (map_err validation payload)
    amount ← lift (map_err money (new request.amount request.currency))
    lift (
        fail_if (ltb max_description_len (length request.description))
          (validation (codes "description must be at most 512 characters")))
    result ← execute env dg key (to_intent request amount)
    pure (outcome_status result.outcome, result.detail)

  -- `POST /accounts`
  unfoldable pub create_account :
      Bool → Result Text CreateAccountRequest → Action LedgerError (ℕ × Account D)
  create_account allow_funding_account_creation payload = do
    request ← lift (map_err validation payload)
    lift (
        fail_if (request.allows_negative_balance && not allow_funding_account_creation)
          funding_account_creation_disabled)
    let name = trim request.name
    lift (fail_if (is_empty name) (validation (codes "name must not be empty")))
    lift (
        fail_if (ltb max_name_len (length name))
          (validation (codes "name must be at most 255 characters")))
    account ← Accounts.create env name request.currency request.allows_negative_balance
    pure (201, account)

  -- `GET /accounts/{id}`
  unfoldable pub get_account : ℕ → Action LedgerError (Account D)
  get_account id = Accounts.get env id

  -- `GET /transactions/{id}`
  unfoldable pub get_transaction : ℕ → Action LedgerError (TransactionDetail D)
  get_transaction id = Transactions.get env id
