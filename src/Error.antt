-- ===== src/Error.antt =====
-- src/error.rs: every failure of the ledger, its code and status for the HTTP edge, and the
-- reading of database errors. Of an error of the driver `sqlx` the service looks at two things
-- only: whether it came from the database, and then its SQLSTATE and the constraint's name.
pub mod Taxonomy
use ledger_rs.Prelude.{ℕ, Bool, true, false, ◌&&◌, ◌||◌, Option, none, some, ◌++◌, Result}
use ledger_rs.Prelude.Text.{Text, codes, text_eq}
use ledger_rs.Domain.Currency.{MoneyError}

-- `db_err` carries the SQLSTATE and the constraint, each if there is one.
pub data SqlxError : Type 0 where
  db_err : Option Text → Option Text → SqlxError
  other_error : SqlxError

pub data LedgerError : Type 0 where
  account_not_found : ℕ → LedgerError
  transaction_not_found : ℕ → LedgerError
  insufficient_funds : ℕ → LedgerError
  account_currency_mismatch : ℕ → Text → Text → LedgerError
  self_transfer : LedgerError
  non_positive_amount : LedgerError
  funding_account_creation_disabled : LedgerError
  missing_idempotency_key : LedgerError
  idempotency_key_conflict : Text → LedgerError
  validation : Text → LedgerError
  money : MoneyError → LedgerError
  database : SqlxError → LedgerError

unfoldable pub code : LedgerError → Text
code (account_not_found _) = codes "account_not_found"
code (transaction_not_found _) = codes "transaction_not_found"
code (insufficient_funds _) = codes "insufficient_funds"
code (account_currency_mismatch _ _ _) = codes "currency_mismatch"
code self_transfer = codes "self_transfer"
code non_positive_amount = codes "non_positive_amount"
code funding_account_creation_disabled = codes "funding_account_creation_disabled"
code missing_idempotency_key = codes "missing_idempotency_key"
code (idempotency_key_conflict _) = codes "idempotency_key_conflict"
code (validation _) = codes "validation_failed"
code (money _) = codes "invalid_amount"
code (database _) = codes "internal_error"

-- The status code as its number.
unfoldable pub status : LedgerError → ℕ
status (account_not_found _) = 404
status (transaction_not_found _) = 404
status missing_idempotency_key = 400
status funding_account_creation_disabled = 403
status (idempotency_key_conflict _) = 409
status (insufficient_funds _) = 422
status (account_currency_mismatch _ _ _) = 422
status self_transfer = 422
status non_positive_amount = 422
status (validation _) = 422
status (money _) = 422
status (database _) = 500

-- The parts of a response: its status, and the code and message of its body.
pub record Response : Type 0 where
  pub response_status : ℕ
  pub response_code : Text
  pub message : Text

-- `into_response`; `display` is the derived `Display`, whose texts hold what `uuid`,
-- `rust_decimal` and `sqlx` print.
unfoldable pub into_response : (LedgerError → Text) → LedgerError → Response
into_response display (database e) = record {
  response_status = status (database e);
  response_code = code (database e);
  message = codes "an internal error occurred";
}
into_response display e = record {
  response_status = status e;
  response_code = code e;
  message = display e;
}

abbrev pub unique_violation : Text
unique_violation = codes "23505"

abbrev pub check_violation : Text
check_violation = codes "23514"

abbrev pub restrict_violation : Text
restrict_violation = codes "23001"

abbrev pub foreign_key_violation : Text
foreign_key_violation = codes "23503"

abbrev pub serialization_failure : Text
serialization_failure = codes "40001"

abbrev pub deadlock_detected : Text
deadlock_detected = codes "40P01"

-- The SQLSTATE and the constraint's name; an error with no SQLSTATE is none.
unfoldable pub constraint_failure : SqlxError → Option (Text × Option Text)
constraint_failure (db_err (some code) constraint) = some (code, constraint)
constraint_failure (db_err none constraint) = none
constraint_failure other_error = none

-- `matches!(failure, Some((code, Some(constraint))) if code == .. && constraint == ..)`
names : Text → Text → Option (Text × Option Text) → Bool
names c n (some (code, some constraint)) = text_eq code c && text_eq constraint n
names c n (some (code, none)) = false
names c n none = false

unfoldable pub is_idempotency_key_collision : SqlxError → Bool
unfolding names constraint_failure
is_idempotency_key_collision e =
    names unique_violation (codes "transactions_idempotency_key_key") (constraint_failure e)

unfoldable pub is_retryable_conflict : SqlxError → Bool
unfolding constraint_failure
is_retryable_conflict e = elim (constraint_failure e) [
  | some (code, _) ↦ text_eq code serialization_failure || text_eq code deadlock_detected
  | none ↦ false
]

unfoldable pub is_overdraft_violation : SqlxError → Bool
unfolding names constraint_failure
is_overdraft_violation e =
    names check_violation (codes "accounts_balance_non_negative") (constraint_failure e)
