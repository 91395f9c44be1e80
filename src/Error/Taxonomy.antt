-- ===== src/Error/Taxonomy.antt =====
-- The responses of src/error.rs.
use ledger_rs.Prelude.{◌≡◌, ◌≢◌, refl}
use ledger_rs.Prelude.Text.{Text}
use ledger_rs.Error.{
  SqlxError, LedgerError, account_not_found, transaction_not_found, insufficient_funds,
  account_currency_mismatch, self_transfer, non_positive_amount, funding_account_creation_disabled,
  missing_idempotency_key, idempotency_key_conflict, validation, money, database, code, status,
  into_response,
}

-- Two ways to print errors that agree on every error but those of the database give the same
-- responses, and all database errors give one response, whose status is 500: nothing that the
-- driver says reaches a client.
pub into_response_hides :
    (display display' : LedgerError → Text)
    → ((e : LedgerError) → ((x : SqlxError) → e ≢ database x) → display e ≡ display' e)
    → (e : LedgerError)
    → (into_response display e ≡ into_response display' e)
      × ((x y : SqlxError)
          → (into_response display (database x) ≡ into_response display (database y))
            × ((into_response display (database x)).response_status ≡ 500))
unfolding into_response status code
into_response_hides display display' h e = (shown e, λ x y. (refl, refl))
  where
    shown : (e : LedgerError) → into_response display e ≡ into_response display' e
    shown (database x) = refl
    shown (account_not_found a) = rw (h (account_not_found a) (λ x p. cc)) refl
    shown (transaction_not_found a) = rw (h (transaction_not_found a) (λ x p. cc)) refl
    shown (insufficient_funds a) = rw (h (insufficient_funds a) (λ x p. cc)) refl
    shown (account_currency_mismatch a b c) =
        rw (h (account_currency_mismatch a b c) (λ x p. cc)) refl
    shown self_transfer = rw (h self_transfer (λ x p. cc)) refl
    shown non_positive_amount = rw (h non_positive_amount (λ x p. cc)) refl
    shown funding_account_creation_disabled =
        rw (h funding_account_creation_disabled (λ x p. cc)) refl
    shown missing_idempotency_key = rw (h missing_idempotency_key (λ x p. cc)) refl
    shown (idempotency_key_conflict a) = rw (h (idempotency_key_conflict a) (λ x p. cc)) refl
    shown (validation a) = rw (h (validation a) (λ x p. cc)) refl
    shown (money a) = rw (h (money a) (λ x p. cc)) refl
