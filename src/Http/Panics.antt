-- ===== src/Http/Panics.antt =====
-- The handlers never panic, whatever the request is and whatever fails below them.
use ledger_rs.Prelude.{ℕ, ◌≢◌, ok, panicked, Result, Option, Bool, length, ltb, fail_if, ◌>>◌}
use ledger_rs.Prelude.Text.{Text, codes}
use ledger_rs.Decimal.{Decimal, DecimalLaws}
use ledger_rs.Domain.Currency.{Currency}
use ledger_rs.Domain.Fingerprint.{Digest}
use ledger_rs.Domain.Bytes.{as_bytes}
use ledger_rs.Error.{validation, money, missing_idempotency_key, LedgerError}
use ledger_rs.Schema.Panics.{insert_account-Returned}
use ledger_rs.Db.Session.{Env, World}
use ledger_rs.Db.Session.Panics.{
  Returned, ok-Returned, ok_or-Returned, fail_if-Returned, chain-Returned, map_err-Returned,
  NeverPanics, NeverPanics->>=, NeverPanics-lift, NeverPanics-pure, NeverPanics-map_error,
  NeverPanics-read, NeverPanics-write, NeverPanics-new_v4, NeverPanics-now,
}
use ledger_rs.Db.Accounts
use ledger_rs.Db.Accounts.{AccountRow, to_account}
use ledger_rs.Db.Transfers.Panics.{new-Returned, NeverPanics-get}
use ledger_rs.Db.Transfers.Attempts.{NeverPanics-execute}
use ledger_rs.Http.Headers.{extract_idempotency_key, trim, is_empty, max_idempotency_key_len}
use ledger_rs.Http.Handlers.{
  CreateAccountRequest, TransferRequest, create_transfer, create_account, get_account,
  get_transaction,
}

-- What is left of the header's text.
key-Returned :
    (key : Text)
    → Returned {E = LedgerError} (
        fail_if (is_empty key) missing_idempotency_key
        >> (fail_if
              (ltb max_idempotency_key_len (length (as_bytes key)))
              (validation (codes "Idempotency-Key must be at most 255 bytes"))
            >> ok key))
key-Returned key =
    chain-Returned (fail_if (is_empty key) missing_idempotency_key) _
      (fail_if-Returned (is_empty key) missing_idempotency_key)
      λ _. chain-Returned _ _ (fail_if-Returned _ _) λ _. ok-Returned _

header-Returned : (header : Option (Option Text)) → Returned (extract_idempotency_key header)
unfolding extract_idempotency_key
header-Returned header =
    chain-Returned _ _ (ok_or-Returned _ header)
      λ raw. chain-Returned _ _ (ok_or-Returned _ raw) λ text. key-Returned (trim text)

module _ {D : Type 0} ⦃dec : Decimal D⦄ (laws : DecimalLaws D) (env : Env) where
  account-Returned : (row : AccountRow D) → Returned (to_account row)
  unfolding to_account
  account-Returned row =
      chain-Returned _ _ (map_err-Returned money _ (new-Returned laws row.balance row.currency))
        λ _. ok-Returned _

  NeverPanics-get_account : (id : ℕ) → NeverPanics (get_account {D = D} env id)
  unfolding get_account Accounts.get Accounts.fetch
  NeverPanics-get_account id =
      NeverPanics->>= _ _ (NeverPanics-map_error _ _ (NeverPanics-read env _)) λ found.
        NeverPanics->>= _ _ (NeverPanics-lift _ (ok_or-Returned _ _))
          λ row. NeverPanics-lift _ (account-Returned row)

  NeverPanics-create :
      (name : Text) (c : Currency) (funding : Bool)
      → NeverPanics (Accounts.create {D = D} env name c funding)
  unfolding Accounts.create
  NeverPanics-create name c funding = NeverPanics->>= _ _ (NeverPanics-new_v4 env) λ id.
      NeverPanics->>= _ _ (NeverPanics-now env) λ now.
        NeverPanics->>= _ _
          (NeverPanics-map_error _ _ (NeverPanics-write env _ (insert_account-Returned _)))
          λ _. NeverPanics-lift _ (account-Returned _)

  NeverPanics-create_account :
      (allowed : Bool) (payload : Result Text CreateAccountRequest)
      → Returned payload
      → NeverPanics (create_account {D = D} env allowed payload)
  unfolding create_account
  NeverPanics-create_account allowed payload read =
      NeverPanics->>= _ _ (NeverPanics-lift _ (map_err-Returned _ _ read)) λ request.
        NeverPanics->>= _ _ (NeverPanics-lift _ (fail_if-Returned _ _)) λ _.
          NeverPanics->>= _ _ (NeverPanics-lift _ (fail_if-Returned _ _)) λ _.
            NeverPanics->>= _ _ (NeverPanics-lift _ (fail_if-Returned _ _)) λ _.
              NeverPanics->>= _ _
                (NeverPanics-create (trim request.name) request.currency
                  request.allows_negative_balance)
                λ account. NeverPanics-pure _

  NeverPanics-create_transfer :
      (dg : Digest) (header : Option (Option Text)) (payload : Result Text (TransferRequest D))
      → Returned payload
      → NeverPanics (create_transfer env dg header payload)
  unfolding create_transfer
  NeverPanics-create_transfer dg header payload read =
      NeverPanics->>= _ _ (NeverPanics-lift _ (header-Returned header)) λ key.
        NeverPanics->>= _ _ (NeverPanics-lift _ (map_err-Returned _ _ read)) λ request.
          NeverPanics->>= _ _
            (NeverPanics-lift _
              (map_err-Returned _ _ (new-Returned laws request.amount request.currency)))
            λ amount. NeverPanics->>= _ _ (NeverPanics-lift _ (fail_if-Returned _ _)) λ _.
              NeverPanics->>= _ _ (NeverPanics-execute laws env dg key _)
                λ result. NeverPanics-pure _

  -- No handler panics, whatever a request carries and whatever fails below it: a payload that does
  -- not parse, a header that is no text, an amount out of range, a statement that fails, an
  -- operation of another session. Each of the four handlers gives a value or one of the errors of
  -- the ledger, and the retry loop of a transfer ends. The laws of the decimals are assumed, and
  -- that the framework hands over payloads that it has read without a panic.
  pub handlers_never_panic :
      (dg : Digest) (header : Option (Option Text)) (transfer : Result Text (TransferRequest D))
      (allowed : Bool) (account : Result Text CreateAccountRequest) (id : ℕ) (w : World)
      → transfer ≢ panicked
      → account ≢ panicked
      → ((create_transfer env dg header transfer w).0 ≢ panicked)
        × ((create_account {D = D} env allowed account w).0 ≢ panicked)
        × ((get_account {D = D} env id w).0 ≢ panicked)
        × ((get_transaction {D = D} env id w).0 ≢ panicked)
  unfolding get_transaction
  handlers_never_panic dg header transfer allowed account id w read_transfer read_account = (
    (NeverPanics-create_transfer dg header transfer read_transfer).returns w,
    (NeverPanics-create_account allowed account read_account).returns w,
    (NeverPanics-get_account id).returns w,
    (NeverPanics-get laws env id).returns w,
  )
