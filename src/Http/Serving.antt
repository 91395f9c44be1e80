-- ===== src/Http/Serving.antt =====
-- What every request that the router serves does to the tables.
use ledger_rs.Prelude.{
  Result, ℕ, Bool-cases, inl, inr, Option, none, some, List, [], ◌∷◌, Option-cases,
}
use ledger_rs.Prelude.Text.{Text}
use ledger_rs.Decimal.{Decimal, DecimalLaws}
use ledger_rs.Domain.Fingerprint.{Digest}
use ledger_rs.Error.{LedgerError}
use ledger_rs.Schema.Rows.{Db}
use ledger_rs.Schema.Invariant.{Inv}
use ledger_rs.Db.Session.{Env, World, read}
use ledger_rs.Db.Session.Triples.{
  Triple->>=, Triple-lift, Triple-weaken, Triple-map_error, Triple-read,
}
use ledger_rs.Db.Session.Writes.{Outcome-always}
use ledger_rs.Db.Accounts.{get, fetch, select_account}
use ledger_rs.Db.Transfers.Reads.{get-Triple}
use ledger_rs.Http.Handlers.{
  get_account, get_transaction, create_account, create_transfer, CreateAccountRequest,
  TransferRequest,
}
use ledger_rs.Http.Safety.{create_transfer-Inv}
use ledger_rs.Http.Accounts.{create_account-Inv}
use ledger_rs.Http.Router.{
  Framework, AppState, Request, Method, Endpoint, health_live, health_ready, accounts_create,
  accounts_get, transfers_create, transactions_get, handle, dispatch, serve, routes, with_id, Reply,
}

-- A property of the tables that opening an account and making a transfer keep.
module _ {D : Type 0} ⦃dec : Decimal D⦄ (framework : Framework D) (display : LedgerError → Text)
    (dg : Digest) (env : Env) (state : AppState) (Safe : Db → Type 0)
    (lawful : (n : ℕ) (db : Db) → Safe db → Safe (env.others n db))
    (opening : (payload : Result Text CreateAccountRequest) (w : World)
      → Safe w.db
      → Safe (create_account {D = D} env state.allow_funding_account_creation payload w).1.db)
    (paying : (header : Option (Option Text)) (payload : Result Text (TransferRequest D))
        (w : World)
      → Safe w.db
      → Safe (create_transfer env dg header payload w).1.db) where
  get_account-Safe : (id : ℕ) (w : World) → Safe w.db → Safe (get_account {D = D} env id w).1.db
  unfolding get_account get fetch
  get_account-Safe id w v = Outcome-always Safe (get_account {D = D} env id w) (
      (Triple->>= Safe _ _
          (Triple-map_error Safe _ _ (Triple-read Safe env lawful (select_account id)))
          λ found. Triple->>= Safe _ _ (Triple-lift Safe _ (λ db h. h)) λ row.
            Triple-weaken Safe _ (Triple-lift Safe _ (λ db h. h)) (λ db h. h.0) (λ a db h. h.0)).at
        w v)

  get_transaction-Safe :
      (id : ℕ) (w : World) → Safe w.db → Safe (get_transaction {D = D} env id w).1.db
  unfolding get_transaction
  get_transaction-Safe id w v =
      Outcome-always Safe (get_transaction {D = D} env id w)
        ((get-Triple Safe env lawful id).at w v)

  with_id-Safe :
      (o : Option ℕ) (handler : ℕ → World → Reply D × World) (w : World)
      → ((id : ℕ) → Safe (handler id w).1.db)
      → Safe w.db
      → Safe (with_id framework display dg env state o handler w).1.db
  unfolding with_id
  with_id-Safe none handler w h v = v
  with_id-Safe (some id) handler w h v = h id

  handle-Safe :
      (e : Endpoint) (segment : Text) (request : Request D) (w : World)
      → Safe w.db
      → Safe (handle framework display dg env state e segment request w).1.db
  unfolding handle read
  handle-Safe health_live segment request w v = v
  handle-Safe health_ready segment request w v = lawful w.step w.db v
  handle-Safe accounts_create segment request w v = opening request.account_payload w v
  handle-Safe accounts_get segment request w v =
      with_id-Safe (framework.uuid segment) _ w (λ id. get_account-Safe id w v) v
  handle-Safe transfers_create segment request w v =
      paying request.key_header request.transfer_payload w v
  handle-Safe transactions_get segment request w v =
      with_id-Safe (framework.uuid segment) _ w (λ id. get_transaction-Safe id w v) v

  dispatch-Safe :
      (table : List (Text × Method × Endpoint)) (request : Request D) (w : World)
      → Safe w.db
      → Safe (dispatch framework display dg env state table request w).1.db
  unfolding dispatch
  dispatch-Safe [] request w v = v
  dispatch-Safe ((pattern, method, endpoint) ∷ rest) request w v =
      elim (Option-cases (framework.matches pattern request.path)) [
        | inl e ↦ rw (e, dispatch) (dispatch-Safe rest request w v)
        | inr (segment, e) ↦ elim (Bool-cases (framework.accepts method request.request_method)) [
          | inl allowed ↦ rw (e, allowed, dispatch) (handle-Safe endpoint segment request w v)
          | inr refused ↦ rw (e, refused, dispatch) v
        ]
      ]

  pub serve-Safe :
      (request : Request D) (w : World)
      → Safe w.db
      → Safe (serve framework display dg env state request w).1.db
  serve-Safe request w v = dispatch-Safe routes request w v

module _ {D : Type 0} ⦃dec : Decimal D⦄ (laws : DecimalLaws D) (framework : Framework D)
    (display : LedgerError → Text) (dg : Digest) (env : Env) (state : AppState)
    (lawful : (n : ℕ) (db : Db) → Inv db → Inv (env.others n db)) where
  -- The invariants of the ledger survive every request that the router serves, whatever its path,
  -- method, header and bodies are, also where statements fail, beside other sessions that keep the
  -- invariants.
  pub serve-Inv :
      (request : Request D) (w : World)
      → Inv w.db
      → Inv (serve framework display dg env state request w).1.db
  serve-Inv =
      serve-Safe framework display dg env state Inv lawful
        (create_account-Inv D env lawful state.allow_funding_account_creation)
        (create_transfer-Inv laws env lawful dg)
