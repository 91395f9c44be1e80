-- ===== src/Http/Router.antt =====
-- src/http/mod.rs and src/http/health.rs: the routes, the replies of the handlers and what becomes
-- of a panic. Matching a path and taking a request apart is the framework axum.
use ledger_rs.Prelude.{
  ℕ, Bool, Option, none, some, List, [], ◌∷◌, Result, ok, err, panicked, if◌then◌else◌,
}
use ledger_rs.Prelude.Text.{Text, codes}
use ledger_rs.Decimal.{Decimal}
use ledger_rs.Domain.Postings.{Account, TransactionDetail}
use ledger_rs.Domain.Fingerprint.{Digest}
use ledger_rs.Error.{SqlxError, LedgerError, Response, into_response}
use ledger_rs.Config.{Config}
use ledger_rs.Db.Session.{Env, World, read}
use ledger_rs.Http.Handlers.{
  CreateAccountRequest, TransferRequest, create_transfer, create_account, get_account,
  get_transaction,
}

-- What a reply carries as JSON; `other_body` is one that the framework writes.
pub data Body (D : Type 0) : Type 0 where
  account_body : Account D → Body D
  transaction_body : TransactionDetail D → Body D
  health_body : Text → Option Text → Body D
  error_body : Text → Text → Body D
  other_body : Body D

pub record Reply (D : Type 0) : Type 0 where
  pub reply_status : ℕ
  pub body : Body D

-- A request as the framework hands it over: its method and path, the header `Idempotency-Key`, and
-- its body as either handler reads it.
pub record Request (D : Type 0) : Type 0 where
  pub request_method : Text
  pub path : Text
  pub key_header : Option (Option Text)
  pub transfer_payload : Result Text (TransferRequest D)
  pub account_payload : Result Text CreateAccountRequest

pub data Method : Type 0 where
  get_method : Method
  post_method : Method

pub data Endpoint : Type 0 where
  health_live : Endpoint
  health_ready : Endpoint
  accounts_create : Endpoint
  accounts_get : Endpoint
  transfers_create : Endpoint
  transactions_get : Endpoint

-- axum: the segment that `{id}` takes where a path matches a route's pattern, the methods that a
-- route accepts, the identifier in a segment, and its own replies.
pub record Framework (D : Type 0) : Type 0 where
  pub matches : Text → Text → Option Text
  pub accepts : Method → Text → Bool
  pub uuid : Text → Option ℕ
  pub bad_path : Reply D
  pub not_found : Reply D
  pub method_not_allowed : Reply D

-- `AppState`, the pool aside.
pub record AppState : Type 0 where
  pub allow_funding_account_creation : Bool

abbrev pub app_state : {A : Type 0} → Config A → AppState
app_state config = record { allow_funding_account_creation = config.allow_funding_account_creation }

-- The table of `router`.
abbrev pub routes : List (Text × Method × Endpoint)
routes =
    (codes "/health/live", get_method, health_live)
    ∷ (codes "/health/ready", get_method, health_ready)
    ∷ (codes "/accounts", post_method, accounts_create)
    ∷ (codes "/accounts/{id}", get_method, accounts_get)
    ∷ (codes "/transfers", post_method, transfers_create)
    ∷ (codes "/transactions/{id}", get_method, transactions_get)
    ∷ []

-- `handle_panic`
abbrev pub handle_panic : {D : Type 0} → Reply D
handle_panic = record {
  reply_status = 500;
  body = error_body (codes "internal_error") (codes "an internal error occurred");
}

abbrev pub error_reply : {D : Type 0} → Response → Reply D
error_reply r = record {
  reply_status = r.response_status;
  body = error_body r.response_code r.message;
}

-- What a handler's result becomes: its status and value, the envelope of its error, or the reply
-- of the layer that catches panics.
unfoldable pub reply :
    {D A : Type 0} → (LedgerError → Text) → (A → Body D) → Result LedgerError (ℕ × A) → Reply D
reply display body (ok (status, a)) = record { reply_status = status; body = body a }
reply display body (err e) = error_reply (into_response display e)
reply display body panicked = handle_panic

-- A handler that answers with 200.
abbrev pub with_ok : {A : Type 0} → Result LedgerError A → Result LedgerError (ℕ × A)
with_ok (ok a) = ok (200, a)
with_ok (err e) = err e
with_ok panicked = panicked

-- `health::live`
abbrev pub live : {D : Type 0} → Reply D
live = record { reply_status = 200; body = health_body (codes "ok") none }

-- `health::ready`, by what `SELECT 1` gives.
unfoldable pub ready : {D A : Type 0} → Result SqlxError A → Reply D
ready (ok _) = record { reply_status = 200; body = health_body (codes "ok") none }
ready (err _) = record {
  reply_status = 503;
  body = health_body (codes "unavailable") (some (codes "database unreachable"));
}
ready panicked = handle_panic

module _ {D : Type 0} ⦃dec : Decimal D⦄ (framework : Framework D) (display : LedgerError → Text)
    (dg : Digest) (env : Env) (state : AppState) where
  -- `Path<Uuid>`
  unfoldable pub with_id : Option ℕ → (ℕ → World → Reply D × World) → World → Reply D × World
  with_id none handler w = (framework.bad_path, w)
  with_id (some id) handler w = handler id w

  unfoldable pub handle : Endpoint → Text → Request D → World → Reply D × World
  handle health_live segment request w = (live, w)
  handle health_ready segment request w = let (r, w') = read env {A = ℕ} (λ _. 1) w in (ready r, w')
  handle accounts_create segment request w =
      let (r, w') =
        create_account env state.allow_funding_account_creation request.account_payload w in
      (reply display account_body r, w')
  handle accounts_get segment request w =
      with_id (framework.uuid segment)
        (λ id w. let (r, w') = get_account env id w in (reply display account_body (with_ok r), w'))
        w
  handle transfers_create segment request w =
      let (r, w') = create_transfer env dg request.key_header request.transfer_payload w in
      (reply display transaction_body r, w')
  handle transactions_get segment request w =
      with_id (framework.uuid segment)
        (λ id w.
          let (r, w') = get_transaction env id w in
          (reply display transaction_body (with_ok r), w'))
        w

  -- The route whose pattern the path matches, and its handler if it accepts the method.
  unfoldable pub dispatch : List (Text × Method × Endpoint) → Request D → World → Reply D × World
  dispatch [] request w = (framework.not_found, w)
  dispatch ((pattern, method, endpoint) ∷ rest) request w =
      elim (framework.matches pattern request.path) [
        | none ↦ dispatch rest request w
        | some segment ↦
            if framework.accepts method request.request_method
            then handle endpoint segment request w
            else (framework.method_not_allowed, w)
      ]

  -- `router`, with the layer that catches panics.
  abbrev pub serve : Request D → World → Reply D × World
  serve = dispatch routes
