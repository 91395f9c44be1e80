-- ===== src/Http/Receipts.antt =====
-- What a client may conclude from a reply of 201 that shows a transaction.
use ledger_rs.Prelude.{
  ℕ, ◌≡◌, refl, sym, ap, ◌∙◌, subst, inl, inr, Option, none, some, List, [], ◌∷◌, Result, ok, err,
  panicked, map_err-eq-ok, Bool-cases, arith, Option-cases,
}
use ledger_rs.Prelude.Text.{Text}
use ledger_rs.Decimal.{Decimal, DecimalLaws, IsExact}
use ledger_rs.Domain.Money.{Money, new}
use ledger_rs.Domain.Postings.{Account, TransactionDetail}
use ledger_rs.Domain.Fingerprint.{
  TransferIntent, TransferOutcome, created, replayed, Digest, request_hash,
}
use ledger_rs.Error.{into_response, SqlxError, LedgerError, validation, money}
use ledger_rs.Schema.Rows.{Db}
use ledger_rs.Db.Session.{Env, World, read}
use ledger_rs.Db.Session.Returned.{bind-Returned, bind_lift-Returned, pure-Returned}
use ledger_rs.Db.Transfers.{TransferResult, execute}
use ledger_rs.Db.Transfers.Effect.{IsTransferred}
use ledger_rs.Db.Transfers.ExactlyOnce.{
  execute_exactly_once, execute_beside_others, Meanwhile, KeepsKeys,
}
use ledger_rs.Db.Transfers.Neighbours.{IsPaidOnce}
use ledger_rs.Http.Headers.{extract_idempotency_key}
use ledger_rs.Http.Handlers.{TransferRequest, outcome_status, to_intent, create_transfer}
use ledger_rs.Domain.Money.Validation.{Verdict, new-Verdict}
use ledger_rs.Http.Router.{
  Framework, AppState, Request, Reply, Method, Endpoint, health_live, health_ready, accounts_create,
  accounts_get, transfers_create, transactions_get, handle, dispatch, serve, routes, with_id,
  transaction_body, account_body, other_body, with_ok, ready, reply,
}

-- What the payment that is asked for under a key, with a fingerprint, does to the tables.
abbrev pub Payment : Type 0 → Type 1
Payment D = Text → List ℕ → TransferIntent D → Db → Db → Type 0

-- The key, the payload and the amount that `create` of src/http/transfers.rs took from a request,
-- and their payment.
pub record IsPaidBy {D : Type 0} ⦃dec : Decimal D⦄ (Pays : Payment D) (dg : Digest)
    (request : Request D) (a b : Db) : Type 0 where
  pub key : Text
  pub payload : TransferRequest D
  pub amount : Money D
  pub key_read : extract_idempotency_key request.key_header ≡ ok key
  pub payload_read : request.transfer_payload ≡ ok payload
  pub amount_read : new payload.amount payload.currency ≡ ok amount
  pub transferred :
      Pays key (request_hash dg (to_intent payload amount)) (to_intent payload amount) a b

-- Nothing but the transfer.
abbrev pub IsPaid : {D : Type 0} → ⦃dec : Decimal D⦄ → Digest → Request D → Db → Db → Type 0
IsPaid = IsPaidBy IsTransferred

was_created : (o : TransferOutcome) → outcome_status o ≡ 201 → o ≡ created
unfolding outcome_status
was_created created h = refl
was_created replayed h = absurd (omega (arith, h))

-- What a created transaction tells.
abbrev Creates : {D : Type 0} → ⦃dec : Decimal D⦄ → Payment D → Digest → Env → Type 0
Creates {D} Pays dg env =
    (key : Text) (intent : TransferIntent D) (w : World)
    → IsExact intent.amount.amount
    → (x : TransferResult D) → (execute env dg key intent w).0 ≡ ok x
    → x.outcome ≡ created
    → Pays key (request_hash dg intent) intent w.db (execute env dg key intent w).1.db

module _ {D : Type 0} ⦃dec : Decimal D⦄ (laws : DecimalLaws D) (Pays : Payment D) (env : Env)
    (dg : Digest) (creates : Creates Pays dg env) where
  create_transfer-IsPaid :
      (request : Request D) (detail : TransactionDetail D) (w u : World)
      → create_transfer env dg request.key_header request.transfer_payload w ≡ (ok (201, detail), u)
      → IsPaidBy Pays dg request w.db u.db
  unfolding create_transfer
  create_transfer-IsPaid request detail w u h =
      let (key, key_read, t1) = bind_lift-Returned _ _ _ _ _ h in
      let (payload, p, t2) = bind_lift-Returned _ _ _ _ _ t1 in
      let (amount, q, t3) = bind_lift-Returned _ _ _ _ _ t2 in
      let (_, _, t4) = bind_lift-Returned _ _ _ _ _ t3 in
      let (result, v, ran, t5) = bind-Returned _ _ _ _ _ t4 in
      let (shown, ended) = pure-Returned _ _ _ _ t5 in
      let amount_read = map_err-eq-ok money _ q in
      let exact = (subst (Verdict _ _) amount_read (new-Verdict laws _ _)).0.exact in
      let status_created =
        was_created (result.outcome) (sym (ap (λ (x : ℕ × TransactionDetail D). x.0) shown)) in
      let sent = to_intent payload amount in
      record {
        key = key;
        payload = payload;
        amount = amount;
        key_read = key_read;
        payload_read = map_err-eq-ok validation _ p;
        amount_read = amount_read;
        transferred =
            subst (λ (x : World). Pays key (request_hash dg sent) sent w.db x.db)
              (ap (λ (x : Result LedgerError (TransferResult D) × World). x.1) ran ∙ sym ended)
              (creates key sent w exact result
                (ap (λ (x : Result LedgerError (TransferResult D) × World). x.0) ran)
                status_created);
      }

-- A receipt: 201 and the transaction.
pub record Receipt {D : Type 0} (r : Reply D) (detail : TransactionDetail D) : Type 0 where
  pub status_is : r.reply_status ≡ 201
  pub body_is : r.body ≡ transaction_body detail

-- The replies of the framework itself show no transaction.
pub record FrameworkLaws {D : Type 0} (framework : Framework D) : Type 0 where
  pub bad_path_plain : framework.bad_path.body ≡ other_body
  pub not_found_plain : framework.not_found.body ≡ other_body
  pub method_not_allowed_plain : framework.method_not_allowed.body ≡ other_body

module _ {D : Type 0} where
  plain_no-Receipt :
      (r : Reply D) (detail : TransactionDetail D) → r.body ≡ other_body → Receipt r detail → ⊥
  plain_no-Receipt r detail h p = absurd (clash (sym h ∙ p.body_is))
    where
      clash : other_body ≡ transaction_body detail → ⊥
      clash e = cc

  ready_no-Receipt :
      {A : Type 0} (r : Result SqlxError A) (detail : TransactionDetail D)
      → Receipt (ready r) detail
      → ⊥
  unfolding ready
  ready_no-Receipt (ok a) detail p = cc (p.body_is)
  ready_no-Receipt (err e) detail p = cc (p.body_is)
  ready_no-Receipt panicked detail p = cc (p.body_is)

  account_no-Receipt :
      (display : LedgerError → Text) (r : Result LedgerError (ℕ × Account D))
      (detail : TransactionDetail D)
      → Receipt (reply display account_body r) detail
      → ⊥
  unfolding reply into_response
  account_no-Receipt display (ok (s, a)) detail p = cc (p.body_is)
  account_no-Receipt display (err e) detail p = cc (p.body_is)
  account_no-Receipt display panicked detail p = cc (p.body_is)

  read_no-Receipt :
      (display : LedgerError → Text) (r : Result LedgerError (TransactionDetail D))
      (detail : TransactionDetail D)
      → Receipt (reply display transaction_body (with_ok r)) detail
      → ⊥
  unfolding reply into_response
  read_no-Receipt display (ok d) detail p = absurd (omega (arith, p.status_is))
  read_no-Receipt display (err e) detail p = cc (p.body_is)
  read_no-Receipt display panicked detail p = cc (p.body_is)

  transfer-Receipt :
      (display : LedgerError → Text) (r : Result LedgerError (ℕ × TransactionDetail D))
      (detail : TransactionDetail D)
      → Receipt (reply display transaction_body r) detail
      → r ≡ ok (201, detail)
  unfolding reply into_response
  transfer-Receipt display (ok (s, d)) detail p = cc (p.status_is, p.body_is)
  transfer-Receipt display (err e) detail p = cc (p.body_is)
  transfer-Receipt display panicked detail p = cc (p.body_is)

module _ {D : Type 0} ⦃dec : Decimal D⦄ (laws : DecimalLaws D) (framework : Framework D)
    (plain : FrameworkLaws framework) (display : LedgerError → Text) (dg : Digest) (env : Env)
    (state : AppState) (Pays : Payment D) (creates : Creates Pays dg env) where
  with_id_no-Receipt :
      (o : Option ℕ) (handler : ℕ → World → Reply D × World) (w : World)
      (detail : TransactionDetail D)
      → ((id : ℕ) → Receipt (handler id w).0 detail → ⊥)
      → Receipt (with_id framework display dg env state o handler w).0 detail
      → ⊥
  unfolding with_id
  with_id_no-Receipt none handler w detail h p =
      plain_no-Receipt framework.bad_path detail (plain.bad_path_plain) p
  with_id_no-Receipt (some id) handler w detail h p = h id p

  handle-IsPaid :
      (e : Endpoint) (segment : Text) (request : Request D) (detail : TransactionDetail D)
      (w : World)
      → Receipt (handle framework display dg env state e segment request w).0 detail
      → IsPaidBy Pays dg request w.db
          (handle framework display dg env state e segment request w).1.db
  unfolding handle
  handle-IsPaid health_live segment request detail w p = cc (p.body_is)
  handle-IsPaid health_ready segment request detail w p =
      absurd (ready_no-Receipt (read env (λ _. 1) w).0 detail p)
  handle-IsPaid accounts_create segment request detail w p =
      absurd (account_no-Receipt display _ detail p)
  handle-IsPaid accounts_get segment request detail w p = absurd (
      with_id_no-Receipt (framework.uuid segment) _ w detail
        (λ id q. account_no-Receipt display _ detail q) p)
  handle-IsPaid transfers_create segment request detail w p =
      create_transfer-IsPaid laws Pays env dg creates request detail w _
        (returned _ (transfer-Receipt display _ detail p))
    where
      returned : {A B : Type 0} {a : A} (x : A × B) → x.0 ≡ a → ◌≡◌ {A = A × B} x (a, x.1)
      returned (a, b) e = cc e
  handle-IsPaid transactions_get segment request detail w p = absurd (
      with_id_no-Receipt (framework.uuid segment) _ w detail
        (λ id q. read_no-Receipt display _ detail q) p)

  dispatch-IsPaid :
      (table : List (Text × Method × Endpoint)) (request : Request D) (detail : TransactionDetail D)
      (w : World)
      → Receipt (dispatch framework display dg env state table request w).0 detail
      → IsPaidBy Pays dg request w.db (dispatch framework display dg env state table request w).1.db
  unfolding dispatch
  dispatch-IsPaid [] request detail w p =
      absurd (plain_no-Receipt framework.not_found detail (plain.not_found_plain) p)
  dispatch-IsPaid ((pattern, method, endpoint) ∷ rest) request detail w p =
      elim (Option-cases (framework.matches pattern request.path)) [
        | inl e ↦ rw (e, dispatch) (dispatch-IsPaid rest request detail w (rw (e, dispatch) at p))
        | inr (segment, e) ↦ elim (Bool-cases (framework.accepts method request.request_method)) [
          | inl allowed ↦
              rw (e, allowed, dispatch)
                (handle-IsPaid endpoint segment request detail w (rw (e, allowed, dispatch) at p))
          | inr refused ↦ absurd (
              plain_no-Receipt framework.method_not_allowed detail (plain.method_not_allowed_plain)
                (rw (e, refused, dispatch) at p))
        ]
      ]

module _ {D : Type 0} ⦃dec : Decimal D⦄ (laws : DecimalLaws D) (framework : Framework D)
    (plain : FrameworkLaws framework) (display : LedgerError → Text) (dg : Digest) (env : Env)
    (alone : (n : ℕ) (db : Db) → env.others n db ≡ db) (state : AppState) where
  -- While no other session commits, and the framework's own replies show no transaction, a reply of
  -- 201 that shows a transaction says that the request
  -- was a transfer with a key, a payload and an amount that are read, and that the tables contain
  -- the whole of it: the two balances moved by the amount, the two entries, and the transaction
  -- under the key.
  pub serve-IsPaid :
      (request : Request D) (detail : TransactionDetail D) (w : World)
      → Receipt (serve framework display dg env state request w).0 detail
      → IsPaid dg request w.db (serve framework display dg env state request w).1.db
  serve-IsPaid =
      dispatch-IsPaid laws framework plain display dg env state IsTransferred
        (λ key intent w exact. (execute_exactly_once laws env alone dg key intent w exact).1) routes

module _ {D : Type 0} ⦃dec : Decimal D⦄ (laws : DecimalLaws D) (framework : Framework D)
    (plain : FrameworkLaws framework) (display : LedgerError → Text) (dg : Digest) (env : Env)
    (keeping : KeepsKeys env) (state : AppState) where
  -- Beside other sessions that take no key away, where the framework's own replies show no
  -- transaction, a reply of 201 that shows a transaction says that the request was a transfer with a
  -- key, a payload and an amount that are read, and that the whole of it was added to the tables,
  -- once and with nothing else of the request's, between what the others did.
  pub serve_paid_beside_others :
      (request : Request D) (detail : TransactionDetail D) (w : World)
      → Receipt (serve framework display dg env state request w).0 detail
      → IsPaidBy
          (IsPaidOnce (Meanwhile env))
          dg
          request
          w.db
          (serve framework display dg env state request w).1.db
  serve_paid_beside_others =
      dispatch-IsPaid laws framework plain display dg env state (IsPaidOnce (Meanwhile env))
        (λ key intent w exact. (execute_beside_others laws env keeping dg key intent w exact).1)
        routes
