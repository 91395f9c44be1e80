-- ===== src/Http/Accounts.antt =====
-- `POST /accounts` and the invariants of the ledger.
use ledger_rs.Prelude.{suc, ◌≡◌, ok, ℕ, refl, Bool, Result}
use ledger_rs.Prelude.Text.{Text}
use ledger_rs.Decimal.{Decimal}
use ledger_rs.Domain.Currency.{Currency}
use ledger_rs.Prelude.Int.{pos}
use ledger_rs.Schema.Rows.{AccountRecord, Db}
use ledger_rs.Schema.Statements.{insert_account}
use ledger_rs.Schema.Invariant.{Inv}
use ledger_rs.Schema.Opening.{insert_account-Inv}
use ledger_rs.Db.Session.{Env, World}
use ledger_rs.Db.Session.Triples.{
  Triple, Triple->>=, Triple-lift, Triple-pure, Triple-weaken, Triple-map_error, Triple-new_v4,
}
use ledger_rs.Db.Session.Writes.{Triple-write, Triple-now, Outcome-always}
use ledger_rs.Db.Transfers.UnderWay.{Inv-next_xid}
use ledger_rs.Db.Accounts.{create, new_account}
use ledger_rs.Http.Handlers.{CreateAccountRequest, create_account}

-- A property of the tables that inserting an account with nothing in it keeps.
module _ (D : Type 0) ⦃dec : Decimal D⦄ (env : Env) (Safe : Db → Type 0)
    (lawful : (n : ℕ) (db : Db) → Safe db → Safe (env.others n db))
    (opened : (a : AccountRecord) (db db' : Db)
      → a.balance ≡ pos 0
      → insert_account a db ≡ ok db'
      → Safe db
      → Safe (record db' { next_xid = suc db'.next_xid })) where
  create-Triple :
      (name : Text) (currency : Currency) (allows : Bool)
      → Triple Safe Safe (create {D = D} env name currency allows) (λ _ db. Safe db)
  unfolding create
  create-Triple name currency allows = Triple->>= Safe _ _ (Triple-new_v4 Safe env) λ id.
      Triple->>= Safe _ _ (Triple-now Safe env) λ time.
        Triple->>= Safe _ _
          (Triple-map_error Safe _ _ (
            Triple-write Safe env lawful _
              (λ db db' e v. opened (new_account id name currency allows time) db db' refl e v)))
          λ _. Triple-weaken Safe _ (Triple-lift Safe _ (λ db h. h)) (λ db h. h) (λ a db h. h.0)

  create_account-Triple :
      (allow : Bool) (payload : Result Text CreateAccountRequest)
      → Triple Safe Safe (create_account {D = D} env allow payload) (λ _ db. Safe db)
  unfolding create_account
  create_account-Triple allow payload =
      Triple->>= Safe _ _ (Triple-lift Safe _ (λ db h. h)) λ request.
        Triple->>= Safe _ _ (Triple-lift Safe _ (λ db h. h.0)) λ _.
          Triple->>= Safe _ _ (Triple-lift Safe _ (λ db h. h.0.0)) λ _.
            Triple->>= Safe _ _ (Triple-lift Safe _ (λ db h. h.0.0.0)) λ _.
              Triple->>= Safe _ _
                (Triple-weaken Safe _
                  (create-Triple _ request.currency request.allows_negative_balance)
                  (λ db h. h.0.0.0.0) (λ a db h. h))
                λ account. Triple-pure Safe _ (λ db h. h)

  pub create_account-Safe :
      (allow : Bool) (payload : Result Text CreateAccountRequest) (w : World)
      → Safe w.db
      → Safe (create_account {D = D} env allow payload w).1.db
  create_account-Safe allow payload w v =
      Outcome-always Safe (create_account {D = D} env allow payload w)
        ((create_account-Triple allow payload).at w v)

module _ (D : Type 0) ⦃dec : Decimal D⦄ (env : Env)
    (lawful : (n : ℕ) (db : Db) → Inv db → Inv (env.others n db)) where
  -- The invariants of the ledger survive every `POST /accounts`, whatever its payload is and also
  -- where statements fail, beside other sessions that keep the invariants.
  pub create_account-Inv :
      (allow : Bool) (payload : Result Text CreateAccountRequest) (w : World)
      → Inv w.db
      → Inv (create_account {D = D} env allow payload w).1.db
  create_account-Inv =
      create_account-Safe D env Inv lawful
        (λ a db db' empty e v. Inv-next_xid db' (insert_account-Inv a db db' empty e v))
