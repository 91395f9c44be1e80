-- ===== src/Http/Safety.antt =====
-- What `POST /transfers` passes on to the ledger, and what that means for the tables.
use ledger_rs.Prelude.{ℕ, ◌≡◌, ok, Result, Option, map_err-eq-ok, subst}
use ledger_rs.Prelude.Text.{Text}
use ledger_rs.Decimal.{Decimal, DecimalLaws, IsExact}
use ledger_rs.Domain.Currency.{Currency}
use ledger_rs.Domain.Money.{Money, new}
use ledger_rs.Domain.Money.Validation.{IsValid, Verdict, new-Verdict}
use ledger_rs.Domain.Fingerprint.{TransferIntent, Digest}
use ledger_rs.Schema.Rows.{Db}
use ledger_rs.Schema.Invariant.{Inv}
use ledger_rs.Db.Session.{Env, World}
use ledger_rs.Db.Session.Triples.{
  Triple, Triple->>=, Triple-lift, Triple-pure, Triple-given, Triple-weaken,
}
use ledger_rs.Db.Session.Writes.{Outcome-always, always-Outcome}
use ledger_rs.Db.Transfers.{execute}
use ledger_rs.Db.Transfers.Invariant.{execute-Inv}
use ledger_rs.Http.Handlers.{TransferRequest, to_intent, create_transfer}

-- A property of the tables that transfers of exact amounts keep.
module _ {D : Type 0} ⦃dec : Decimal D⦄ (laws : DecimalLaws D) (env : Env) (dg : Digest)
    (Safe : Db → Type 0)
    (paying : (key : Text) (intent : TransferIntent D) (w : World)
      → IsExact intent.amount.amount
      → Safe w.db
      → Safe (execute env dg key intent w).1.db) where
  accepted-IsValid : (d : D) (c : Currency) (m : Money D) → new d c ≡ ok m → IsValid m
  accepted-IsValid d c m e = (subst (Verdict d c) e (new-Verdict laws d c)).0

  execute-Triple :
      (key : Text) (intent : TransferIntent D)
      → IsExact intent.amount.amount
      → Triple Safe Safe (execute env dg key intent) (λ _ db. Safe db)
  execute-Triple key intent exact = record {
    at = λ w h. always-Outcome Safe (execute env dg key intent w) (paying key intent w exact h);
  }

  create_transfer-Triple :
      (header : Option (Option Text)) (payload : Result Text (TransferRequest D))
      → Triple Safe Safe (create_transfer env dg header payload) (λ _ db. Safe db)
  unfolding create_transfer
  create_transfer-Triple header payload =
      Triple->>= Safe _ _ (Triple-lift Safe _ (λ db h. h)) λ key.
        Triple->>= Safe _ _ (Triple-lift Safe _ (λ db h. h.0)) λ request.
          Triple->>= Safe _ _ (Triple-lift Safe _ (λ db h. h.0.0)) λ amount.
            Triple->>= Safe _ _ (Triple-lift Safe _ (λ db h. h.0.0.0)) λ _.
              Triple->>= Safe _ _
                (Triple-given Safe (IsValid amount) _
                  (λ db h. accepted-IsValid _ _ amount (map_err-eq-ok _ _ h.0.1))
                  λ valid.
                    Triple-weaken Safe _
                      (execute-Triple key (to_intent request amount) (valid.exact))
                      (λ db h. h.0.0.0.0) (λ a db h. h))
                λ result. Triple-pure Safe _ (λ db h. h)

  pub create_transfer-Safe :
      (header : Option (Option Text)) (payload : Result Text (TransferRequest D)) (w : World)
      → Safe w.db
      → Safe (create_transfer env dg header payload w).1.db
  create_transfer-Safe header payload w v =
      Outcome-always Safe (create_transfer env dg header payload w)
        ((create_transfer-Triple header payload).at w v)

module _ {D : Type 0} ⦃dec : Decimal D⦄ (laws : DecimalLaws D) (env : Env)
    (lawful : (n : ℕ) (db : Db) → Inv db → Inv (env.others n db)) (dg : Digest) where
  -- Whatever the header and the payload of a `POST /transfers` are, the invariants of the ledger
  -- survive it, also where statements fail, and beside other sessions that keep the invariants:
  -- the handler passes on no amount that the tables would round.
  pub create_transfer-Inv :
      (header : Option (Option Text)) (payload : Result Text (TransferRequest D)) (w : World)
      → Inv w.db
      → Inv (create_transfer env dg header payload w).1.db
  create_transfer-Inv = create_transfer-Safe laws env dg Inv (execute-Inv laws env lawful dg)
