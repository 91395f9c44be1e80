-- ===== src/Db/Transfers/Once.antt =====
-- One attempt of `execute` beside other sessions: its open transaction adds the whole transfer, or
-- nothing.
use ledger_rs.Prelude.{
  ℕ, ◌≡◌, ◌≢◌, inl, inr, refl, sym, ap, subst, ◌∙◌, none, List, ◌∷◌, ok, err, panicked, Result,
  Bool-cases,
}
use ledger_rs.Prelude.Text.{Text}
use ledger_rs.Decimal.{Decimal, DecimalLaws, IsExact}
use ledger_rs.Domain.Fingerprint.{TransferIntent}
use ledger_rs.Error.{SqlxError, is_idempotency_key_collision}
use ledger_rs.Schema.Rows.{Db, find_key}
use ledger_rs.Schema.Statements.{insert_transaction}
use ledger_rs.Schema.Effects.{insert_transaction_ok}
use ledger_rs.Db.Session.{Env, Tx}
use ledger_rs.Db.Session.Triples.{
  Triple, Triple->>=, Triple-lift, Triple-pure, Triple-raise, Triple-given, Triple-relax,
  Triple-map_error, Triple-weaken, Triple-attempt-run, Triple-new_v4, Triple-commit, Triple-begin,
}
use ledger_rs.Db.Transactions.{select_key}
use ledger_rs.Db.Transfers.{TransferResult, move_money, claimed, write_path}
use ledger_rs.Db.Transfers.Effect.{IsTransferred, Holds, find_key_first}
use ledger_rs.Db.Transfers.Reads.{get-Triple}
use ledger_rs.Db.Transfers.Neighbours.{
  Neighbours, IsPaidOnce, IsOnce, IsTold, waiting, staying, lost_race-Told,
}
use ledger_rs.Db.Transfers.Steps.{lock-Holds, locked-id, post-Ready, Ready, Claimed, claim_row}

module _ {D : Type 0} ⦃dec : Decimal D⦄ (laws : DecimalLaws D) (env : Env)
    (Others : Db → Db → Type 0) (beside : Neighbours env Others) where
  module _ (key : Text) (hash : List ℕ) (intent : TransferIntent D)
      (exact : IsExact intent.amount.amount) (start : Db) where
    abbrev Paid : Db → Type 0
    Paid = IsPaidOnce Others key hash intent start

    abbrev Once : Db → Type 0
    Once = IsOnce Others key hash intent start

    abbrev Told : TransferResult D → Db → Type 0
    Told = IsTold Others key hash intent start

    -- The open transaction: `base` are the committed tables until it ends.
    module _ (base : Db) where
      abbrev Quiet : Db → Type 0
      Quiet db = Others start db × (base ≡ db)

      keep : (db : Db) → Quiet db → Once db
      keep db q = inl q.0

      becomes-Paid :
          (db tables : Db) → Quiet db → IsTransferred key hash intent base tables → Paid tables
      becomes-Paid db tables (h, e) moved = record {
        before = base;
        after = tables;
        earlier = subst (Others start) (sym e) h;
        paid = moved;
        later = beside.nothing tables;
      }

      module _ (k xid now : ℕ) where
        move_money-Told :
            (tx : Tx)
            → Triple Once
                (Claimed laws env key hash intent exact base Once Quiet keep k xid now tx)
                (move_money env tx k intent)
                Told
        unfolding move_money
        move_money-Told tx =
            Triple->>= Once _ _
              (lock-Holds laws env key hash intent exact base Once Quiet keep tx _
                (λ db u. inl u.0.0))
              λ a.
                Triple->>= Once _ _
                  (lock-Holds laws env key hash intent exact base Once Quiet keep tx _
                    (λ db u. inl u.0.0.0))
                  λ b. Triple->>= Once _ _ (Triple-lift Once _ (λ db h. inl h.0.0.0.0)) λ from.
                    Triple->>= Once _ _ (Triple-lift Once _ (λ db h. inl h.0.0.0.0.0)) λ to.
                      Triple->>= Once _ _ (Triple-lift Once _ (λ db h. inl h.0.0.0.0.0.0)) λ _.
                        Triple->>= Once _ _
                          (Triple-given Once
                            ((from.id ≡ intent.from_account_id) × (to.id ≡ intent.to_account_id)) _
                            (λ db h. (
                              locked-id laws env key hash intent exact base Once Quiet keep _ _ a b
                                  from _ h.0.0.0.0.1 h.0.0.0.1 h.0.0.1,
                              locked-id laws env key hash intent exact base Once Quiet keep _ _ a b
                                  to _ h.0.0.0.0.1 h.0.0.0.1 h.0.1,
                            ))
                            λ (p, q).
                              Triple-weaken Once _
                                (post-Ready laws env key hash intent exact base Once Quiet keep k
                                  xid now tx from.id to.id p q)
                                (λ db h. h.0.0.0.0.0) (λ tx' db h. h))
                          λ tx'.
                            Triple->>= Once _ _
                              (Triple-map_error Once _ _ (
                                Triple-commit Once env
                                  {Pre = Ready laws env key hash intent exact base Once Quiet keep
                                    tx'}
                                  {Post = Paid} tx' (λ db h. inl h.0.0)
                                  (λ db h passed. becomes-Paid db tx'.tables h.0 h.1)
                                  (λ db h. inr h)))
                              λ _.
                                Triple->>= Once _ _
                                  (Triple-relax Paid Once _
                                    (get-Triple Paid env
                                      (staying env Others beside key hash intent start) k)
                                    (λ db h. inr h))
                                  λ detail. Triple-pure Once _ (λ db h. (inr h, λ e. h))

        -- The transaction's row is the only change when the key is claimed.
        claim-Holds :
            (tables : Db)
            → tables ≡ record base {
              transactions =
                  claim_row laws env key hash intent exact base Once Quiet keep k xid now
                  ∷ base.transactions;
            }
            → Holds base.accounts
                (claim_row laws env key hash intent exact base Once Quiet keep k xid now
                  ∷ base.transactions)
                base.entries
                tables
        claim-Holds tables same = record {
          has_accounts = ap (λ (d : Db). d.accounts) same;
          has_transactions = ap (λ (d : Db). d.transactions) same;
          has_entries = ap (λ (d : Db). d.entries) same;
        }

    claimed-Told :
        (k xid now : ℕ) (tx : Tx) (x : Result SqlxError Db)
        → Triple Once
            (λ db.
              Quiet tx.tables db
              × ((tables : Db)
                  → x ≡ ok tables
                  → insert_transaction
                      (claim_row laws env key hash intent exact tx.tables Once
                        (Quiet tx.tables)
                        (keep tx.tables)
                        k
                        xid
                        now)
                      tx.tables
                    ≡ ok tables))
            (claimed env tx k key intent hash x)
            Told
    unfolding claimed
    claimed-Told k xid now tx (ok tables) =
        Triple-weaken Once _ (move_money-Told tx.tables k xid now (record tx { tables = tables }))
          (λ db h. (
            h.0,
            claim-Holds tx.tables k xid now tables
                (insert_transaction_ok _ tx.tables tables (h.1 tables refl)).0,
          ))
          (λ a db h. h)
    claimed-Told k xid now tx (err e) = elim (Bool-cases (is_idempotency_key_collision e)) [
      | inl lost ↦ rw lost (
          Triple-weaken Once _ (lost_race-Told env Others beside key hash intent start hash)
            (λ db h. inl h.0.0) (λ a db h. h))
      | inr other ↦ rw other (Triple-raise Once _ (λ db h. inl h.0.0))
    ]
    claimed-Told k xid now tx panicked = record { at = λ w h. inl h.0.0 }

    pub write_path-Told : Triple Once (Others start) (write_path env key intent hash) Told
    unfolding write_path
    write_path-Told = Triple->>= Once _ _ (Triple-lift Once _ (λ db h. inl h)) λ _.
        Triple->>= Once _ _ (Triple-lift Once _ (λ db h. inl h.0)) λ _.
          Triple->>= Once _ _
            (Triple-map_error Once _ _ (
              Triple-weaken Once _
                (Triple-relax (Others start) Once _
                  (Triple-begin (Others start) env (waiting env Others beside key hash intent start)
                    (λ db h. beside.chained start db _ h (beside.numbered db)))
                  (λ db h. inl h))
                (λ db h. h.0.0) (λ a db h. h)))
            λ tx. Triple->>= Once _ _ (Triple-new_v4 Once env) λ id.
              Triple->>= Once _ _ (Triple-attempt-run Once env _ (λ db h. inl h.0)) λ claim.
                Triple-weaken Once _ (claimed-Told id tx.xid tx.started tx claim)
                  (λ db h. ((h.0.0, h.0.1), h.1)) (λ a db h. h)

    -- After the transfer its key is found.
    Paid-keyed : (db : Db) → Paid db → none ≢ select_key key db
    unfolding select_key
    Paid-keyed db p = beside.keyed key p.after db p.later (there p.after p.paid)
      where
        there : (b : Db) → IsTransferred key hash intent p.before b → none ≢ select_key key b
        there b m e =
            let found =
              ap (find_key key) m.recorded
              ∙ find_key_first key m.transaction p.before.transactions m.under_key in
            cc (rw (found, select_key) at e)

    pub unkeyed : (db : Db) → Once db → none ≡ select_key key db → Others start db
    unkeyed db (inl h) e = h
    unkeyed db (inr p) e = absurd (Paid-keyed db p e)
