-- ===== src/Db/Transfers/Steps.antt =====
-- The steps of a transfer in its open transaction: it holds the whole transfer, row by row, before it
-- is committed. `base` are the tables at its begin.
use ledger_rs.Prelude.{
  ℕ, ◌≤◌, ◌≡◌, refl, sym, ap, subst, ◌∙◌, List, ◌∷◌, map, ok, arith, or_panic, ok_injective,
}
use ledger_rs.Prelude.Text.{Text}
use ledger_rs.Decimal.{Decimal, DecimalLaws, IsExact, units}
use ledger_rs.Domain.Currency.{Currency, as_str}
use ledger_rs.Domain.Postings.{Direction, debit, credit}
use ledger_rs.Domain.Fingerprint.{TransferIntent}
use ledger_rs.Error.{LedgerError}
use ledger_rs.Schema.Rows.{Db, AccountRecord, EntryRecord, TransactionRecord}
use ledger_rs.Schema.Effects.{update_balance_ok, insert_entry_ok, raise_balance}
use ledger_rs.Db.Session.{Env, Tx}
use ledger_rs.Db.Session.Triples.{
  Triple, Triple->>=, Triple-lift, Triple-pure, Triple-given, Triple-map_error, Triple-weaken,
  Triple-run, Triple-new_v4,
}
use ledger_rs.Db.Accounts.{AccountRow, fetch_for_update}
use ledger_rs.Db.Transfers.{
  adjust_balance, insert_entry, new_entry, new_transaction, lock, locked_row, post,
}
use ledger_rs.Db.Transfers.Effect.{IsPosting, IsTransferred, Holds, row_id}

module _ {D : Type 0} ⦃dec : Decimal D⦄ (laws : DecimalLaws D) (env : Env) where
  -- While nothing is committed the tables are `Quiet`; a failure leaves them `Safe`.
  module _ (key : Text) (hash : List ℕ) (intent : TransferIntent D)
      (exact : IsExact intent.amount.amount) (base : Db) (Safe Quiet : Db → Type 0)
      (keep : (db : Db) → Quiet db → Safe db) where
    abbrev pub IsMoved : Db → Type 0
    IsMoved = IsTransferred key hash intent base

    -- Nothing is committed yet, and the open transaction holds these rows.
    abbrev pub Open :
        List AccountRecord → List TransactionRecord → List EntryRecord → Tx → Db → Type 0
    Open rows ts es tx db = Quiet db × Holds rows ts es tx.tables

    -- A locked row has the id that was asked for.
    pub lock-Holds :
        {Pre : Db → Type 0} (tx : Tx) (id : ℕ)
        → ((db : Db) → Pre db → Safe db)
        → Triple Safe Pre (lock {D = D} env tx id) (λ row db. Pre db × (row.id ≡ id))
    unfolding lock fetch_for_update
    lock-Holds tx id safe =
        Triple->>= Safe _ _ (Triple-map_error Safe _ _ (Triple-run Safe env _ safe)) λ found.
          Triple-weaken Safe _ (Triple-lift Safe _ (λ db h. safe db h.0)) (λ db h. h)
            (λ row db h. (h.0.0, row_id id tx.tables.accounts found row (ok_injective h.0.1) h.1))

    adjust-Holds :
        (rows : List AccountRecord) (ts : List TransactionRecord) (es : List EntryRecord) (tx : Tx)
        (j : ℕ) (delta : D)
        → IsExact delta
        → Triple Safe
            (Open rows ts es tx)
            (adjust_balance env tx j delta)
            (Open (map (raise_balance j (units delta)) rows) ts es)
    unfolding adjust_balance
    adjust-Holds rows ts es tx j delta fits =
        Triple->>= Safe _ _
          (Triple-map_error Safe _ _ (Triple-run Safe env _ (λ db u. keep db u.0)))
          λ tables. Triple-pure Safe _ (λ db h. (
            h.0.0,
            adjusted tables h.0.1 (update_balance_ok laws j delta tx.tables tables fits h.1).0,
          ))
      where
        adjusted :
            (tables : Db)
            → Holds rows ts es tx.tables
            → tables ≡ record (tx.tables) {
              accounts = map (raise_balance j (units delta)) tx.tables.accounts;
            }
            → Holds (map (raise_balance j (units delta)) rows) ts es tables
        adjusted tables h same = record {
          has_accounts =
              ap (λ (d : Db). d.accounts) same
              ∙ ap (map (raise_balance j (units delta))) h.has_accounts;
          has_transactions = ap (λ (d : Db). d.transactions) same ∙ h.has_transactions;
          has_entries = ap (λ (d : Db). d.entries) same ∙ h.has_entries;
        }

    -- The log after one more entry.
    record OneMore (k j : ℕ) (dir : Direction) (amount : D) (c : Currency)
        (rows : List AccountRecord) (ts : List TransactionRecord) (es : List EntryRecord) (tx : Tx)
        (db : Db) : Type 0 where
      entry : EntryRecord
      posted : IsPosting entry k j dir (units amount) (as_str c)
      opened : Open rows ts (entry ∷ es) tx db

    insert_entry-OneMore :
        (rows : List AccountRecord) (ts : List TransactionRecord) (es : List EntryRecord) (tx : Tx)
        (k j : ℕ) (dir : Direction) (amount : D) (c : Currency)
        → IsExact amount
        → Triple Safe
            (Open rows ts es tx)
            (insert_entry env tx k j dir amount c)
            (OneMore k j dir amount c rows ts es)
    unfolding insert_entry
    insert_entry-OneMore rows ts es tx k j dir amount c fits =
        Triple->>= Safe _ _ (Triple-new_v4 Safe env) λ id.
          Triple->>= Safe _ _
            (Triple-map_error Safe _ _ (Triple-run Safe env _ (λ db u. keep db u.0)))
            λ tables. Triple-pure Safe _ (λ db h. record {
              entry = new_entry env id k j dir amount c tx.started;
              posted = record {
                of_parent = refl;
                on_account = refl;
                on_side = refl;
                of_amount = laws.stored_exact amount fits;
                in_currency = refl;
              };
              opened = (
                h.0.0,
                entered (new_entry env id k j dir amount c tx.started) tables h.0.1
                    (insert_entry_ok tx.xid _ tx.tables tables h.1).0,
              );
            })
      where
        entered :
            (e : EntryRecord) (tables : Db)
            → Holds rows ts es tx.tables
            → tables ≡ record (tx.tables) { entries = e ∷ tx.tables.entries }
            → Holds rows ts (e ∷ es) tables
        entered e tables h same = record {
          has_accounts = ap (λ (d : Db). d.accounts) same ∙ h.has_accounts;
          has_transactions = ap (λ (d : Db). d.transactions) same ∙ h.has_transactions;
          has_entries = ap (λ (d : Db). d.entries) same ∙ ap (λ l. e ∷ l) h.has_entries;
        }

    pub locked-id :
        (i j : ℕ) (a b row : AccountRow D) (id : ℕ)
        → a.id ≡ i
        → b.id ≡ j
        → or_panic {E = LedgerError} (locked_row (i, a) (j, b) id) ≡ ok row
        → row.id ≡ id
    unfolding locked_row
    locked-id i j a b row id p q h = ground arith

    -- The open transaction has everything of the transfer, and nothing is committed.
    abbrev pub Ready : Tx → Db → Type 0
    Ready tx db = Quiet db × IsMoved tx.tables

    module _ (k xid now : ℕ) where
      abbrev pub claim_row : TransactionRecord
      claim_row = new_transaction k key hash intent.description xid now

      -- Right after the key is claimed.
      abbrev pub Claimed : Tx → Db → Type 0
      Claimed = Open base.accounts (claim_row ∷ base.transactions) base.entries

      pub post-Ready :
          (tx : Tx) (from to : ℕ)
          → from ≡ intent.from_account_id
          → to ≡ intent.to_account_id
          → Triple Safe
              (Claimed tx)
              (post env tx k from to intent.amount.amount intent.amount.currency)
              Ready
      unfolding post
      post-Ready tx from to p q =
          Triple->>= Safe _ _
            (adjust-Holds _ _ _ tx from (dec.negate intent.amount.amount)
              (subst (λ n. n ≤ 8) (sym (laws.scale-negate _)) exact))
            λ tx1. Triple->>= Safe _ _ (adjust-Holds _ _ _ tx1 to intent.amount.amount exact) λ tx2.
              Triple->>= Safe _ _
                (insert_entry-OneMore _ _ _ tx2 k from credit intent.amount.amount
                  intent.amount.currency exact)
                λ tx3.
                  Triple-given Safe
                    ((e : EntryRecord) × IsPosting e k from credit (units intent.amount.amount)
                        (as_str intent.amount.currency)
                      × Holds _ _ (e ∷ base.entries) tx3.tables)
                    _ (λ db h. (h.entry, h.posted, h.opened.1))
                    λ (e, sent, holds).
                      Triple-weaken Safe _
                        (insert_entry-OneMore _ _ (e ∷ base.entries) tx3 k to debit
                          intent.amount.amount intent.amount.currency exact)
                        (λ db h. (h.opened.0, holds))
                        λ tx4 db h. (
                          h.opened.0,
                          record {
                            transaction = claim_row;
                            out = e;
                            into = h.entry;
                            recorded = h.opened.1.has_transactions;
                            under_key = refl;
                            with_hash = refl;
                            described = refl;
                            logged = h.opened.1.has_entries;
                            sender =
                                subst
                                  (λ j.
                                    IsPosting e k j credit (units intent.amount.amount)
                                      (as_str intent.amount.currency))
                                  p sent;
                            receiver =
                                subst
                                  (λ j.
                                    IsPosting h.entry k j debit (units intent.amount.amount)
                                      (as_str intent.amount.currency))
                                  q h.posted;
                            balances =
                                h.opened.1.has_accounts
                                ∙ cc (laws.units-negate intent.amount.amount);
                          },
                        )
