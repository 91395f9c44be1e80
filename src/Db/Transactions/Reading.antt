-- ===== src/Db/Transactions/Reading.antt =====
-- Reading a transaction back: the rows are put in order and each becomes an entry.
use ledger_rs.Prelude.{
  ℕ, ◌>>=◌, ◌<◌, ◌≡◌, refl, ap, ◌∙◌, inl, inr, some, List, [], ◌∷◌, All, ok, ok_or, arith,
  Bool-cases, Result, >>=-eq-ok, ok_injective,
}
use ledger_rs.Prelude.Int.{magnitude}
use ledger_rs.Decimal.{Decimal, DecimalLaws}
use ledger_rs.Domain.Money.Validation.{max_units, IsStorable, new_storable}
use ledger_rs.Domain.Postings.{Entry, TransactionDetail}
use ledger_rs.Error.{LedgerError, transaction_not_found}
use ledger_rs.Prelude.Text.{Text}
use ledger_rs.Schema.Rows.{
  find_key, Db, TransactionRecord, EntryRecord, find_transaction, of_transaction,
}
use ledger_rs.Db.Session.{Env, World}
use ledger_rs.Db.Session.Calm.{
  IsCalm, Returns, Returns->>=, Returns-lift, Returns-pure, Returns-map_error, Returns-read,
}
use ledger_rs.Db.Transactions.{
  comes_before, insert_sorted, order_entries, to_entry, to_entries, to_transaction, get,
}

module _ (P : EntryRecord → Type 0) where
  All-insert_sorted :
      (e : EntryRecord) (es : List EntryRecord) → P e → All P es → All P (insert_sorted e es)
  unfolding insert_sorted
  All-insert_sorted e [] p h = (p, tt)
  All-insert_sorted e (x ∷ xs) p (q, h) = elim (Bool-cases (comes_before x e)) [
    | inl first ↦ rw first (q, All-insert_sorted e xs p h)
    | inr after ↦ rw after (p, (q, h))
  ]

  pub All-order_entries : (es : List EntryRecord) → All P es → All P (order_entries es)
  unfolding order_entries
  All-order_entries [] h = tt
  All-order_entries (e ∷ es) (p, h) =
      All-insert_sorted e (order_entries es) p (All-order_entries es h)

  pub All-of_transaction : (k : ℕ) (es : List EntryRecord) → All P es → All P (of_transaction k es)
  All-of_transaction k [] h = tt
  All-of_transaction k (e ∷ es) (p, h) = ground (arith, All-of_transaction k es)

-- A row whose amount the column holds.
abbrev pub IsStored : EntryRecord → Type 0
IsStored e = magnitude e.amount < max_units

module _ {D : Type 0} ⦃dec : Decimal D⦄ where
  -- What `get` makes of the tables.
  unfoldable pub detail_of : ℕ → Db → Result LedgerError (TransactionDetail D)
  detail_of id db =
      ◌>>=◌ (ok_or (transaction_not_found id) (find_transaction id db.transactions)) λ t.
        ◌>>=◌ (to_entries (order_entries (of_transaction id db.entries)))
          λ es. ok (record { transaction = to_transaction t; entries = es })

  pub Returns-get :
      (env : Env) (calm : IsCalm env) (id : ℕ) (d : TransactionDetail D) (w : World)
      → detail_of id w.db ≡ ok d
      → Returns (get {D = D} env id) w (λ x w'. (x ≡ d) × (w'.db ≡ w.db))
  unfolding get detail_of
  Returns-get env calm id d w h =
      let (t, ht, h1) =
        >>=-eq-ok (ok_or (transaction_not_found id) (find_transaction id w.db.transactions)) _ h in
      let (es, hes, h2) =
        >>=-eq-ok (to_entries (order_entries (of_transaction id w.db.entries))) _ h1 in
      Returns->>= _ _ (Returns-map_error _ _ (Returns-read env calm w _)) λ found w1 (f, d1).
        Returns->>= _ _ (Returns-lift _ t (ap (ok_or (transaction_not_found id)) f ∙ ht))
          λ transaction w2 (t2, e2).
            Returns->>= _ _ (Returns-map_error _ _ (Returns-read env calm w2 _)) λ rows w3 (g, d3).
              let same : w2.db ≡ w.db = ap (λ (v : World). v.db) e2 ∙ d1 in
              let read : to_entries {D = D} rows ≡ ok es =
                ap to_entries
                  (g ∙ ap (λ (b : Db). order_entries (of_transaction id b.entries)) same)
                ∙ hes in
              Returns->>= _ _ (Returns-lift _ es read) λ xs w4 (x4, e4).
                Returns-pure _
                  (cc (t2, x4, ok_injective h2), ap (λ (v : World). v.db) e4 ∙ d3 ∙ same)

-- The tables answer the key with the transaction that was asked for, and read as `detail`.
pub record IsAnswered {D : Type 0} ⦃dec : Decimal D⦄ (key : Text) (hash : List ℕ)
    (detail : TransactionDetail D) (db : Db) : Type 0 where
  pub transaction : TransactionRecord
  pub recorded : find_key key db.transactions ≡ some transaction
  pub same_hash : transaction.request_hash ≡ hash
  pub shown : detail_of transaction.id db ≡ ok detail

module _ {D : Type 0} ⦃dec : Decimal D⦄ (laws : DecimalLaws D) where
  to_entry_fits : (e : EntryRecord) → IsStored e → (x : Entry D) × (to_entry e ≡ ok x)
  unfolding to_entry
  to_entry_fits e h =
      let storable : IsStorable (dec.fetched e.amount) = record {
        exact = laws.scale-fetched e.amount;
        bounded = rw (laws.units-fetched e.amount) h;
      } in
      (
        record {
          id = e.id;
          transaction_id = e.transaction_id;
          account_id = e.account_id;
          direction = e.direction;
          amount = record {
            amount = dec.fetched e.amount;
            currency = record { code = e.currency };
          };
          created_at = e.created_at;
        },
        rw (new_storable laws (dec.fetched e.amount) (record { code = e.currency }) storable) refl,
      )

  pub to_entries_fits :
      (es : List EntryRecord) → All IsStored es → (xs : List (Entry D)) × (to_entries es ≡ ok xs)
  unfolding to_entries
  to_entries_fits [] h = ([], refl)
  to_entries_fits (e ∷ es) (p, h) =
      let (x, q) = to_entry_fits e p in
      let (xs, r) = to_entries_fits es h in (x ∷ xs, rw (q, r) refl)

  -- A transaction that is there can be read.
  pub detail_of_fits :
      (id : ℕ) (t : TransactionRecord) (db : Db)
      → find_transaction id db.transactions ≡ some t
      → All IsStored (of_transaction id db.entries)
      → (d : TransactionDetail D) × (detail_of id db ≡ ok d)
  unfolding detail_of
  detail_of_fits id t db there stored =
      let (es, q) =
        to_entries_fits _ (All-order_entries IsStored (of_transaction id db.entries) stored) in
      (record { transaction = to_transaction t; entries = es }, rw (there, q) refl)
