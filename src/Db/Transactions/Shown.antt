-- ===== src/Db/Transactions/Shown.antt =====
-- What `GET /transactions/{id}` shows of the log: every entry of the transaction, in order.
use ledger_rs.Prelude.{
  ℕ, ◌≡◌, refl, sym, ap, subst, ◌∙◌, some, List, [], ◌∷◌, map, All, ok, ok_or, map_err, Result,
  >>=-eq-ok, map_err-eq-ok, ok_or-eq-ok, ok_injective,
}
use mathlib.Core.List.{Perm, Pairwise}
use ledger_rs.Decimal.{Decimal, DecimalLaws, units}
use ledger_rs.Domain.Money.{Money}
use ledger_rs.Domain.Money
use ledger_rs.Domain.Money.Validation.{IsValid, new_exact}
use ledger_rs.Domain.Postings.{Entry, TransactionDetail}
use ledger_rs.Error.{LedgerError, transaction_not_found, money, database}
use ledger_rs.Schema.Rows.{Db, EntryRecord, TransactionRecord, find_transaction, of_transaction}
use ledger_rs.Db.Session.{Env, World, pure}
use ledger_rs.Db.Session.Calm.{IsCalm, bind_ok, map_error-read, lift_value}
use ledger_rs.Db.Transactions.{to_entry, to_entries, to_transaction, order_entries, get}
use ledger_rs.Db.Transactions.Reading.{detail_of}
use ledger_rs.Db.Transactions.Order.{IsBefore, order_entries-perm, order_entries-ordered}

module _ {D : Type 0} ⦃dec : Decimal D⦄ where
  -- In calm `get` shows what the tables hold.
  get_detail :
      (env : Env) (calm : IsCalm env) (id : ℕ) (w : World)
      → (get {D = D} env id w).0 ≡ detail_of id w.db
  unfolding get detail_of pure
  get_detail env calm id w =
      ap (λ (x : Result LedgerError (TransactionDetail D) × World). x.0)
        (bind_ok _ _ _ _ (map_error-read env calm w database _))
      ∙ lift_value _ _ _ _ λ t.
        ap (λ (x : Result LedgerError (TransactionDetail D) × World). x.0)
          (bind_ok _ _ _ _ (map_error-read env calm _ database _))
        ∙ lift_value _ _ _ _ λ es. refl

  -- The row that an entry comes from.
  abbrev pub row_of : Entry D → EntryRecord
  row_of e = record {
    id = e.id;
    transaction_id = e.transaction_id;
    account_id = e.account_id;
    direction = e.direction;
    amount = units e.amount.amount;
    currency = e.amount.currency.code;
    created_at = e.created_at;
  }

-- What is shown of the transaction `id`: its row, and each of its entries once, the earliest first.
pub record IsListing {D : Type 0} ⦃dec : Decimal D⦄ (id : ℕ) (db : Db) (d : TransactionDetail D)
    : Type 0 where
  pub transaction : TransactionRecord
  pub found : find_transaction id db.transactions ≡ some transaction
  pub headed : d.transaction ≡ to_transaction transaction
  pub complete : Perm (map row_of d.entries) (of_transaction id db.entries)
  pub ordered : Pairwise IsBefore (map row_of d.entries)

module _ {D : Type 0} ⦃dec : Decimal D⦄ (laws : DecimalLaws D) where
  to_entry-row :
      (e : EntryRecord) (x : Entry D) → to_entry e ≡ ok x → (row_of x ≡ e) × IsValid x.amount
  unfolding to_entry
  to_entry-row e x h =
      let (m, accepted, built) =
        >>=-eq-ok (map_err money (Money.new (dec.fetched e.amount) (record { code = e.currency })))
          _ h in
      let (same, valid) =
        new_exact laws (dec.fetched e.amount) (record { code = e.currency }) m
          (laws.scale-fetched e.amount) (map_err-eq-ok money _ accepted) in
      let row = ok_injective built in
      (
        ap row_of (sym row)
            ∙ ap (λ (n : Money D). record e { amount = units n.amount; currency = n.currency.code })
                same
            ∙ ap (λ z. record e { amount = z }) (laws.units-fetched e.amount),
        subst (λ y. IsValid y.amount) row valid,
      )

  -- The entries are the rows, one by one.
  abbrev pub Read : List EntryRecord → List (Entry D) → Type 0
  Read es xs = (map row_of xs ≡ es) × All (λ x. IsValid x.amount) xs

  to_entries-rows :
      (es : List EntryRecord) (xs : List (Entry D)) → to_entries es ≡ ok xs → Read es xs
  unfolding to_entries
  to_entries-rows [] xs h = subst (Read []) (ok_injective h) (refl, tt)
  to_entries-rows (e ∷ es) xs h =
      let (x, hx, h1) = >>=-eq-ok (to_entry e) _ h in
      let (rest, hs, h2) = >>=-eq-ok (to_entries es) _ h1 in
      let (row, valid) = to_entry-row e x hx in
      let (rows, valids) = to_entries-rows es rest hs in
      subst (Read (e ∷ es)) (ok_injective h2) (rw (row, rows) refl, (valid, valids))

  module _ (env : Env) (calm : IsCalm env) (id : ℕ) (d : TransactionDetail D) (w : World) where
    pub get-Read :
        (get env id w).0 ≡ ok d
        → (t : TransactionRecord) × (find_transaction id w.db.transactions ≡ some t)
          × (d.transaction ≡ to_transaction t)
          × Read (order_entries (of_transaction id w.db.entries)) d.entries
    unfolding detail_of
    get-Read h =
        let (t, there, h1) =
          >>=-eq-ok (ok_or (transaction_not_found id) (find_transaction id w.db.transactions)) _
            (sym (get_detail env calm id w) ∙ h) in
        let (xs, read, h2) =
          >>=-eq-ok (to_entries (order_entries (of_transaction id w.db.entries))) _ h1 in
        let shown = ok_injective h2 in
        (
          t,
          ok_or-eq-ok _ _ there,
          ap (λ (x : TransactionDetail D). x.transaction) (sym shown),
          subst (λ x. Read (order_entries (of_transaction id w.db.entries)) x.entries) shown
              (to_entries-rows _ xs read),
        )

    -- Where no statement fails and no other session commits, a transaction that `get` returns has
    -- the identifier's row as its head, and its entries are the rows of that transaction in the
    -- log, each once and with its whole amount, in the order of their times and, at one time, of
    -- their identifiers.
    pub get-IsListing : (get env id w).0 ≡ ok d → IsListing id w.db d
    get-IsListing h =
        let (t, there, headed, (rows, _)) = get-Read h in
        record {
          transaction = t;
          found = there;
          headed = headed;
          complete = rw rows (order_entries-perm (of_transaction id w.db.entries));
          ordered = rw rows (order_entries-ordered (of_transaction id w.db.entries));
        }
