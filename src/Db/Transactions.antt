-- ===== src/Db/Transactions.antt =====
-- src/db/transactions.rs: the lookup of an idempotency key, and a transaction with its entries.
pub mod Reading
pub mod Order
pub mod Shown
pub mod Balanced
use ledger_rs.Prelude.{
  ℕ, Bool, ◌||◌, ◌&&◌, Option, none, some, List, [], ◌∷◌, ltb, ◌==◌, Result, ok, err, ok_or,
  map_err, if◌then◌else◌,
}
use ledger_rs.Prelude
use ledger_rs.Prelude.Text.{Text}
use ledger_rs.Decimal.{Decimal}
use ledger_rs.Domain.Money.{Money}
use ledger_rs.Domain.Money
use ledger_rs.Domain.Postings.{Entry, Transaction, TransactionDetail}
use ledger_rs.Error.{LedgerError, transaction_not_found, money}
use ledger_rs.Schema.Rows.{
  TransactionRecord, EntryRecord, Db, find_transaction, find_key, of_transaction,
}
use ledger_rs.Db.Session.{Env, Action, ◌>>=◌, pure, lift, query, read}

pub record IdempotencyRecord : Type 0 where
  pub transaction_id : ℕ
  pub request_hash : List ℕ

-- `From<TransactionRow>`
abbrev pub to_transaction : TransactionRecord → Transaction
to_transaction t = record {
  id = t.id;
  idempotency_key = t.idempotency_key;
  description = t.description;
  created_at = t.created_at;
}

abbrev pub to_idempotency_record : TransactionRecord → IdempotencyRecord
to_idempotency_record t = record { transaction_id = t.id; request_hash = t.request_hash }

-- `SELECT id, request_hash FROM transactions WHERE idempotency_key = $1`
unfoldable pub select_key : Text → Db → Option IdempotencyRecord
select_key key db = elim (find_key key db.transactions) [
  | none ↦ none
  | some t ↦ some (to_idempotency_record t)
]

-- `find_by_idempotency_key`
unfoldable pub find_by_idempotency_key : Env → Text → Action LedgerError (Option IdempotencyRecord)
find_by_idempotency_key env key = query (read env (select_key key))

-- `ORDER BY created_at, id`
unfoldable pub comes_before : EntryRecord → EntryRecord → Bool
comes_before a b = ltb a.created_at b.created_at || (a.created_at == b.created_at && ltb a.id b.id)

unfoldable pub insert_sorted : EntryRecord → List EntryRecord → List EntryRecord
insert_sorted e [] = e ∷ []
insert_sorted e (x ∷ xs) = if comes_before x e then x ∷ insert_sorted e xs else e ∷ x ∷ xs

unfoldable pub order_entries : List EntryRecord → List EntryRecord
order_entries [] = []
order_entries (e ∷ es) = insert_sorted e (order_entries es)

module _ {D : Type 0} ⦃dec : Decimal D⦄ where
  -- `TryFrom<EntryRow>`
  unfoldable pub to_entry : EntryRecord → Result LedgerError (Entry D)
  to_entry e =
      Prelude.◌>>=◌
        (map_err money (Money.new (dec.fetched e.amount) (record { code = e.currency })))
        λ amount. ok (record {
          id = e.id;
          transaction_id = e.transaction_id;
          account_id = e.account_id;
          direction = e.direction;
          amount = amount;
          created_at = e.created_at;
        })

  -- `.map(Entry::try_from).collect::<Result<Vec<_>>>()`
  unfoldable pub to_entries : List EntryRecord → Result LedgerError (List (Entry D))
  to_entries [] = ok []
  to_entries (e ∷ es) =
      Prelude.◌>>=◌ (to_entry e) λ x. Prelude.◌>>=◌ (to_entries es) λ xs. ok (x ∷ xs)

  -- `get`: two statements on the pool.
  unfoldable pub get : Env → ℕ → Action LedgerError (TransactionDetail D)
  get env id = do
    found ← query (read env (λ db. find_transaction id db.transactions))
    transaction ← lift (ok_or (transaction_not_found id) found)
    rows ← query (read env (λ db. order_entries (of_transaction id db.entries)))
    entries ← lift (to_entries rows)
    pure (record { transaction = to_transaction transaction; entries = entries })
