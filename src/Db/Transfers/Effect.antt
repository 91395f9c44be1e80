-- ===== src/Db/Transfers/Effect.antt =====
-- What a transfer does to the rows of the tables, as a relation between the tables before and after.
use ledger_rs.Prelude.{
  ℕ, ◌≡◌, inl, inr, sym, ap, subst, ◌∙◌, true, Option, none, some, List, [], ◌∷◌, map, ok, arith,
  Option-cases, ok_or, ok_injective,
}
use ledger_rs.Prelude.Int.{ℤ, neg}
use ledger_rs.Prelude.Text.{Text, text_eq, text_eq_refl}
use ledger_rs.Decimal.{Decimal, units}
use ledger_rs.Domain.Currency.{as_str}
use ledger_rs.Domain.Postings.{Direction, debit, credit}
use ledger_rs.Domain.Fingerprint.{TransferIntent}
use ledger_rs.Error.{account_not_found}
use ledger_rs.Schema.Rows.{
  Db, AccountRecord, EntryRecord, TransactionRecord, find_key, find_account,
}
use ledger_rs.Schema.Effects.{raise_balance}
use ledger_rs.Db.Accounts.{AccountRow, to_row}

-- Tables with the same rows.
pub record Same (a b : Db) : Type 0 where
  pub accounts_same : b.accounts ≡ a.accounts
  pub transactions_same : b.transactions ≡ a.transactions
  pub entries_same : b.entries ≡ a.entries

-- The row of one side of a transfer.
pub record IsPosting (e : EntryRecord) (t account : ℕ) (dir : Direction) (z : ℤ) (currency : Text)
    : Type 0 where
  pub of_parent : e.transaction_id ≡ t
  pub on_account : e.account_id ≡ account
  pub on_side : e.direction ≡ dir
  pub of_amount : e.amount ≡ z
  pub in_currency : e.currency ≡ currency

-- `b` is `a` after the transfer: one more transaction with the key, the fingerprint and the
-- description, a credit of the sender and a debit of the receiver, and the two balances moved by
-- the amount; every other row is as it was.
pub record Moved (key : Text) (hash : List ℕ) (description : Text) (from to : ℕ) (z : ℤ)
    (currency : Text) (a b : Db) : Type 0 where
  pub transaction : TransactionRecord
  pub out : EntryRecord
  pub into : EntryRecord
  pub recorded : b.transactions ≡ transaction ∷ a.transactions
  pub under_key : transaction.idempotency_key ≡ key
  pub with_hash : transaction.request_hash ≡ hash
  pub described : transaction.description ≡ description
  pub logged : b.entries ≡ into ∷ out ∷ a.entries
  pub sender : IsPosting out transaction.id from credit z currency
  pub receiver : IsPosting into transaction.id to debit z currency
  pub balances : b.accounts ≡ map (raise_balance to z) (map (raise_balance from (neg z)) a.accounts)

-- `Moved`, as a request asks for it.
abbrev pub IsTransferred :
    {D : Type 0} ⦃dec : Decimal D⦄ → Text → List ℕ → TransferIntent D → Db → Db → Type 0
IsTransferred key hash i =
    Moved key hash i.description i.from_account_id i.to_account_id (units i.amount.amount)
      (as_str i.amount.currency)

-- The tables of the open transaction, row by row.
pub record Holds (accounts : List AccountRecord) (transactions : List TransactionRecord)
    (entries : List EntryRecord) (tables : Db) : Type 0 where
  pub has_accounts : tables.accounts ≡ accounts
  pub has_transactions : tables.transactions ≡ transactions
  pub has_entries : tables.entries ≡ entries

pub find_account_id :
    (id : ℕ) (rows : List AccountRecord) (a : AccountRecord)
    → find_account id rows ≡ some a
    → a.id ≡ id
unfolding find_account
find_account_id id [] a h = cc
find_account_id id (b ∷ rows) a h = ground (arith, find_account_id id rows a)

pub find_key_first :
    (key : Text) (t : TransactionRecord) (ts : List TransactionRecord)
    → t.idempotency_key ≡ key
    → find_key key (t ∷ ts) ≡ some t
unfolding find_key
find_key_first key t ts e = rw (subst (λ k. text_eq t.idempotency_key k ≡ true) e (text_eq_refl _))

pub row_id :
    {D : Type 0} ⦃dec : Decimal D⦄ (id : ℕ) (rows : List AccountRecord)
    (found : Option (AccountRow D)) (row : AccountRow D)
    → elim (find_account id rows) [ none ↦ none | some a ↦ some (to_row a) ] ≡ found
    → ok_or (account_not_found id) found ≡ ok row
    → row.id ≡ id
row_id id rows found row e h = elim (Option-cases (find_account id rows)) [
  | inl missing ↦ cc (ap (ok_or (account_not_found id)) (rw missing at e))
  | inr (a, p) ↦
      sym (
        ap (λ (r : AccountRow _). r.id)
          (ok_injective (ap (ok_or (account_not_found id)) (rw p at e) ∙ h)))
      ∙ find_account_id id rows a p
]
