-- ===== src/Schema/Rows.antt =====
-- The tables of migrations/0001_init.sql and their derived quantities.
use ledger_rs.Prelude.{
  ℕ, Bool, false, ◌||◌, Option, none, some, List, [], ◌∷◌, map, ◌==◌, if◌then◌else◌,
}
use ledger_rs.Prelude.Int.{ℤ, pos, neg, ◌+ℤ◌}
use ledger_rs.Prelude.Text.{Text, text_eq}
use ledger_rs.Domain.Postings.{Direction, debit, credit}

pub record AccountRecord : Type 0 where
  pub id : ℕ
  pub name : Text
  pub currency : Text
  pub balance : ℤ
  pub allows_negative_balance : Bool
  pub created_at : ℕ

pub record TransactionRecord : Type 0 where
  pub id : ℕ
  pub idempotency_key : Text
  pub request_hash : List ℕ
  pub description : Text
  pub created_xid : ℕ
  pub created_at : ℕ

pub record EntryRecord : Type 0 where
  pub id : ℕ
  pub transaction_id : ℕ
  pub account_id : ℕ
  pub direction : Direction
  pub amount : ℤ
  pub currency : Text
  pub created_at : ℕ

-- The newest row of a table comes first. `next_xid` is the number of the next database transaction.
pub record Db : Type 0 where
  pub accounts : List AccountRecord
  pub transactions : List TransactionRecord
  pub entries : List EntryRecord
  pub next_xid : ℕ

abbrev pub contains : ℕ → List ℕ → Bool
contains k [] = false
contains k (x ∷ xs) = k == x || contains k xs

abbrev pub contains_text : Text → List Text → Bool
contains_text k [] = false
contains_text k (x ∷ xs) = text_eq k x || contains_text k xs

unfoldable pub find_account : ℕ → List AccountRecord → Option AccountRecord
find_account k [] = none
find_account k (a ∷ rest) = if a.id == k then some a else find_account k rest

unfoldable pub find_transaction : ℕ → List TransactionRecord → Option TransactionRecord
find_transaction k [] = none
find_transaction k (t ∷ rest) = if t.id == k then some t else find_transaction k rest

unfoldable pub find_key : Text → List TransactionRecord → Option TransactionRecord
find_key k [] = none
find_key k (t ∷ rest) = if text_eq t.idempotency_key k then some t else find_key k rest

-- `CASE WHEN direction = 'debit' THEN amount ELSE -amount END`
abbrev pub signed_by : Direction → ℤ → ℤ
signed_by debit z = z
signed_by credit z = neg z

abbrev pub posting : EntryRecord → ℤ
posting e = signed_by e.direction e.amount

-- The entries of a transaction, and those of an account.
abbrev pub of_transaction : ℕ → List EntryRecord → List EntryRecord
of_transaction k [] = []
of_transaction k (e ∷ es) =
    if e.transaction_id == k then e ∷ of_transaction k es else of_transaction k es

abbrev pub of_account : ℕ → List EntryRecord → List EntryRecord
of_account k [] = []
of_account k (e ∷ es) = if e.account_id == k then e ∷ of_account k es else of_account k es

-- `SUM` of the postings, 0 for no rows.
abbrev pub net : List EntryRecord → ℤ
net [] = pos 0
net (e ∷ es) = posting e +ℤ net es

abbrev pub ids : List AccountRecord → List ℕ
ids = map (λ a. a.id)

abbrev pub transaction_ids : List TransactionRecord → List ℕ
transaction_ids = map (λ t. t.id)

abbrev pub keys : List TransactionRecord → List Text
keys = map (λ t. t.idempotency_key)

abbrev pub entry_ids : List EntryRecord → List ℕ
entry_ids = map (λ e. e.id)
