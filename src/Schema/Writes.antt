-- ===== src/Schema/Writes.antt =====
-- The statements that change the tables, as a step relation: whatever the service does to the
-- tables, it does by these.
use ledger_rs.Prelude.{ℕ, suc, ◌≡◌, ok}
use ledger_rs.Prelude.Int.{pos}
use ledger_rs.Decimal.{Decimal}
use ledger_rs.Schema.Rows.{AccountRecord, TransactionRecord, EntryRecord, Db}
use ledger_rs.Schema.Statements.{
  insert_account, insert_transaction, insert_entry_row, update_balance,
}

pub data Write (D : Type 0) ⦃dec : Decimal D⦄ : Db → Db → Type 0 where
  numbers : (db : Db) → Write D db (record db { next_xid = suc db.next_xid })
  opens :
      (a : AccountRecord) (db db' : Db)
      → a.balance ≡ pos 0
      → insert_account a db ≡ ok db'
      → Write D db db'
  claims : (t : TransactionRecord) (db db' : Db) → insert_transaction t db ≡ ok db' → Write D db db'
  enters :
      (xid : ℕ) (e : EntryRecord) (db db' : Db)
      → insert_entry_row xid e db ≡ ok db'
      → Write D db db'
  updates : (k : ℕ) (delta : D) (db db' : Db) → update_balance k delta db ≡ ok db' → Write D db db'

-- Any number of them.
pub data Written (D : Type 0) ⦃dec : Decimal D⦄ : Db → Db → Type 0 where
  untouched : (db : Db) → Written D db db
  then_write : (a b c : Db) → Written D a b → Write D b c → Written D a c

module _ (D : Type 0) ⦃dec : Decimal D⦄ where
  pub Written-trans : (a b c : Db) → Written D a b → Written D b c → Written D a c
  Written-trans a b _ h (untouched _) = h
  Written-trans a b c h (then_write _ m _ k s) = then_write a m c (Written-trans a b m h k) s

  -- What every statement keeps, any number of them keeps.
  pub Written-keeps :
      (P : Db → Type 0)
      → ((a b : Db) → Write D a b → P a → P b)
      → (a b : Db) → Written D a b
      → P a
      → P b
  Written-keeps P step a _ (untouched _) h = h
  Written-keeps P step a c (then_write _ b _ k s) h = step b c s (Written-keeps P step a b k h)
