-- ===== src/Schema/Panics.antt =====
-- A statement gives new tables or an error, and nothing else.
use ledger_rs.Prelude.{
  ℕ, arith, Option, none, some, List, [], ◌∷◌, ok, ◌==◌, Bool, true, false, if◌then◌else◌,
}
use ledger_rs.Decimal.{Decimal}
use ledger_rs.Schema.Rows.{
  AccountRecord, TransactionRecord, EntryRecord, Db, find_transaction, of_transaction,
}
use ledger_rs.Schema.Statements.{
  insert_account, insert_transaction, insert_entry_row, update_balance, update_accounts,
  set_balance, assert_entry_in_parent_xact,
}
use ledger_rs.Schema.Deferred.{run_deferred, assert_transaction_balanced}
use ledger_rs.Db.Session.Panics.{
  Returned, ok-Returned, err-Returned, chain-Returned, fail_if-Returned,
}

pub insert_account-Returned : (a : AccountRecord) (db : Db) → Returned (insert_account a db)
unfolding insert_account
insert_account-Returned a db h = ground arith

pub insert_transaction-Returned :
    (t : TransactionRecord) (db : Db) → Returned (insert_transaction t db)
unfolding insert_transaction
insert_transaction-Returned t db h = ground arith

parent-Returned :
    (xid : ℕ) (o : Option TransactionRecord) → Returned (assert_entry_in_parent_xact xid o)
unfolding assert_entry_in_parent_xact
parent-Returned xid none = err-Returned _
parent-Returned xid (some t) = fail_if-Returned _ _

pub insert_entry_row-Returned :
    (xid : ℕ) (e : EntryRecord) (db : Db) → Returned (insert_entry_row xid e db)
unfolding insert_entry_row
insert_entry_row-Returned xid e db h =
    ground (arith, parent-Returned xid (find_transaction e.transaction_id db.transactions))

module _ {D : Type 0} ⦃dec : Decimal D⦄ where
  row-Returned :
      (b : Bool) (delta : D) (a : AccountRecord)
      → Returned (if b then set_balance delta a else ok a)
  unfolding set_balance
  row-Returned true delta a = λ h. ground arith
  row-Returned false delta a = ok-Returned _

  update_accounts-Returned :
      (k : ℕ) (delta : D) (rows : List AccountRecord) → Returned (update_accounts k delta rows)
  unfolding update_accounts
  update_accounts-Returned k delta [] = ok-Returned _
  update_accounts-Returned k delta (a ∷ rows) =
      chain-Returned _ _ (row-Returned (a.id == k) delta a)
        λ a'. chain-Returned _ _ (update_accounts-Returned k delta rows) λ rest. ok-Returned _

  pub update_balance-Returned : (k : ℕ) (delta : D) (db : Db) → Returned (update_balance k delta db)
  unfolding update_balance
  update_balance-Returned k delta db =
      chain-Returned _ _ (update_accounts-Returned k delta db.accounts) λ rows. ok-Returned _

assert-Returned : (es : List EntryRecord) → Returned (assert_transaction_balanced es)
unfolding assert_transaction_balanced
assert-Returned es h = ground arith

pub run_deferred-Returned : (ks : List ℕ) (db : Db) → Returned (run_deferred ks db)
unfolding run_deferred
run_deferred-Returned [] db = ok-Returned _
run_deferred-Returned (k ∷ ks) db =
    chain-Returned _ _ (assert-Returned (of_transaction k db.entries))
      λ _. run_deferred-Returned ks db
