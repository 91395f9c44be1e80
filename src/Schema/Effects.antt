-- ===== src/Schema/Effects.antt =====
-- What each statement of the transfer path does to the tables of a transaction under way.
use ledger_rs.Prelude.{
  ℕ, ◌≡◌, inl, inr, true, false, none, List, [], ◌∷◌, map, All, ◌==◌, if◌then◌else◌, arith, ok,
  refl, ◌≢◌, Bool-cases, >>=-eq-ok, ok_injective, subst,
}
use ledger_rs.Prelude.Int.{ℤ, pos, ◌+ℤ◌, ltb_ℤ}
use ledger_rs.Decimal.{Decimal, DecimalLaws, IsExact, units}
use ledger_rs.Schema.Rows.{
  AccountRecord, TransactionRecord, EntryRecord, Db, contains, contains_text, find_account,
  find_transaction, transaction_ids, keys,
}
use ledger_rs.Schema.Statements.{
  balance_allowed, account_matches, insert_transaction, insert_entry_row, update_balance,
  update_accounts, set_balance, assert_entry_in_parent_xact,
}

-- INSERT INTO transactions, when it succeeds.
pub insert_transaction_ok :
    (t : TransactionRecord) (db db' : Db)
    → insert_transaction t db ≡ ok db'
    → (db' ≡ record db { transactions = t ∷ db.transactions })
      × (contains t.id (transaction_ids db.transactions) ≡ false)
      × (contains_text t.idempotency_key (keys db.transactions) ≡ false)
unfolding insert_transaction
insert_transaction_ok t db db' h = ground arith

pub insert_entry_ok :
    (xid : ℕ) (e : EntryRecord) (db db' : Db)
    → insert_entry_row xid e db ≡ ok db'
    → (db' ≡ record db { entries = e ∷ db.entries })
      × (ltb_ℤ (pos 0) e.amount ≡ true)
      × (account_matches e.currency (find_account e.account_id db.accounts) ≡ true)
      × (find_transaction e.transaction_id db.transactions ≢ none)
unfolding insert_entry_row assert_entry_in_parent_xact
insert_entry_ok xid e db db' h = ground arith

-- An entry whose parent is found has a parent.
pub contains-find :
    (k : ℕ) (ts : List TransactionRecord)
    → find_transaction k ts ≢ none
    → contains k (transaction_ids ts) ≡ true
unfolding find_transaction
contains-find k [] h = absurd (h refl)
contains-find k (t ∷ ts) h = ground (arith, contains-find k ts)

-- One row after the UPDATE.
abbrev pub raise_balance : ℕ → ℤ → AccountRecord → AccountRecord
raise_balance k z a = if a.id == k then record a { balance = a.balance +ℤ z } else a

abbrev pub Funded : List AccountRecord → Type 0
Funded = All (λ a. balance_allowed a ≡ true)

module _ {D : Type 0} ⦃dec : Decimal D⦄ (laws : DecimalLaws D) where
  set_balance_ok :
      (delta : D) (a a' : AccountRecord)
      → IsExact delta
      → set_balance delta a ≡ ok a'
      → (a' ≡ record a { balance = a.balance +ℤ units delta }) × (balance_allowed a' ≡ true)
  unfolding set_balance
  set_balance_ok delta a a' e h = ground (arith, laws.stored_sum_exact a.balance delta e)

  row_ok :
      (k : ℕ) (delta : D) (a a' : AccountRecord)
      → IsExact delta
      → (if a.id == k then set_balance delta a else ok a) ≡ ok a'
      → (a' ≡ raise_balance k (units delta) a)
        × (balance_allowed a ≡ true → balance_allowed a' ≡ true)
  row_ok k delta a a' e h = elim (Bool-cases (a.id == k)) [
    | inl hit ↦
        let (same, allowed) = set_balance_ok delta a a' e (rw hit at h) in
        (rw hit same, λ _. allowed)
    | inr miss ↦ ground arith
  ]

  -- UPDATE accounts, when it succeeds, raises the balances of the id by the exact delta, and every
  -- balance is still allowed.
  pub update_accounts_ok :
      (k : ℕ) (delta : D) (rows rows' : List AccountRecord)
      → IsExact delta
      → update_accounts k delta rows ≡ ok rows'
      → (rows' ≡ map (raise_balance k (units delta)) rows) × (Funded rows → Funded rows')
  unfolding update_accounts
  update_accounts_ok k delta [] rows' e h = (ground arith, λ f. ground arith)
  update_accounts_ok k delta (a ∷ rows) rows' e h =
      let (a', ha, h1) = >>=-eq-ok (if a.id == k then set_balance delta a else ok a) _ h in
      let (rest, hrest, h2) = >>=-eq-ok (update_accounts k delta rows) _ h1 in
      let (pa, fa) = row_ok k delta a a' e ha in
      let (pr, fr) = update_accounts_ok k delta rows rest e hrest in
      (cc, λ f. subst Funded (ok_injective h2) (fa f.0, fr f.1))

  pub update_balance_ok :
      (k : ℕ) (delta : D) (db db' : Db)
      → IsExact delta
      → update_balance k delta db ≡ ok db'
      → (db' ≡ record db { accounts = map (raise_balance k (units delta)) db.accounts })
        × (Funded db.accounts → Funded db'.accounts)
  unfolding update_balance
  update_balance_ok k delta db db' e h =
      let (rows, hrows, h1) = >>=-eq-ok (update_accounts k delta db.accounts) _ h in
      let (p, f) = update_accounts_ok k delta db.accounts rows e hrows in
      (cc, λ g. subst (λ d. Funded d.accounts) (ok_injective h1) (f g))
