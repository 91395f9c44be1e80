-- ===== src/Schema/Permanence.antt =====
-- What no statement of the service changes once it is written, and the range of the balances.
use ledger_rs.Prelude.{
  ℕ, ◌<◌, ◌≡◌, refl, ap, subst, sym, ◌∙◌, List, [], ◌∷◌, ◌++◌, map, All, ok, arith, ◌==◌,
  if◌then◌else◌, Bool-cases, inl, inr, >>=-eq-ok, ok_injective,
}
use ledger_rs.Prelude.Int.{pos, magnitude}
use ledger_rs.Decimal.{Decimal}
use ledger_rs.Schema.Rows.{AccountRecord, TransactionRecord, EntryRecord, Db}
use ledger_rs.Schema.Statements.{numeric_limit, update_balance, update_accounts, set_balance}
use ledger_rs.Schema.Effects.{insert_transaction_ok, insert_entry_ok}
use ledger_rs.Schema.Opening.{insert_account_ok}
use ledger_rs.Schema.Writes.{Write, numbers, opens, claims, enters, updates, Written, Written-keeps}

-- An account but for its balance.
abbrev pub identity : AccountRecord → AccountRecord
identity a = record a { balance = pos 0 }

-- Rows are added in front: every transaction and entry stays as it was written, and of an account
-- nothing changes but the balance.
pub record Extends (a b : Db) : Type 0 where
  pub new_accounts : List AccountRecord
  pub new_transactions : List TransactionRecord
  pub new_entries : List EntryRecord
  pub accounts_stay : map identity b.accounts ≡ new_accounts ++ map identity a.accounts
  pub transactions_stay : b.transactions ≡ new_transactions ++ a.transactions
  pub entries_stay : b.entries ≡ new_entries ++ a.entries

abbrev pub InRange : AccountRecord → Type 0
InRange a = magnitude a.balance < numeric_limit

module _ {D : Type 0} ⦃dec : Decimal D⦄ where
  set_balance_keeps :
      (delta : D) (a a' : AccountRecord)
      → set_balance delta a ≡ ok a'
      → (identity a' ≡ identity a) × InRange a'
  unfolding set_balance
  set_balance_keeps delta a a' h = ground arith

  row_keeps :
      (k : ℕ) (delta : D) (a a' : AccountRecord)
      → (if a.id == k then set_balance delta a else ok a) ≡ ok a'
      → (identity a' ≡ identity a) × (InRange a → InRange a')
  row_keeps k delta a a' h = elim (Bool-cases (a.id == k)) [
    | inl hit ↦ let (p, q) = set_balance_keeps delta a a' (rw hit at h) in (p, λ _. q)
    | inr miss ↦
        let same : a ≡ a' = ok_injective (rw miss at h) in
        (ap identity (sym same), λ r. subst InRange same r)
  ]

  update_accounts_keeps :
      (k : ℕ) (delta : D) (rows rows' : List AccountRecord)
      → update_accounts k delta rows ≡ ok rows'
      → (map identity rows' ≡ map identity rows) × (All InRange rows → All InRange rows')
  unfolding update_accounts
  update_accounts_keeps k delta [] rows' h =
      let same : [] ≡ rows' = ok_injective h in
      (ap (map identity) (sym same), λ r. subst (All InRange) same r)
  update_accounts_keeps k delta (a ∷ rows) rows' h =
      let (a', ha, h1) = >>=-eq-ok (if a.id == k then set_balance delta a else ok a) _ h in
      let (rest, hrest, h2) = >>=-eq-ok (update_accounts k delta rows) _ h1 in
      let (p, q) = row_keeps k delta a a' ha in
      let (ps, qs) = update_accounts_keeps k delta rows rest hrest in
      let same : a' ∷ rest ≡ rows' = ok_injective h2 in
      (ap (map identity) (sym same) ∙ cc (p, ps), λ (r, rs). subst (All InRange) same (q r, qs rs))

  update_balance_keeps :
      (k : ℕ) (delta : D) (db db' : Db)
      → update_balance k delta db ≡ ok db'
      → (map identity db'.accounts ≡ map identity db.accounts)
        × (db'.transactions ≡ db.transactions)
        × (db'.entries ≡ db.entries)
        × (All InRange db.accounts → All InRange db'.accounts)
  unfolding update_balance
  update_balance_keeps k delta db db' h =
      let (rows, hrows, h1) = >>=-eq-ok (update_accounts k delta db.accounts) _ h in
      let (p, q) = update_accounts_keeps k delta db.accounts rows hrows in
      let same : record db { accounts = rows } ≡ db' = ok_injective h1 in
      subst
        (λ d.
          (map identity d.accounts ≡ map identity db.accounts)
          × (d.transactions ≡ db.transactions)
          × (d.entries ≡ db.entries)
          × (All InRange db.accounts → All InRange d.accounts))
        same (p, refl, refl, q)

  Write-Extends : (origin a b : Db) → Write D a b → Extends origin a → Extends origin b
  Write-Extends origin a _ (numbers _) e = record {
    new_accounts = e.new_accounts;
    new_transactions = e.new_transactions;
    new_entries = e.new_entries;
    accounts_stay = e.accounts_stay;
    transactions_stay = e.transactions_stay;
    entries_stay = e.entries_stay;
  }
  Write-Extends origin a b (opens r _ _ empty h) e =
      let (same, _, _) = insert_account_ok r a b h in
      subst (Extends origin) (sym same) (record {
        new_accounts = identity r ∷ e.new_accounts;
        new_transactions = e.new_transactions;
        new_entries = e.new_entries;
        accounts_stay = ap (λ l. identity r ∷ l) e.accounts_stay;
        transactions_stay = e.transactions_stay;
        entries_stay = e.entries_stay;
      })
  Write-Extends origin a b (claims t _ _ h) e =
      let (same, _, _) = insert_transaction_ok t a b h in
      subst (Extends origin) (sym same) (record {
        new_accounts = e.new_accounts;
        new_transactions = t ∷ e.new_transactions;
        new_entries = e.new_entries;
        accounts_stay = e.accounts_stay;
        transactions_stay = ap (λ l. t ∷ l) e.transactions_stay;
        entries_stay = e.entries_stay;
      })
  Write-Extends origin a b (enters xid r _ _ h) e =
      let (same, _, _, _) = insert_entry_ok xid r a b h in
      subst (Extends origin) (sym same) (record {
        new_accounts = e.new_accounts;
        new_transactions = e.new_transactions;
        new_entries = r ∷ e.new_entries;
        accounts_stay = e.accounts_stay;
        transactions_stay = e.transactions_stay;
        entries_stay = ap (λ l. r ∷ l) e.entries_stay;
      })
  Write-Extends origin a b (updates k delta _ _ h) e =
      let (p, q, r, _) = update_balance_keeps k delta a b h in
      record {
        new_accounts = e.new_accounts;
        new_transactions = e.new_transactions;
        new_entries = e.new_entries;
        accounts_stay = p ∙ e.accounts_stay;
        transactions_stay = q ∙ e.transactions_stay;
        entries_stay = r ∙ e.entries_stay;
      }

  -- Whatever the statements do, nothing that is written is lost or changed but balances.
  pub Written-Extends : (a b : Db) → Written D a b → Extends a b
  Written-Extends a b w = Written-keeps D (Extends a) (Write-Extends a) a b w (record {
    new_accounts = [];
    new_transactions = [];
    new_entries = [];
    accounts_stay = refl;
    transactions_stay = refl;
    entries_stay = refl;
  })

  Write-InRange : (a b : Db) → Write D a b → All InRange a.accounts → All InRange b.accounts
  Write-InRange a _ (numbers _) r = r
  Write-InRange a b (opens row _ _ empty h) r =
      let (same, _, _) = insert_account_ok row a b h in
      subst (λ d. All InRange d.accounts) (sym same) (rw empty (omega arith), r)
  Write-InRange a b (claims t _ _ h) r =
      let (same, _, _) = insert_transaction_ok t a b h in
      subst (λ d. All InRange d.accounts) (sym same) r
  Write-InRange a b (enters xid row _ _ h) r =
      let (same, _, _, _) = insert_entry_ok xid row a b h in
      subst (λ d. All InRange d.accounts) (sym same) r
  Write-InRange a b (updates k delta _ _ h) r =
      let (_, _, _, q) = update_balance_keeps k delta a b h in q r

  -- Whatever the statements do, every balance fits its column.
  pub Written-InRange : (a b : Db) → Written D a b → All InRange a.accounts → All InRange b.accounts
  Written-InRange = Written-keeps D (λ d. All InRange d.accounts) Write-InRange
