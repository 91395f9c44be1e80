-- ===== src/Schema/Invariant.antt =====
-- The invariants of the ledger, as README.md numbers them and `ledger_check_invariants` tests them,
-- and what holds of the tables of a transaction that is under way.
use ledger_rs.Prelude.{
  ℕ, ◌≤◌, ◌≡◌, ◌⊎◌, inl, inr, true, false, List, [], ◌∷◌, map, All, length, arith, ok, ap, ◌∙◌,
}
use ledger_rs.Prelude.Int.{ℤ, pos, ◌+ℤ◌, ltb_ℤ, eqb_ℤ→eq}
use ledger_rs.Prelude.Text.{Text}
use ledger_rs.Schema.Rows.{
  AccountRecord, TransactionRecord, EntryRecord, Db, contains, contains_text, find_account, ids,
  transaction_ids, keys, of_transaction, of_account, net,
}
use ledger_rs.Schema.Statements.{balance_allowed, account_matches}
use ledger_rs.Schema.Deferred.{assert_transaction_balanced, count_distinct}

abbrev pub Distinct : List ℕ → Type 0
Distinct [] = Unit
Distinct (k ∷ ks) = (contains k ks ≡ false) × Distinct ks

abbrev pub DistinctTexts : List Text → Type 0
DistinctTexts [] = Unit
DistinctTexts (k ∷ ks) = (contains_text k ks ≡ false) × DistinctTexts ks

-- At least two entries, in one currency, with debits equal to credits.
pub record IsBalanced (es : List EntryRecord) : Type 0 where
  pub two_entries : 2 ≤ length es
  pub one_currency : count_distinct (map (λ e. e.currency) es) ≡ 1
  pub nets_to_zero : net es ≡ pos 0

-- What every statement keeps: balances that the CHECK allows, unique identifiers and keys, and
-- entries with a positive amount, a parent transaction and an account of their currency.
pub record IsWellFormed (db : Db) : Type 0 where
  pub funded : All (λ a. balance_allowed a ≡ true) db.accounts
  pub account_ids : Distinct (ids db.accounts)
  pub transaction_ids_differ : Distinct (transaction_ids db.transactions)
  pub keys_differ : DistinctTexts (keys db.transactions)
  pub parented :
      All (λ e. contains e.transaction_id (transaction_ids db.transactions) ≡ true) db.entries
  pub positive : All (λ e. ltb_ℤ (pos 0) e.amount ≡ true) db.entries
  pub denominated :
      All
        (λ e. account_matches e.currency (find_account e.account_id db.accounts) ≡ true)
        db.entries

-- The cached balance of each account is what its entries add up to, plus `off`.
abbrev pub Cached : (ℕ → ℤ) → List EntryRecord → List AccountRecord → Type 0
Cached off es = All (λ a. a.balance ≡ net (of_account a.id es) +ℤ off a.id)

-- The invariants of the ledger.
pub record Inv (db : Db) : Type 0 where
  pub well_formed : IsWellFormed db
  pub cached : Cached (λ _. pos 0) db.entries db.accounts
  pub balanced : All (λ t. IsBalanced (of_transaction t.id db.entries)) db.transactions
  pub zero_sum : net db.entries ≡ pos 0

-- The tables while the transaction `k` is written: the caches are ahead of the log by `off`, and
-- the log nets to `debt`.
pub record Flight (k : ℕ) (off : ℕ → ℤ) (debt : ℤ) (db : Db) : Type 0 where
  pub well_formed : IsWellFormed db
  pub cached : Cached off db.entries db.accounts
  pub balanced : All (λ t. (t.id ≡ k) ⊎ IsBalanced (of_transaction t.id db.entries)) db.transactions
  pub net_debt : net db.entries ≡ debt

-- The deferred trigger passes exactly the balanced sets of entries.
pub assert-IsBalanced :
    (es : List EntryRecord) → assert_transaction_balanced es ≡ ok tt → IsBalanced es
unfolding assert_transaction_balanced
assert-IsBalanced es h = ground (arith, eqb_ℤ→eq (net es) (pos 0))

pub assert_balanced :
    (es : List EntryRecord) → IsBalanced es → assert_transaction_balanced es ≡ ok tt
unfolding assert_transaction_balanced
assert_balanced es b = ground (arith)

-- A flight whose caches have caught up with the log lands.
pub Flight-Inv :
    (k : ℕ) (off : ℕ → ℤ) (debt : ℤ) (db : Db)
    → Flight k off debt db
    → ((id : ℕ) → off id ≡ pos 0)
    → debt ≡ pos 0
    → IsBalanced (of_transaction k db.entries)
    → Inv db
Flight-Inv k off debt db f settled even own = record {
  well_formed = f.well_formed;
  cached = caught_up db.accounts f.cached;
  balanced = all_balanced db.transactions f.balanced;
  zero_sum = f.net_debt ∙ even;
}
  where
    caught_up :
        (rows : List AccountRecord)
        → Cached off db.entries rows
        → Cached (λ _. pos 0) db.entries rows
    caught_up [] h = tt
    caught_up (a ∷ rows) (p, h) =
        (p ∙ ap (λ z. net (of_account a.id db.entries) +ℤ z) (settled a.id), caught_up rows h)

    all_balanced :
        (ts : List TransactionRecord)
        → All (λ t. (t.id ≡ k) ⊎ IsBalanced (of_transaction t.id db.entries)) ts
        → All (λ t. IsBalanced (of_transaction t.id db.entries)) ts
    all_balanced [] h = tt
    all_balanced (t ∷ ts) (inl e, h) = (rw e own, all_balanced ts h)
    all_balanced (t ∷ ts) (inr b, h) = (b, all_balanced ts h)
