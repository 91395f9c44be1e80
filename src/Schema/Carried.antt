-- ===== src/Schema/Carried.antt =====
-- When each statement of the transfer path is carried out.
use ledger_rs.Prelude.{
  ℕ, ◌<◌, ◌≡◌, refl, ap, subst, ◌∙◌, inl, inr, true, false, none, some, List, [], ◌∷◌, map, length,
  All, ◌==◌, ==→eq, ==_refl, arith, ok, Bool-cases,
}
use ledger_rs.Prelude.Int.{ℤ, pos, ◌+ℤ◌, ltb_ℤ, magnitude, +ℤ_zero}
use ledger_rs.Prelude.Text.{Text, text_eq, text_eq_refl, text_eq→eq}
use ledger_rs.Decimal.{Decimal, DecimalLaws, IsExact, units}
use ledger_rs.Schema.Rows.{
  AccountRecord, TransactionRecord, EntryRecord, Db, contains, contains_text, find_account,
  find_transaction, find_key, ids, transaction_ids, entry_ids, keys, of_transaction, posting,
}
use ledger_rs.Schema.Statements.{
  numeric_limit, balance_allowed, account_matches, insert_transaction, insert_entry_row,
  update_balance, update_accounts, set_balance, assert_entry_in_parent_xact,
}
use ledger_rs.Schema.Deferred.{run_deferred}
use ledger_rs.Schema.Invariant.{Distinct, IsBalanced, assert_balanced}
use ledger_rs.Schema.Effects.{raise_balance}

pub insert_transaction_fits :
    (t : TransactionRecord) (db : Db)
    → length t.request_hash ≡ 32
    → contains t.id (transaction_ids db.transactions) ≡ false
    → contains_text t.idempotency_key (keys db.transactions) ≡ false
    → insert_transaction t db ≡ ok (record db { transactions = t ∷ db.transactions })
unfolding insert_transaction
insert_transaction_fits t db h i k = ground arith

text_eq_comm : (s t : Text) → text_eq s t ≡ false → text_eq t s ≡ false
text_eq_comm s t h = elim (Bool-cases (text_eq t s)) [
  | inl same ↦ cc (rw (text_eq→eq t s same, text_eq_refl s) at h)
  | inr other ↦ other
]

pub find_key-none :
    (k : Text) (ts : List TransactionRecord)
    → find_key k ts ≡ none
    → contains_text k (keys ts) ≡ false
unfolding find_key
find_key-none k [] h = refl
find_key-none k (t ∷ ts) h = elim (Bool-cases (text_eq t.idempotency_key k)) [
  | inl same ↦ cc (rw (same, find_key) at h)
  | inr other ↦ rw (text_eq_comm _ k other) (find_key-none k ts (rw (other, find_key) at h))
]

absent :
    (k : ℕ) (a : AccountRecord) (rows : List AccountRecord)
    → contains k (ids rows) ≡ false
    → All (λ r. r.id ≡ k → r ≡ a) rows
absent k a [] h = tt
absent k a (r ∷ rows) h = elim (Bool-cases (k == r.id)) [
  | inl hit ↦ cc (rw hit at h)
  | inr miss ↦ (λ e. cc (rw (e, ==_refl k) at miss), absent k a rows (rw miss at h))
]

-- The row of an id is the only one with it.
pub only_row :
    (k : ℕ) (rows : List AccountRecord) (a : AccountRecord)
    → Distinct (ids rows)
    → find_account k rows ≡ some a
    → All (λ r. r.id ≡ k → r ≡ a) rows
unfolding find_account
only_row k [] a d h = tt
only_row k (r ∷ rows) a (new, d) h = elim (Bool-cases (r.id == k)) [
  | inl same ↦
      (λ _. cc (rw (same, find_account) at h), absent k a rows (rw (==→eq r.id k same) at new))
  | inr other ↦
      (λ e. cc (rw (e, ==_refl k) at other), only_row k rows a d (rw (other, find_account) at h))
]

-- The balances of the id have room for the delta and are allowed after it.
abbrev pub HasRoom : ℕ → ℤ → AccountRecord → Type 0
HasRoom k z a =
    a.id ≡ k
    → (magnitude (a.balance +ℤ z) < numeric_limit)
      × (balance_allowed (record a { balance = a.balance +ℤ z }) ≡ true)

-- What holds of every row holds of the one that is found.
pub found-All :
    (P : AccountRecord → Type 0) (k : ℕ) (rows : List AccountRecord) (a : AccountRecord)
    → find_account k rows ≡ some a
    → All P rows
    → P a
unfolding find_account
found-All P k [] a h all = cc
found-All P k (r ∷ rows) a h (p, all) = elim (Bool-cases (r.id == k)) [
  | inl same ↦ let here : r ≡ a = cc (rw (same, find_account) at h) in subst P here p
  | inr other ↦ found-All P k rows a (rw (other, find_account) at h) all
]

module _ {D : Type 0} ⦃dec : Decimal D⦄ (laws : DecimalLaws D) where
  set_balance_fits :
      (delta : D) (a : AccountRecord)
      → IsExact delta
      → magnitude (a.balance +ℤ units delta) < numeric_limit
      → balance_allowed (record a { balance = a.balance +ℤ units delta }) ≡ true
      → set_balance delta a ≡ ok (record a { balance = a.balance +ℤ units delta })
  unfolding set_balance
  set_balance_fits delta a e small allowed =
      rw (laws.stored_sum_exact a.balance delta e) (ground (arith, small, allowed))

  update_accounts_fits :
      (k : ℕ) (delta : D) (rows : List AccountRecord)
      → IsExact delta
      → All (HasRoom k (units delta)) rows
      → update_accounts k delta rows ≡ ok (map (raise_balance k (units delta)) rows)
  unfolding update_accounts
  update_accounts_fits k delta [] e h = refl
  update_accounts_fits k delta (a ∷ rows) e (p, h) = elim (Bool-cases (a.id == k)) [
    | inl same ↦
        let (small, allowed) = p (==→eq a.id k same) in
        rw (same, set_balance_fits delta a e small allowed, update_accounts_fits k delta rows e h)
          refl
    | inr other ↦ rw (other, update_accounts_fits k delta rows e h) refl
  ]

  pub update_balance_fits :
      (k : ℕ) (delta : D) (db : Db)
      → IsExact delta
      → All (HasRoom k (units delta)) db.accounts
      → update_balance k delta db
        ≡ ok (record db { accounts = map (raise_balance k (units delta)) db.accounts })
  unfolding update_balance
  update_balance_fits k delta db e h = rw (update_accounts_fits k delta db.accounts e h) refl

pub insert_entry_fits :
    (xid : ℕ) (e : EntryRecord) (t : TransactionRecord) (db : Db)
    → magnitude e.amount < numeric_limit
    → find_transaction e.transaction_id db.transactions ≡ some t
    → t.created_xid ≡ xid
    → ltb_ℤ (pos 0) e.amount ≡ true
    → contains e.id (entry_ids db.entries) ≡ false
    → account_matches e.currency (find_account e.account_id db.accounts) ≡ true
    → insert_entry_row xid e db ≡ ok (record db { entries = e ∷ db.entries })
unfolding insert_entry_row assert_entry_in_parent_xact
insert_entry_fits xid e t db small parent own positive fresh matched = ground arith

-- The two entries of a transfer pass the deferred trigger, once for each of them.
pub run_deferred_pair :
    (k : ℕ) (into out : EntryRecord) (tables : Db)
    → of_transaction k tables.entries ≡ into ∷ out ∷ []
    → into.currency ≡ out.currency
    → posting into +ℤ posting out ≡ pos 0
    → run_deferred (k ∷ k ∷ []) tables ≡ ok tt
unfolding run_deferred
run_deferred_pair k into out tables own same zero =
    rw (own, assert_balanced (into ∷ out ∷ []) balanced) refl
  where
    balanced : IsBalanced (into ∷ out ∷ [])
    balanced = record {
      two_entries = omega arith;
      one_currency = rw (same, text_eq_refl out.currency) refl;
      nets_to_zero = ap (λ z. posting into +ℤ z) (+ℤ_zero (posting out)) ∙ zero;
    }

-- No entry stands under a transaction that is not there.
pub of_transaction_fresh :
    (k : ℕ) (ts : List ℕ) (es : List EntryRecord)
    → contains k ts ≡ false
    → All (λ e. contains e.transaction_id ts ≡ true) es
    → of_transaction k es ≡ []
of_transaction_fresh k ts [] fresh h = refl
of_transaction_fresh k ts (e ∷ es) fresh (p, h) = elim (Bool-cases (e.transaction_id == k)) [
  | inl same ↦ cc (rw (==→eq e.transaction_id k same) at p)
  | inr other ↦ rw other (of_transaction_fresh k ts es fresh h)
]
