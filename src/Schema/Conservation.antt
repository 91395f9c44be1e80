-- ===== src/Schema/Conservation.antt =====
-- Money is neither made nor lost: in each currency the balances add up to zero.
use ledger_rs.Prelude.{
  ==_comm, ℕ, ◌≡◌, refl, sym, subst, ◌∙◌, Bool, true, false, inl, inr, List, [], ◌∷◌, map, All,
  All-implies, length, arith, some, ◌==◌, ==→eq, ==_refl, Bool-cases, if◌then◌else◌,
}
use ledger_rs.Prelude.Int.{ℤ, pos, int_laws, +ℤ_zero}
use ledger_rs.Prelude.Text.{Text, text_eq, text_eq→eq}
use ledger_rs.Schema.Totals.{total, total-same, total-zero, total-map, total-groups}
use ledger_rs.Schema.Rows.{
  AccountRecord, EntryRecord, Db, contains, contains_text, find_account, ids, transaction_ids,
  of_transaction, of_account, posting, net,
}
use ledger_rs.Schema.Statements.{account_matches}
use ledger_rs.Schema.Deferred.{count_distinct, distinct}
use ledger_rs.Schema.Invariant.{Inv, IsBalanced, Distinct, Cached}

-- `SELECT SUM(balance) FROM accounts WHERE currency = $1`
pub money_in : Text → Db → ℤ
money_in c db = total (λ a. if text_eq a.currency c then a.balance else pos 0) db.accounts

-- What an entry is worth in a currency.
abbrev worth : Text → EntryRecord → ℤ
worth c e = if text_eq e.currency c then posting e else pos 0

-- Entries of one currency.
same_worth :
    (c cur : Text) (es : List EntryRecord)
    → All (λ e. e.currency ≡ cur) es
    → total (worth c) es ≡ (if text_eq cur c then net es else pos 0)
same_worth c cur es h = elim (Bool-cases (text_eq cur c)) [
  | inl hit ↦ rw hit (all_in es h hit)
  | inr miss ↦ rw miss (all_out es h miss)
]
  where
    all_in :
        (es : List EntryRecord)
        → All (λ e. e.currency ≡ cur) es
        → text_eq cur c ≡ true
        → total (worth c) es ≡ net es
    all_in [] h q = refl
    all_in (e ∷ es) (p, h) q = rw (p, q, all_in es h q) refl

    all_out :
        (es : List EntryRecord)
        → All (λ e. e.currency ≡ cur) es
        → text_eq cur c ≡ false
        → total (worth c) es ≡ pos 0
    all_out [] h q = refl
    all_out (e ∷ es) (p, h) q = rw (p, q, all_out es h q) (omega int_laws)

contains_text-All :
    (P : Text → Type 0) (k : Text) (xs : List Text) → contains_text k xs ≡ true → All P xs → P k
contains_text-All P k [] h all = cc
contains_text-All P k (x ∷ xs) h (p, all) = elim (Bool-cases (text_eq k x)) [
  | inl same ↦ subst P (sym (text_eq→eq k x same)) p
  | inr other ↦ contains_text-All P k xs (rw other at h) all
]

none_distinct : (cs : List Text) → length (distinct cs) ≡ 0 → cs ≡ []
none_distinct [] h = refl
none_distinct (c ∷ cs) h = elim (Bool-cases (contains_text c cs)) [
  | inl again ↦ absurd (filled c cs (none_distinct cs (rw again at h)) again)
  | inr new ↦ absurd (omega (arith, (rw new at h)))
]
  where
    filled : (c : Text) (cs : List Text) → cs ≡ [] → contains_text c cs ≡ true → ⊥
    filled c cs e h = cc (rw e at h)

one_distinct : (c : Text) (cs : List Text) → count_distinct (c ∷ cs) ≡ 1 → All (λ d. d ≡ c) cs
one_distinct c [] h = tt
one_distinct c (d ∷ cs) h = elim (Bool-cases (contains_text c (d ∷ cs))) [
  | inl again ↦
      let rest = one_distinct d cs (rw again at h) in
      let same : c ≡ d = contains_text-All (λ x. x ≡ d) c (d ∷ cs) again (refl, rest) in
      (sym same, All-implies _ _ (λ x q. q ∙ sym same) cs rest)
  | inr new ↦
      let gone : length (distinct (d ∷ cs)) ≡ 0 = omega (arith, (rw new at h)) in
      cc (none_distinct (d ∷ cs) gone)
]

of_map :
    (c : Text) (es : List EntryRecord)
    → All (λ d. d ≡ c) (map (λ e. e.currency) es)
    → All (λ e. e.currency ≡ c) es
of_map c [] h = tt
of_map c (e ∷ es) (p, h) = (p, of_map c es h)

-- The currency of a balanced transaction.
pub single_currency :
    (es : List EntryRecord) → IsBalanced es → (c : Text) × All (λ e. e.currency ≡ c) es
single_currency [] b = ([], tt)
single_currency (e ∷ es) b = (
  e.currency,
  (refl, of_map e.currency es (one_distinct e.currency (map (λ x. x.currency) es) b.one_currency)),
)

-- A balanced transaction is worth nothing in any currency.
balanced_worth : (c : Text) (es : List EntryRecord) → IsBalanced es → total (worth c) es ≡ pos 0
balanced_worth c es b =
    let (cur, same) = single_currency es b in
    same_worth c cur es same ∙ rw (b.nets_to_zero) (whichever (text_eq cur c))
  where
    whichever : (b : Bool) → (if b then pos 0 else pos 0) ≡ pos 0
    whichever true = refl
    whichever false = refl

-- An account is found under its identifier.
others_differ :
    (k : ℕ) (rows : List AccountRecord)
    → contains k (ids rows) ≡ false
    → All (λ a. (k == a.id) ≡ false) rows
others_differ k [] h = tt
others_differ k (a ∷ rows) h = elim (Bool-cases (k == a.id)) [
  | inl hit ↦ cc (rw hit at h)
  | inr miss ↦ (miss, others_differ k rows (rw miss at h))
]

found_each :
    (rows : List AccountRecord)
    → Distinct (ids rows)
    → All (λ a. find_account a.id rows ≡ some a) rows
unfolding find_account
found_each [] d = tt
found_each (a ∷ rows) (fresh, d) =
    (rw (==_refl a.id) refl, behind rows (others_differ a.id rows fresh) (found_each rows d))
  where
    behind :
        (xs : List AccountRecord)
        → All (λ x. (a.id == x.id) ≡ false) xs
        → All (λ x. find_account x.id rows ≡ some x) xs
        → All (λ x. find_account x.id (a ∷ rows) ≡ some x) xs
    behind [] p q = tt
    behind (x ∷ xs) (p, ps) (q, qs) = (rw (find_account, p) q, behind xs ps qs)

own_currency :
    (a : AccountRecord) (rows : List AccountRecord) (es : List EntryRecord)
    → find_account a.id rows ≡ some a
    → All (λ e. account_matches e.currency (find_account e.account_id rows) ≡ true) es
    → All (λ e. e.currency ≡ a.currency) (of_account a.id es)
unfolding account_matches
own_currency a rows [] f h = tt
own_currency a rows (e ∷ es) f (p, h) = elim (Bool-cases (e.account_id == a.id)) [
  | inl hit ↦
      let there : account_matches e.currency (some a) ≡ true =
        rw (==→eq e.account_id a.id hit, f) at p in
      rw hit (sym (text_eq→eq a.currency e.currency there), own_currency a rows es f h)
  | inr miss ↦ rw miss (own_currency a rows es f h)
]

account_known :
    (c : Text) (k : ℕ) (rows : List AccountRecord)
    → account_matches c (find_account k rows) ≡ true
    → contains k (ids rows) ≡ true
unfolding account_matches find_account
account_known c k [] h = cc
account_known c k (a ∷ rows) h = elim (Bool-cases (a.id == k)) [
  | inl hit ↦ let same : (k == a.id) ≡ true = rw (==_comm k a.id) hit in rw same refl
  | inr miss ↦
      let other : (k == a.id) ≡ false = rw (==_comm k a.id) miss in
      rw other (account_known c k rows (rw (miss, find_account) at h))
]

-- In each currency the balances add up to zero, on tables with the invariants of the ledger.
pub Inv-conserved : (db : Db) → Inv db → (c : Text) → money_in c db ≡ pos 0
unfolding money_in
Inv-conserved db v c =
    let w = worth c in
    let form = v.well_formed in
    total-same _ (λ a. total w (of_account a.id db.entries)) db.accounts
      (each_account db.accounts (found_each db.accounts form.account_ids) v.cached)
    ∙ sym (total-map (λ a. a.id) (λ k. total w (of_account k db.entries)) db.accounts)
    ∙ total-groups (λ e. e.account_id) of_account (λ k. refl) (λ k e es. refl) w (ids db.accounts)
        db.entries form.account_ids
        (All-implies _ _ (λ e. account_known e.currency e.account_id db.accounts) db.entries
          form.denominated)
    ∙ sym (
        total-groups (λ e. e.transaction_id) of_transaction (λ k. refl) (λ k e es. refl) w
          (transaction_ids db.transactions) db.entries form.transaction_ids_differ form.parented)
    ∙ total-map (λ t. t.id) (λ k. total w (of_transaction k db.entries)) db.transactions
    ∙ total-same _ (λ _. pos 0) db.transactions
        (All-implies _ _ (λ t. balanced_worth c (of_transaction t.id db.entries)) db.transactions
          v.balanced)
    ∙ total-zero db.transactions
  where
    each_account :
        (rows : List AccountRecord)
        → All (λ a. find_account a.id db.accounts ≡ some a) rows
        → Cached (λ _. pos 0) db.entries rows
        → All
            (λ a.
              (if text_eq a.currency c then a.balance else pos 0)
              ≡ total (worth c) (of_account a.id db.entries))
            rows
    each_account [] f h = tt
    each_account (a ∷ rows) (f, fs) (p, h) = (
      rw (p ∙ +ℤ_zero (net (of_account a.id db.entries))) (
          sym (
            same_worth c a.currency (of_account a.id db.entries)
              (own_currency a db.accounts db.entries f v.well_formed.denominated))),
      each_account rows fs h,
    )
