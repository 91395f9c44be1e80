-- ===== src/Schema/Flights.antt =====
-- Each statement of the transfer path keeps the tables under way in order.
use ledger_rs.Prelude.{
  ℕ, ◌≡◌, ◌⊎◌, inl, inr, true, List, [], ◌∷◌, map, All-implies, All-map, ◌==◌, if◌then◌else◌, arith,
  ok, refl, ap, sym, ◌∙◌, Bool-cases, ==→eq, subst,
}
use ledger_rs.Prelude.Int.{ℤ, pos, ◌+ℤ◌, ◌-ℤ◌, ltb_ℤ, int_laws}
use ledger_rs.Prelude.Text.{Text}
use ledger_rs.Schema.Rows.{
  AccountRecord, TransactionRecord, EntryRecord, Db, contains, find_account, ids, transaction_ids,
  posting, of_transaction, of_account, net,
}
use ledger_rs.Schema.Statements.{account_matches, insert_transaction}
use ledger_rs.Schema.Invariant.{Inv, Flight, IsBalanced}
use ledger_rs.Schema.Effects.{insert_transaction_ok, raise_balance, Funded}

-- The claimed key starts a flight with nothing moved.
pub claim-Flight :
    (t : TransactionRecord) (db db' : Db)
    → Inv db
    → insert_transaction t db ≡ ok db'
    → Flight t.id (λ _. pos 0) (pos 0) db'
claim-Flight t db db' v h =
    let (e, new_id, new_key) = insert_transaction_ok t db db' h in
    let w = v.well_formed in
    subst (Flight t.id (λ _. pos 0) (pos 0)) (sym e) (record {
      well_formed = record {
        funded = w.funded;
        account_ids = w.account_ids;
        transaction_ids_differ = (new_id, w.transaction_ids_differ);
        keys_differ = (new_key, w.keys_differ);
        parented = All-implies _ _ (λ x p. ground arith) db.entries w.parented;
        positive = w.positive;
        denominated = w.denominated;
      };
      cached = v.cached;
      balanced = (inl refl, All-implies _ _ (λ x b. inr b) db.transactions v.balanced);
      net_debt = v.zero_sum;
    })

-- The caches after `balance + z` on the account `j`.
abbrev pub ahead : ℕ → ℤ → (ℕ → ℤ) → ℕ → ℤ
ahead j z off id = if id == j then off id +ℤ z else off id

module _ (j : ℕ) (z : ℤ) where
  ids-raise : (rows : List AccountRecord) → ids (map (raise_balance j z) rows) ≡ ids rows
  ids-raise [] = refl
  ids-raise (a ∷ rows) = ground (arith, ids-raise rows)

  pub matches-raise :
      (c : Text) (id : ℕ) (rows : List AccountRecord)
      → account_matches c (find_account id (map (raise_balance j z) rows))
        ≡ account_matches c (find_account id rows)
  unfolding account_matches find_account
  matches-raise c id [] = refl
  matches-raise c id (a ∷ rows) = ground (arith, matches-raise c id rows)

  pub raise-Flight :
      (k : ℕ) (off : ℕ → ℤ) (debt : ℤ) (db : Db)
      → Flight k off debt db
      → Funded (map (raise_balance j z) db.accounts)
      → Flight k (ahead j z off) debt (record db { accounts = map (raise_balance j z) db.accounts })
  raise-Flight k off debt db f funds = record {
    well_formed = record {
      funded = funds;
      account_ids = rw (ids-raise db.accounts) f.well_formed.account_ids;
      transaction_ids_differ = f.well_formed.transaction_ids_differ;
      keys_differ = f.well_formed.keys_differ;
      parented = f.well_formed.parented;
      positive = f.well_formed.positive;
      denominated =
          All-implies _ _ (λ x p. matches-raise x.currency x.account_id db.accounts ∙ p) db.entries
            f.well_formed.denominated;
    };
    cached = All-map (raise_balance j z) _ _ (λ a p. raised a p) db.accounts f.cached;
    balanced = f.balanced;
    net_debt = f.net_debt;
  }
    where
      raised :
          (a : AccountRecord)
          → a.balance ≡ net (of_account a.id db.entries) +ℤ off a.id
          → (raise_balance j z a).balance
            ≡ net (of_account (raise_balance j z a).id db.entries)
              +ℤ ahead j z off (raise_balance j z a).id
      raised a p = elim (Bool-cases (a.id == j)) [
        | inl hit ↦ rw hit (rw hit (ap (λ x. x +ℤ z) p ∙ omega int_laws))
        | inr miss ↦ rw miss (rw miss p)
      ]

-- The caches after an entry of `z` on the account `j` is written.
abbrev pub behind : ℕ → ℤ → (ℕ → ℤ) → ℕ → ℤ
behind j z off id = if j == id then off id -ℤ z else off id

module _ (e : EntryRecord) where
  pub enter-Flight :
      (k : ℕ) (off : ℕ → ℤ) (debt : ℤ) (db : Db)
      → Flight k off debt db
      → e.transaction_id ≡ k
      → contains e.transaction_id (transaction_ids db.transactions) ≡ true
      → ltb_ℤ (pos 0) e.amount ≡ true
      → account_matches e.currency (find_account e.account_id db.accounts) ≡ true
      → Flight k
          (behind e.account_id (posting e) off)
          (posting e +ℤ debt)
          (record db { entries = e ∷ db.entries })
  enter-Flight k off debt db f own parent more matched = record {
    well_formed = record {
      funded = f.well_formed.funded;
      account_ids = f.well_formed.account_ids;
      transaction_ids_differ = f.well_formed.transaction_ids_differ;
      keys_differ = f.well_formed.keys_differ;
      parented = (parent, f.well_formed.parented);
      positive = (more, f.well_formed.positive);
      denominated = (matched, f.well_formed.denominated);
    };
    cached = All-implies _ _ (λ a p. entered a p) db.accounts f.cached;
    balanced = All-implies _ _ (λ t p. untouched t p) db.transactions f.balanced;
    net_debt = ap (λ x. posting e +ℤ x) f.net_debt;
  }
    where
      entered :
          (a : AccountRecord)
          → a.balance ≡ net (of_account a.id db.entries) +ℤ off a.id
          → a.balance
            ≡ net (of_account a.id (e ∷ db.entries)) +ℤ behind e.account_id (posting e) off a.id
      entered a p = elim (Bool-cases (e.account_id == a.id)) [
        | inl hit ↦ rw hit (p ∙ omega int_laws)
        | inr miss ↦ rw miss p
      ]

      untouched :
          (t : TransactionRecord)
          → (t.id ≡ k) ⊎ IsBalanced (of_transaction t.id db.entries)
          → (t.id ≡ k) ⊎ IsBalanced (of_transaction t.id (e ∷ db.entries))
      untouched t (inl same) = inl same
      untouched t (inr b) = elim (Bool-cases (e.transaction_id == t.id)) [
        | inl hit ↦ inl (sym (==→eq _ _ hit) ∙ own)
        | inr miss ↦ rw miss (inr b)
      ]
