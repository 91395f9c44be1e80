-- ===== src/Schema/Opening.antt =====
-- A new account leaves the ledger in order.
use ledger_rs.Prelude.{
  ℕ, ◌≡◌, ◌≢◌, refl, sym, subst, ◌∙◌, inl, inr, true, false, none, List, [], ◌∷◌, ok, All,
  All-implies, arith, ◌==◌, ==→eq, Bool-cases,
}
use ledger_rs.Prelude.Int.{pos, int_laws}
use ledger_rs.Prelude.Text.{Text}
use ledger_rs.Schema.Rows.{AccountRecord, EntryRecord, Db, contains, find_account, ids, of_account}
use ledger_rs.Schema.Statements.{balance_allowed, account_matches, insert_account}
use ledger_rs.Schema.Invariant.{Inv}

pub insert_account_ok :
    (a : AccountRecord) (db db' : Db)
    → insert_account a db ≡ ok db'
    → (db' ≡ record db { accounts = a ∷ db.accounts })
      × (balance_allowed a ≡ true)
      × (contains a.id (ids db.accounts) ≡ false)
unfolding insert_account
insert_account_ok a db db' h = ground arith

find_account-contains :
    (k : ℕ) (rows : List AccountRecord) → contains k (ids rows) ≡ false → find_account k rows ≡ none
unfolding find_account
find_account-contains k [] h = refl
find_account-contains k (a ∷ rows) h = ground (arith, find_account-contains k rows)

-- The entries of a ledger have accounts that are there.
module _ (a : AccountRecord) (rows : List AccountRecord)
    (fresh : contains a.id (ids rows) ≡ false) where
  unmatched : (c : Text) → account_matches c (find_account a.id rows) ≢ true
  unfolding account_matches
  unmatched c h = cc (rw (find_account-contains a.id rows fresh) at h)

  account_matches-new :
      (c : Text) (k : ℕ)
      → account_matches c (find_account k rows) ≡ true
      → account_matches c (find_account k (a ∷ rows)) ≡ true
  unfolding find_account
  account_matches-new c k h = elim (Bool-cases (a.id == k)) [
    | inl same ↦ absurd (unmatched c (rw (==→eq a.id k same) h))
    | inr other ↦ rw other h
  ]

  of_account-new :
      (es : List EntryRecord)
      → All (λ e. account_matches e.currency (find_account e.account_id rows) ≡ true) es
      → of_account a.id es ≡ []
  of_account-new [] h = refl
  of_account-new (e ∷ es) (p, h) = elim (Bool-cases (e.account_id == a.id)) [
    | inl same ↦ absurd (
        unmatched e.currency (
          subst (λ k. account_matches e.currency (find_account k rows) ≡ true)
            (==→eq e.account_id a.id same) p))
    | inr other ↦ rw other (of_account-new es h)
  ]

-- An account that opens with nothing keeps the invariants.
pub insert_account-Inv :
    (a : AccountRecord) (db db' : Db)
    → a.balance ≡ pos 0
    → insert_account a db ≡ ok db'
    → Inv db
    → Inv db'
insert_account-Inv a db db' empty h v =
    let (same, allowed, fresh) = insert_account_ok a db db' h in
    let form = v.well_formed in
    subst Inv (sym same) (record {
      well_formed = record {
        funded = (allowed, form.funded);
        account_ids = (fresh, form.account_ids);
        transaction_ids_differ = form.transaction_ids_differ;
        keys_differ = form.keys_differ;
        parented = form.parented;
        positive = form.positive;
        denominated =
            All-implies _ _ (λ e. account_matches-new a db.accounts fresh e.currency e.account_id)
              db.entries form.denominated;
      };
      cached = (
        empty
            ∙ rw (of_account-new a db.accounts fresh db.entries form.denominated) (omega int_laws),
        v.cached,
      );
      balanced = v.balanced;
      zero_sum = v.zero_sum;
    })
