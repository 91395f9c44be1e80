-- ===== src/Schema/Reconciliation.antt =====
-- What the seven queries of the sweep decide.
use ledger_rs.Prelude.{
  ℕ, ◌≤◌, ◌<◌, ◌≡◌, ◌↔◌, ◌∙◌, ◌&&◌, refl, All-map, ap, sym, ==_comm, subst, inl, inr, Bool, true,
  false, not, ◌||◌, List, [], ◌∷◌, All, All-implies, length, arith, ok, ◌==◌, ==→eq, ==_refl,
  Bool-cases,
}
use ledger_rs.Prelude.Int.{ℤ, pos, ◌+ℤ◌, ltb_ℤ, eqb_ℤ, eqb_ℤ→eq, magnitude, +ℤ_zero}
use ledger_rs.Prelude.Text.{Text, text_eq, text_eq_refl, text_eq→eq}
use ledger_rs.Schema.Rows.{
  AccountRecord, EntryRecord, Db, contains, contains_text, of_transaction, of_account, net, keys,
  transaction_ids,
}
use ledger_rs.Schema.Statements.{numeric_limit, balance_allowed}
use ledger_rs.Schema.Invariant.{IsBalanced, Cached, DistinctTexts}
use ledger_rs.Schema.Groups.{
  count_if, count_if-zero, has, groups, groups-All, repeated, repeated-AllDiffer, AllDiffer,
}
use ledger_rs.Schema.Sweep.{
  Printer, parents, parent_groups, unbalanced, misshapen, childless, drifted, overdrawn,
  derive_balances, global_sum_zero, per_transaction_balanced, transaction_shape,
  no_empty_transactions, materialized_balance_matches_entries, no_unauthorized_negative_balance,
  idempotency_keys_unique,
}

-- The invariants of README.md, as far as no constraint of a single row and no key states them.
pub record IsSound (db : Db) : Type 0 where
  pub zero_sum : net db.entries ≡ pos 0
  pub balanced : All (λ t. IsBalanced (of_transaction t.id db.entries)) db.transactions
  pub cached : Cached (λ _. pos 0) db.entries db.accounts
  pub funded : All (λ a. balance_allowed a ≡ true) db.accounts
  pub keys_differ : DistinctTexts (keys db.transactions)

-- Every entry has its transaction, as the foreign key has it.
abbrev pub Parented : Db → Type 0
Parented db =
    All (λ e. contains e.transaction_id (transaction_ids db.transactions) ≡ true) db.entries

-- The derived balances fit a column of type NUMERIC(20, 8).
abbrev pub FitsColumns : Db → Type 0
FitsColumns db = All (λ a. magnitude (net (of_account a.id db.entries)) < numeric_limit) db.accounts

pub derive_balances_ok :
    (es : List EntryRecord) (rows : List AccountRecord)
    → All (λ a. magnitude (net (of_account a.id es)) < numeric_limit) rows
    → derive_balances es rows ≡ ok tt
unfolding derive_balances
derive_balances_ok es [] h = refl
derive_balances_ok es (a ∷ rows) (p, h) = ground (arith, derive_balances_ok es rows h)

group_test :
    (p : ℕ → Bool) (es : List EntryRecord)
    → ((count_if p (parent_groups es) == 0) ≡ true) ↔ All (λ k. p k ≡ false) (parents es)
group_test p es =
    let (a, b) = count_if-zero p (parent_groups es) in
    let (c, d) = groups-All (λ x y. x == y) ==→eq ==_refl (λ k. p k ≡ false) (parents es) in
    (λ h. c (a h), λ h. b (d h))

IsBalanced-tests :
    (es : List EntryRecord) → IsBalanced es ↔ ((unbalanced es ≡ false) × (misshapen es ≡ false))
IsBalanced-tests es =
    (λ b. (ground arith, ground arith), λ (u, m). ground (arith, eqb_ℤ→eq (net es) (pos 0)))

contains-All : (P : ℕ → Type 0) (k : ℕ) (xs : List ℕ) → contains k xs ≡ true → All P xs → P k
contains-All P k [] h all = cc
contains-All P k (x ∷ xs) h (p, all) = elim (Bool-cases (k == x)) [
  | inl same ↦ subst P (sym (==→eq k x same)) p
  | inr other ↦ contains-All P k xs (rw other at h) all
]

childless_none :
    (k : ℕ) (es : List EntryRecord) → contains k (parents es) ≡ false → of_transaction k es ≡ []
childless_none k [] h = refl
childless_none k (e ∷ es) h = elim (Bool-cases (k == e.transaction_id)) [
  | inl same ↦ cc (rw same at h)
  | inr other ↦ rw (==_comm e.transaction_id k, other) (childless_none k es (rw other at h))
]

balanced_child :
    (k : ℕ) (es : List EntryRecord)
    → IsBalanced (of_transaction k es)
    → not (contains k (parents es)) ≡ false
balanced_child k es b = elim (Bool-cases (contains k (parents es))) [
  | inl there ↦ rw there refl
  | inr missing ↦
      absurd (
        omega
          (arith, subst (λ rows. 2 ≤ length rows) (childless_none k es missing) (b.two_entries)))
]

negation_false : (b : Bool) → not b ≡ false → b ≡ true
negation_false true h = refl
negation_false false h = cc

-- The three queries on transactions pass together exactly where every transaction is balanced.
all-IsBalanced_tests :
    (db : Db)
    → Parented db
    → All (λ t. IsBalanced (of_transaction t.id db.entries)) db.transactions ↔ (
        All (λ k. unbalanced (of_transaction k db.entries) ≡ false) (parents db.entries)
        × All (λ k. misshapen (of_transaction k db.entries) ≡ false) (parents db.entries)
        × All (λ t. childless db.entries t ≡ false) db.transactions)
all-IsBalanced_tests db fk = (
  λ h.
      let each = of_entries h in
      (
        All-implies _ _ (λ k b. ((IsBalanced-tests _).0 b).0) (parents db.entries) each,
        All-implies _ _ (λ k b. ((IsBalanced-tests _).0 b).1) (parents db.entries) each,
        All-implies _ _ (λ t b. balanced_child t.id db.entries b) db.transactions h,
      ),
  λ (u, m, c).
      All-implies _ _
        (λ t q. (IsBalanced-tests _).1 (
          contains-All _ t.id (parents db.entries) (negation_false _ q) u,
          contains-All _ t.id (parents db.entries) (negation_false _ q) m,
        ))
        db.transactions c,
)
  where
    of_entries :
        All (λ t. IsBalanced (of_transaction t.id db.entries)) db.transactions
        → All (λ k. IsBalanced (of_transaction k db.entries)) (parents db.entries)
    of_entries h =
        All-map (λ e. e.transaction_id) _ _
          (λ e q.
            contains-All _ e.transaction_id (transaction_ids db.transactions) q
              (All-map (λ t. t.id) _ _ (λ t b. b) db.transactions h))
          db.entries fk

contains_text-has : (k : Text) (ks : List Text) → contains_text k ks ≡ has text_eq k ks
contains_text-has k [] = refl
contains_text-has k (x ∷ ks) = ap (λ b. text_eq k x || b) (contains_text-has k ks)

DistinctTexts-AllDiffer : (ks : List Text) → AllDiffer text_eq ks ↔ DistinctTexts ks
DistinctTexts-AllDiffer [] = (λ _. tt, λ _. tt)
DistinctTexts-AllDiffer (k ∷ ks) = (
  λ (p, q). (rw (contains_text-has k ks) p, (DistinctTexts-AllDiffer ks).0 q),
  λ (p, q). (rw (← contains_text-has k ks) p, (DistinctTexts-AllDiffer ks).1 q),
)

keys_test :
    (ks : List Text)
    → ((count_if (repeated text_eq ks) (groups text_eq ks) == 0) ≡ true) ↔ DistinctTexts ks
keys_test ks =
    let (a, b) = count_if-zero (repeated text_eq ks) (groups text_eq ks) in
    let (c, d) =
      groups-All text_eq text_eq→eq text_eq_refl (λ k. repeated text_eq ks k ≡ false) ks in
    let (e, f) = repeated-AllDiffer text_eq text_eq→eq text_eq_refl ks in
    let (g, h) = DistinctTexts-AllDiffer ks in (λ q. g (e (c (a q))), λ q. b (d (f (h q))))

eqb_ℤ_refl : (z : ℤ) → eqb_ℤ z z ≡ true
eqb_ℤ_refl z = ==_refl _

drifted_test :
    (es : List EntryRecord) (a : AccountRecord)
    → (drifted es a ≡ false) ↔ (a.balance ≡ net (of_account a.id es) +ℤ pos 0)
drifted_test es a = (
  λ h. rw (+ℤ_zero (net (of_account a.id es))) (eqb_ℤ→eq _ _ (negation_false _ h)),
  λ h.
      let same : a.balance ≡ net (of_account a.id es) = h ∙ +ℤ_zero _ in
      rw (same, eqb_ℤ_refl (net (of_account a.id es))) refl,
)

overdrawn_test : (a : AccountRecord) → (overdrawn a ≡ false) ↔ (balance_allowed a ≡ true)
overdrawn_test a = tests (ltb_ℤ a.balance (pos 0)) (a.allows_negative_balance)
  where
    tests : (low may : Bool) → ((low && not may) ≡ false) ↔ ((may || not low) ≡ true)
    tests true true = (λ _. refl, λ _. refl)
    tests true false = (λ h. cc, λ h. cc)
    tests false true = (λ _. refl, λ _. refl)
    tests false false = (λ _. refl, λ _. refl)

each_test {ℓ κ} :
    {A : Type ℓ} {P : A → Type κ} (p : A → Bool) (xs : List A)
    → ((x : A) → (p x ≡ false) ↔ P x)
    → ((count_if p xs == 0) ≡ true) ↔ All P xs
each_test p xs both =
    let (a, b) = count_if-zero p xs in
    (
      λ h. All-implies _ _ (λ x. (both x).0) xs (a h),
      λ h. b (All-implies _ _ (λ x. (both x).1) xs h),
    )

module _ (print : Printer) (db : Db) where
  -- The results of the seven queries.
  abbrev pub verdicts : List Bool
  verdicts =
      (global_sum_zero print db).is_ok
      ∷ (per_transaction_balanced print db).is_ok
      ∷ (transaction_shape print db).is_ok
      ∷ (no_empty_transactions print db).is_ok
      ∷ (materialized_balance_matches_entries print db).is_ok
      ∷ (no_unauthorized_negative_balance print db).is_ok
      ∷ (idempotency_keys_unique print db).is_ok
      ∷ []

  pub verdicts_decide : Parented db → All (λ b. b ≡ true) verdicts ↔ IsSound db
  verdicts_decide fk =
      let unbalanced_test = group_test (λ k. unbalanced (of_transaction k db.entries)) db.entries in
      let misshapen_test = group_test (λ k. misshapen (of_transaction k db.entries)) db.entries in
      let childless_test = count_if-zero (childless db.entries) db.transactions in
      let cached_test = each_test (drifted db.entries) db.accounts (drifted_test db.entries) in
      let funded_test = each_test overdrawn db.accounts overdrawn_test in
      let (fine, tested) = all-IsBalanced_tests db fk in
      (
        λ (z, (u, (m, (c, (d, (f, (k, _))))))). record {
          zero_sum = eqb_ℤ→eq _ _ z;
          balanced = tested (unbalanced_test.0 u, misshapen_test.0 m, childless_test.0 c);
          cached = cached_test.0 d;
          funded = funded_test.0 f;
          keys_differ = (keys_test (keys db.transactions)).0 k;
        },
        λ s.
            let (u, m, c) = fine (s.balanced) in
            (
              rw (s.zero_sum) refl,
              (
                unbalanced_test.1 u,
                (
                  misshapen_test.1 m,
                  (
                    childless_test.1 c,
                    (
                      cached_test.1 (s.cached),
                      (funded_test.1 (s.funded), ((keys_test _).1 (s.keys_differ), tt)),
                    ),
                  ),
                ),
              ),
            ),
      )
