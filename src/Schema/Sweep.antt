-- ===== src/Schema/Sweep.antt =====
-- `account_balances_derived` and `ledger_check_invariants` of migrations/0001_init.sql: the seven
-- queries of the sweep, each on the tables as it finds them.
use ledger_rs.Prelude.{
  ℕ, Bool, not, ◌||◌, ◌&&◌, List, [], ◌∷◌, map, length, leb, ltb, ◌==◌, ◌++◌, Result, ok, ◌>>◌,
  fail_if,
}
use ledger_rs.Prelude.Int.{ℤ, pos, ltb_ℤ, eqb_ℤ, magnitude}
use ledger_rs.Prelude.Text.{Text, codes, text_eq}
use ledger_rs.Error.{SqlxError}
use ledger_rs.Schema.Rows.{
  AccountRecord, TransactionRecord, EntryRecord, Db, contains, of_transaction, of_account, net,
  keys,
}
use ledger_rs.Schema.Statements.{numeric_limit, numeric_overflow}
use ledger_rs.Schema.Deferred.{count_distinct}
use ledger_rs.Schema.Groups.{count_if, groups, repeated}

-- One row of the sweep. `is_ok` is the source's `ok`.
pub record InvariantCheck : Type 0 where
  pub invariant : Text
  pub is_ok : Bool
  pub detail : Text

-- What `format` prints for a number.
pub record Printer : Type 0 where
  pub numeric : ℤ → Text
  pub bigint : ℕ → Text

-- `transaction_id` of each entry, and the groups that they make.
abbrev pub parents : List EntryRecord → List ℕ
parents = map (λ e. e.transaction_id)

abbrev pub parent_groups : List EntryRecord → List ℕ
parent_groups es = groups (λ x y. x == y) (parents es)

abbrev pub unbalanced : List EntryRecord → Bool
unbalanced es = not (eqb_ℤ (net es) (pos 0))

abbrev pub misshapen : List EntryRecord → Bool
misshapen es = ltb (length es) 2 || not (count_distinct (map (λ e. e.currency) es) == 1)

abbrev pub childless : List EntryRecord → TransactionRecord → Bool
childless es t = not (contains t.id (parents es))

abbrev pub drifted : List EntryRecord → AccountRecord → Bool
drifted es a = not (eqb_ℤ a.balance (net (of_account a.id es)))

abbrev pub overdrawn : AccountRecord → Bool
overdrawn a = ltb_ℤ a.balance (pos 0) && not a.allows_negative_balance

-- The balances of `account_balances_derived` are cast to NUMERIC(20, 8).
unfoldable pub derive_balances : List EntryRecord → List AccountRecord → Result SqlxError (Unit {0})
derive_balances es [] = ok tt
derive_balances es (a ∷ rows) = do
  fail_if (leb numeric_limit (magnitude (net (of_account a.id es)))) numeric_overflow
  derive_balances es rows

module _ (print : Printer) where
  -- `COUNT(*) = 0`, with the count.
  abbrev pub tally : Text → Text → ℕ → InvariantCheck
  tally name what n = record { invariant = name; is_ok = n == 0; detail = print.bigint n ++ what }

  abbrev pub global_sum_zero : Db → InvariantCheck
  global_sum_zero db = record {
    invariant = codes "global_sum_zero";
    is_ok = eqb_ℤ (net db.entries) (pos 0);
    detail = codes "net = " ++ print.numeric (net db.entries);
  }

  abbrev pub per_transaction_balanced : Db → InvariantCheck
  per_transaction_balanced db =
      tally (codes "per_transaction_balanced") (codes " unbalanced transaction(s)")
        (count_if (λ k. unbalanced (of_transaction k db.entries)) (parent_groups db.entries))

  abbrev pub transaction_shape : Db → InvariantCheck
  transaction_shape db =
      tally (codes "transaction_shape") (codes " transaction(s) with <2 entries or mixed currency")
        (count_if (λ k. misshapen (of_transaction k db.entries)) (parent_groups db.entries))

  abbrev pub no_empty_transactions : Db → InvariantCheck
  no_empty_transactions db =
      tally (codes "no_empty_transactions") (codes " transaction(s) with no entries")
        (count_if (childless db.entries) db.transactions)

  abbrev pub materialized_balance_matches_entries : Db → InvariantCheck
  materialized_balance_matches_entries db =
      tally (codes "materialized_balance_matches_entries")
        (codes " account(s) drifted from the entry log") (count_if (drifted db.entries) db.accounts)

  abbrev pub no_unauthorized_negative_balance : Db → InvariantCheck
  no_unauthorized_negative_balance db =
      tally (codes "no_unauthorized_negative_balance")
        (codes " account(s) negative without allows_negative_balance")
        (count_if overdrawn db.accounts)

  abbrev pub idempotency_keys_unique : Db → InvariantCheck
  idempotency_keys_unique db =
      tally (codes "idempotency_keys_unique") (codes " duplicated idempotency key(s)")
        (count_if (repeated text_eq (keys db.transactions)) (groups text_eq (keys db.transactions)))

  abbrev pub queried : (Db → InvariantCheck) → Db → Result SqlxError InvariantCheck
  queried row db = ok (row db)

  -- The query that reads the derived balances.
  abbrev pub reconciled : Db → Result SqlxError InvariantCheck
  reconciled db = do
    derive_balances db.entries db.accounts
    ok (materialized_balance_matches_entries db)

  -- The queries in their order.
  abbrev pub ledger_check_invariants : List (Db → Result SqlxError InvariantCheck)
  ledger_check_invariants =
      queried global_sum_zero
      ∷ queried per_transaction_balanced
      ∷ queried transaction_shape
      ∷ queried no_empty_transactions
      ∷ reconciled
      ∷ queried no_unauthorized_negative_balance
      ∷ queried idempotency_keys_unique
      ∷ []
