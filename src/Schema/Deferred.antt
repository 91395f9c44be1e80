-- ===== src/Schema/Deferred.antt =====
-- `assert_transaction_balanced` of migrations/0001_init.sql, the constraint trigger that runs at
-- COMMIT for every entry that the database transaction inserted.
use ledger_rs.Prelude.{
  ℕ, not, List, [], ◌∷◌, map, length, ltb, ◌==◌, Result, ok, ◌>>◌, fail_if, if◌then◌else◌,
}
use ledger_rs.Prelude.Int.{pos, eqb_ℤ}
use ledger_rs.Prelude.Text.{Text, codes}
use ledger_rs.Error.{SqlxError, check_violation}
use ledger_rs.Schema.Rows.{EntryRecord, Db, contains_text, of_transaction, net}
use ledger_rs.Schema.Statements.{violation}

abbrev pub distinct : List Text → List Text
distinct [] = []
distinct (c ∷ cs) = if contains_text c cs then distinct cs else c ∷ distinct cs

-- `COUNT(DISTINCT currency)`
abbrev pub count_distinct : List Text → ℕ
count_distinct cs = length (distinct cs)

unfoldable pub assert_transaction_balanced : List EntryRecord → Result SqlxError (Unit {0})
assert_transaction_balanced es = do
  fail_if (ltb (length es) 2) (violation check_violation (codes "transaction_min_two_entries"))
  fail_if (not (count_distinct (map (λ e. e.currency) es) == 1))
      (violation check_violation (codes "transaction_single_currency"))
  fail_if (not (eqb_ℤ (net es) (pos 0))) (violation check_violation (codes "transaction_balanced"))
  ok tt

-- The trigger runs once for each inserted entry.
unfoldable pub run_deferred : List ℕ → Db → Result SqlxError (Unit {0})
run_deferred [] db = ok tt
run_deferred (k ∷ ks) db = do
  assert_transaction_balanced (of_transaction k db.entries)
  run_deferred ks db
