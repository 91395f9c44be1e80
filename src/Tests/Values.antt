-- ===== src/Tests/Values.antt =====
-- Amounts, currencies, postings and errors at concrete inputs.
use ledger_rs.Prelude.{
  ℕ, ◌<◌, ◌≡◌, ◌≢◌, ◌↔◌, refl, Bool, true, some, [], All, ok, err, arith, if◌then◌else◌,
}
use ledger_rs.Prelude.Int.{times, ◌+ℤ◌, ◌-ℤ◌}
use ledger_rs.Prelude.Text.{Text, codes}
use ledger_rs.Decimal.{units}
use ledger_rs.Decimal.Fixed.{Fixed, fixed}
use ledger_rs.Decimal.Fixed.Laws.{fixed_laws}
use ledger_rs.Domain.Currency.{try_from}
use ledger_rs.Domain.Money.{new, checked_add, checked_sub}
use ledger_rs.Domain.Money.Validation.{IsValid, Verdict, new-Verdict}
use ledger_rs.Domain.Money.Arithmetic.{IsExactly, checked_add-IsExactly, checked_sub-IsExactly}
use ledger_rs.Domain.Postings.{Entry, is_balanced}
use ledger_rs.Domain.Postings.Balance.{IsDoubleEntry, is_balanced_decides}
use ledger_rs.Domain.Currency.{unknown_currency}
use ledger_rs.Domain.Currency.Table.{iso_4217}
use ledger_rs.Domain.Currency.Search.{is_listed, try_from-listed}
use ledger_rs.Error.{SqlxError, db_err, other_error, LedgerError, database, into_response}
use ledger_rs.Error.Taxonomy.{into_response_hides}
use ledger_rs.Tests.Sample.{usd, cents, dollars, rent}

new-Verdict_example : Verdict (cents 2_500) usd (new (cents 2_500) usd)
new-Verdict_example = new-Verdict fixed_laws (cents 2_500) usd

dollars-IsValid : (n : ℕ) → n < 1_000_000 → IsValid (dollars n)
unfolding units times
dollars-IsValid n h = record { exact = omega arith; bounded = ground arith }

-- Two amounts, 12.34 and 0.66.
checked_add-IsExactly_example :
    IsExactly
      (dollars 1_234)
      (dollars 66)
      (units (cents 1_234) +ℤ units (cents 66))
      (checked_add (dollars 1_234) (dollars 66))
checked_add-IsExactly_example =
    checked_add-IsExactly fixed_laws (dollars 1_234) (dollars 66)
      (dollars-IsValid 1_234 (omega arith)) (dollars-IsValid 66 (omega arith))

checked_sub-IsExactly_example :
    IsExactly
      (dollars 1_234)
      (dollars 66)
      (units (cents 1_234) -ℤ units (cents 66))
      (checked_sub (dollars 1_234) (dollars 66))
checked_sub-IsExactly_example =
    checked_sub-IsExactly fixed_laws (dollars 1_234) (dollars 66)
      (dollars-IsValid 1_234 (omega arith)) (dollars-IsValid 66 (omega arith))

rent-IsValid : All (λ (e : Entry Fixed). IsValid e.amount) rent.entries
unfolding units times
rent-IsValid = (
  record { exact = omega arith; bounded = omega arith },
  (record { exact = omega arith; bounded = omega arith }, tt),
)

is_balanced_decides_example :
    (b : Bool) × (is_balanced rent ≡ some b) × ((b ≡ true) ↔ IsDoubleEntry rent)
is_balanced_decides_example = is_balanced_decides fixed_laws rent rent-IsValid (omega arith)

-- The code of the table that stands last, and one that is none.
try_from-listed_example : try_from (codes "ZWL") ≡ (
    if is_listed (codes "ZWL") iso_4217
    then ok (record { code = codes "ZWL" })
    else err (unknown_currency (codes "ZWL")))
try_from-listed_example = try_from-listed (codes "ZWL")

-- One way to print errors tells the SQLSTATE, the other does not.
abbrev loud : LedgerError → Text
loud (database (db_err (some sqlstate) _)) = sqlstate
loud e = []

into_response_hides_example :
    (into_response loud (database other_error) ≡ into_response (λ _. []) (database other_error))
    × ((x y : SqlxError)
        → (into_response loud (database x) ≡ into_response loud (database y))
          × ((into_response loud (database x)).response_status ≡ 500))
into_response_hides_example = into_response_hides loud (λ _. []) quiet (database other_error)
  where
    quiet : (e : LedgerError) → ((x : SqlxError) → e ≢ database x) → loud e ≡ []
    quiet (database x) h = absurd (h x refl)
    quiet e h = refl
