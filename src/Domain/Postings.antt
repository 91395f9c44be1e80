-- ===== src/Domain/Postings.antt =====
-- Postings and transactions of src/domain/mod.rs, and the check that a transaction balances.
-- UUIDs are numbers below 2 ^ 128, whose order is theirs; instants are numbers.
pub mod Balance
use ledger_rs.Prelude.{
  ℕ, Bool, true, false, not, ◌&&◌, Option, none, some, List, [], ◌∷◌, length, all, ltb,
}
use ledger_rs.Prelude.Text.{Text}
use ledger_rs.Decimal.{Decimal}
use ledger_rs.Domain.Currency.{Currency, currency_eq}
use ledger_rs.Domain.Money.{Money}

pub data Direction : Type 0 where
  debit credit : Direction

pub record Account (D : Type 0) : Type 0 where
  pub id : ℕ
  pub name : Text
  pub balance : Money D
  pub allows_negative_balance : Bool
  pub created_at : ℕ

pub record Entry (D : Type 0) : Type 0 where
  pub id : ℕ
  pub transaction_id : ℕ
  pub account_id : ℕ
  pub direction : Direction
  pub amount : Money D
  pub created_at : ℕ

pub record Transaction : Type 0 where
  pub id : ℕ
  pub idempotency_key : Text
  pub description : Text
  pub created_at : ℕ

pub record TransactionDetail (D : Type 0) : Type 0 where
  pub transaction : Transaction
  pub entries : List (Entry D)

module _ {D : Type 0} ⦃dec : Decimal D⦄ where
  -- `Direction::signed`
  unfoldable pub signed : Direction → D → D
  signed debit amount = amount
  signed credit amount = dec.negate amount

  unfoldable pub signed_amount : Entry D → D
  unfolding signed
  signed_amount e = signed e.direction e.amount.amount

  -- `.sum::<Decimal>()`, which adds from the left and panics on an overflow.
  unfoldable pub sum_entries : D → List (Entry D) → Option D
  sum_entries acc [] = some acc
  sum_entries acc (e ∷ es) = elim (dec.add acc (signed_amount e)) [
    | none ↦ none
    | some total ↦ sum_entries total es
  ]

  same_currency : List (Entry D) → Bool
  same_currency [] = true
  same_currency (e ∷ es) = all (λ x. currency_eq x.amount.currency e.amount.currency) (e ∷ es)

  is_zero : Option D → Option Bool
  is_zero none = none
  is_zero (some total) = some (dec.eq total dec.zero)

  -- `TransactionDetail::is_balanced`; `none` is a panic. The sum is taken only if the tests
  -- before it pass.
  unfoldable pub is_balanced : TransactionDetail D → Option Bool
  unfolding same_currency is_zero
  is_balanced d = elim (not (ltb (length d.entries) 2) && same_currency d.entries) [
    | false ↦ some false
    | true ↦ is_zero (sum_entries dec.zero d.entries)
  ]
