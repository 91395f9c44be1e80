-- ===== src/Domain/Money.antt =====
-- `Money` of src/domain/money.rs, over the decimals of the crate.
pub mod Validation
pub mod Arithmetic
use ledger_rs.Prelude.{
  ℕ, zero, suc, ◌<◌, Bool, not, List, [], ◌∷◌, ◌++◌, ltb, Result, ok, err, panicked, ◌>>=◌, ◌>>◌,
  fail_if, or_panic, if◌then◌else◌,
}
use ledger_rs.Prelude.Text.{Text}
use ledger_rs.Decimal.{Decimal}
use ledger_rs.Domain.Currency.{
  Currency, MoneyError, too_many_decimal_places, magnitude_too_large, currency_mismatch, as_str,
  currency_eq,
}

abbrev pub max_scale : ℕ
max_scale = 8

pub record Money (D : Type 0) : Type 0 where
  pub amount : D
  pub currency : Currency

module _ {D : Type 0} ⦃dec : Decimal D⦄ where
  -- 10 ^ MAX_INTEGER_DIGITS
  unfoldable pub max_magnitude : D
  max_magnitude = dec.from_i64 1_000_000_000_000

  -- `Money::new` calls itself on the normalized amount. The first argument is the depth of calls
  -- that the stack has room for.
  unfoldable pub new_within : ℕ → D → Currency → Result MoneyError (Money D)
  new_within zero amount currency = panicked
  new_within (suc depth) amount currency =
      let normalized = dec.normalize amount in
      let again = new_within depth normalized currency in
      if ltb max_scale (dec.scale amount)
      then (if ltb max_scale (dec.scale normalized)
          then err (too_many_decimal_places (dec.scale normalized))
          else again)
      else if not (dec.lt (dec.abs amount) max_magnitude)
      then err magnitude_too_large
      else ok (record { amount = amount; currency = currency })

  -- Room for two calls.
  unfoldable pub new : D → Currency → Result MoneyError (Money D)
  new amount currency = new_within 2 amount currency

  -- `Money::zero`
  pub zero_in : Currency → Money D
  zero_in currency = record { amount = dec.zero; currency = currency }

  unfoldable pub is_positive : Money D → Bool
  is_positive m = dec.lt dec.zero m.amount

  unfoldable pub is_negative : Money D → Bool
  is_negative m = dec.lt m.amount dec.zero

  require_same_currency : Money D → Money D → Result MoneyError (Unit {0})
  require_same_currency a b =
      fail_if (not (currency_eq a.currency b.currency)) (currency_mismatch a.currency b.currency)

  unfoldable pub checked_add : Money D → Money D → Result MoneyError (Money D)
  unfolding require_same_currency
  checked_add a b = do
    require_same_currency a b
    total ← or_panic (dec.add a.amount b.amount)
    new total a.currency

  unfoldable pub checked_sub : Money D → Money D → Result MoneyError (Money D)
  unfolding require_same_currency
  checked_sub a b = do
    require_same_currency a b
    total ← or_panic (dec.sub a.amount b.amount)
    new total a.currency

  unfoldable pub checked_lt : Money D → Money D → Result MoneyError Bool
  unfolding require_same_currency
  checked_lt a b = do require_same_currency a b; ok (dec.lt a.amount b.amount)

  -- The amount without trailing zeros, a space, and the code.
  unfoldable pub canonical : Money D → Text
  canonical m = dec.to_string (dec.normalize m.amount) ++ 32 ∷ as_str m.currency

  -- `Display`
  pub display : Money D → Text
  display m = dec.to_string m.amount ++ 32 ∷ as_str m.currency
