-- ===== src/Domain/Currency.antt =====
-- `Currency` and `MoneyError` of src/domain/money.rs: an ISO 4217 code, found in the table by binary search.
-- `binary_search` is the loop of the standard library's `slice::binary_search`.
pub mod Search
pub mod Table
use Prim.Native.Nat.{Ordering}
use ledger_rs.Prelude.{
  ℕ, zero, suc, ◌+◌, ◌-◌, ◌/◌, Bool, true, false, Option, none, some, List, [], ◌∷◌, ltb, length,
  get_elem?, Result, ok, err, if◌then◌else◌, ◌≡◌, ◌≢◌, ap,
}
use ledger_rs.Prelude.Text.{Text, text_eq, text_eq_refl, text_eq→eq, text_cmp}
use Table.{iso_4217}

pub record Currency : Type 0 where
  pub code : Text

-- `MoneyError` of the same file.
pub data MoneyError : Type 0 where
  too_many_decimal_places : ℕ → MoneyError
  magnitude_too_large : MoneyError
  currency_mismatch : Currency → Currency → MoneyError
  unknown_currency : Text → MoneyError

-- `as_str`, and `From<Currency> for String`
abbrev pub as_str : Currency → Text
as_str c = c.code

-- The derived `PartialEq`.
abbrev pub currency_eq : Currency → Currency → Bool
currency_eq a b = text_eq a.code b.code

pub currency_eq→eq : (a b : Currency) → currency_eq a b ≡ true → a ≡ b
currency_eq→eq a b h = ap (λ (t : Text). record { code = t }) (text_eq→eq a.code b.code h)

pub currency_eq_refl : (a : Currency) → currency_eq a a ≡ true
currency_eq_refl a = text_eq_refl a.code

pub currency_ne : (a b : Currency) → currency_eq a b ≡ false → a ≢ b
currency_ne a b h e = cc (currency_eq_refl a, ap (currency_eq a) e)

-- The entry at an index that is in range.
unfoldable pub entry_at : List Text → ℕ → Text
entry_at t i = elim (get_elem? t i) [ none ↦ [] | some x ↦ x ]

-- `while size > 1`: the wanted entry, if there is one, stays between `base` and `base + size`.
unfoldable pub search_loop : ℕ → List Text → Text → ℕ → ℕ → ℕ
unfolding entry_at
search_loop zero t x size base = base
search_loop (suc fuel) t x size base =
    let half = size / 2 in
    let mid = base + half in
    let next : ℕ = elim (text_cmp (entry_at t mid) x) [ Ordering.gt ↦ base | _ ↦ mid ] in
    let rest = search_loop fuel t x (size - half) next in if ltb 1 size then rest else base

-- The last comparison.
unfoldable pub accepted : Ordering → ℕ → Option ℕ
accepted Ordering.eq i = some i
accepted Ordering.lt i = none
accepted Ordering.gt i = none

-- `binary_search(..)`, with the index where the code stands.
unfoldable pub binary_search : List Text → Text → Option ℕ
binary_search [] x = none
binary_search (y ∷ t) x =
    let base = search_loop (length (y ∷ t)) (y ∷ t) x (length (y ∷ t)) 0 in
    accepted (text_cmp (entry_at (y ∷ t) base) x) base

-- `TryFrom<String>`, and `FromStr`.
unfoldable pub try_from : Text → Result MoneyError Currency
unfolding binary_search
try_from value = elim (binary_search iso_4217 value) [
  | some _ ↦ ok (record { code = value })
  | none ↦ err (unknown_currency value)
]
