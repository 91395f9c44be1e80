-- ===== src/Decimal.antt =====
-- The crate `rust_decimal`, which is not part of the repository: the operations that the service
-- calls, as an interface, and what the service relies on, as named laws. The model never looks
-- inside a decimal; `Decimal.Fixed` is one implementation that meets the laws.
pub mod Fixed
use ledger_rs.Prelude.{ℕ, ◌+◌, ◌-◌, ◌*◌, ◌%◌, ◌^◌, ◌≤◌, ◌≡◌, ◌≢◌, ◌⊎◌, Bool, Option, some, All}
use ledger_rs.Prelude.Int.{ℤ, pos, neg, times, magnitude, ltb_ℤ, eqb_ℤ, ◌+ℤ◌, ◌-ℤ◌}
use ledger_rs.Prelude.Text.{Text}

-- The methods and operators of `Decimal`. A decimal is `mantissa / 10 ^ scale`. The operators `+`
-- and `-` panic where they give `none`. `stored` is what a column of type NUMERIC(20, 8) holds
-- after an assignment, in units of 10⁻⁸, `stored_sum` that of `column + $1`, and `fetched` the
-- decimal that the driver hands back for a stored value.
pub record Decimal (D : Type 0) : Type 0 where
  pub mantissa : D → ℤ
  pub scale : D → ℕ
  pub normalize : D → D
  pub abs : D → D
  pub negate : D → D
  pub add : D → D → Option D
  pub sub : D → D → Option D
  pub lt : D → D → Bool
  pub eq : D → D → Bool
  pub zero : D
  pub from_i64 : ℕ → D
  pub to_string : D → Text
  pub stored : D → ℤ
  pub stored_sum : ℤ → D → ℤ
  pub fetched : ℤ → D

-- The smallest unit that the ledger stores is 10⁻⁸.
abbrev pub storage_scale : ℕ
storage_scale = 8

-- The number of smallest units in 1.
abbrev pub one_unit : ℕ
one_unit = 100_000_000

module _ {D : Type 0} ⦃dec : Decimal D⦄ where
  -- The amount in smallest units, for a decimal with at most eight places.
  unfoldable pub units : D → ℤ
  units d = times (dec.mantissa d) (10 ^ (storage_scale - dec.scale d))

  abbrev pub IsExact : D → Type 0
  IsExact d = dec.scale d ≤ storage_scale

-- Sums and differences up to this many smallest units (10¹⁸) fit in the 96 bits of a mantissa.
abbrev pub safe_units : ℕ
safe_units = 10 ^ 26

-- The documented behaviour, for decimals with at most eight places where that is all the service
-- needs: exact arithmetic within the mantissa, numeric comparison, `normalize` strips trailing
-- zeros, and NUMERIC(20, 8) holds eight places exactly.
pub record DecimalLaws (D : Type 0) ⦃dec : Decimal D⦄ : Type 0 where
  pub scale-zero : dec.scale dec.zero ≡ 0
  pub units-zero : units dec.zero ≡ pos 0
  pub scale-from_i64 : (n : ℕ) → dec.scale (dec.from_i64 n) ≡ 0
  pub units-from_i64 : (n : ℕ) → units (dec.from_i64 n) ≡ pos (n * one_unit)
  pub scale-abs : (a : D) → dec.scale (dec.abs a) ≡ dec.scale a
  pub units-abs : (a : D) → units (dec.abs a) ≡ pos (magnitude (units a))
  pub scale-negate : (a : D) → dec.scale (dec.negate a) ≡ dec.scale a
  pub units-negate : (a : D) → units (dec.negate a) ≡ neg (units a)
  pub lt-units : (a b : D) → IsExact a → IsExact b → dec.lt a b ≡ ltb_ℤ (units a) (units b)
  pub eq-units : (a b : D) → IsExact a → IsExact b → dec.eq a b ≡ eqb_ℤ (units a) (units b)
  pub add_exact :
      (a b : D)
      → IsExact a
      → IsExact b
      → magnitude (units a) ≤ safe_units
      → magnitude (units b) ≤ safe_units
      → (c : D) × (dec.add a b ≡ some c) × IsExact c × (units c ≡ units a +ℤ units b)
  pub sub_exact :
      (a b : D)
      → IsExact a
      → IsExact b
      → magnitude (units a) ≤ safe_units
      → magnitude (units b) ≤ safe_units
      → (c : D) × (dec.sub a b ≡ some c) × IsExact c × (units c ≡ units a -ℤ units b)
  pub normalize-scale : (a : D) → dec.scale (dec.normalize a) ≤ dec.scale a
  pub normalize_value :
      (a : D)
      → times (dec.mantissa a) (10 ^ dec.scale (dec.normalize a))
        ≡ times (dec.mantissa (dec.normalize a)) (10 ^ dec.scale a)
  pub normalize_minimal :
      (a : D)
      → (dec.scale (dec.normalize a) ≡ 0) ⊎ (magnitude (dec.mantissa (dec.normalize a)) % 10 ≢ 0)
  pub normalize_unique :
      (a b : D) → IsExact a → IsExact b → units a ≡ units b → dec.normalize a ≡ dec.normalize b
  pub stored_exact : (a : D) → IsExact a → dec.stored a ≡ units a
  pub stored_sum_exact : (z : ℤ) (a : D) → IsExact a → dec.stored_sum z a ≡ z +ℤ units a
  pub scale-fetched : (z : ℤ) → dec.scale (dec.fetched z) ≤ storage_scale
  pub units-fetched : (z : ℤ) → units (dec.fetched z) ≡ z

-- What the request fingerprint relies on in the printed form: it has no line feed and no space,
-- and two
-- decimals of at most eight places that print alike have one value.
pub record PrintLaws (D : Type 0) ⦃dec : Decimal D⦄ : Type 0 where
  pub to_string_plain : (a : D) → All (λ c. (c ≢ 10) × (c ≢ 32)) (dec.to_string a)
  pub to_string_injective :
      (a b : D) → IsExact a → IsExact b → dec.to_string a ≡ dec.to_string b → units a ≡ units b
