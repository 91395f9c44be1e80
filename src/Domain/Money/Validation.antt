-- ===== src/Domain/Money/Validation.antt =====
-- What `Money::new` accepts: exactly the amounts that a NUMERIC(20, 8) column stores unchanged.
use native.Mathlib.Nat.{mul_comm}
use ledger_rs.Prelude.{
  ok_injective, subst, ℕ, suc, ◌+◌, ◌-◌, ◌^◌, ◌≤◌, ◌<◌, ◌≡◌, refl, sym, ap, ◌∙◌, inl, inr, true,
  false, not, ltb, Result, ok, err, panicked, arith, Bool-cases, ltb→lt,
}
use ledger_rs.Prelude.Int.{ℤ, times, magnitude}
use ledger_rs.Prelude.Powers.{pow_pos, pow_add, pow_split, times-times, times_cancel, trailing_zero}
use ledger_rs.Decimal.{Decimal, DecimalLaws, units, IsExact, one_unit}
use ledger_rs.Domain.Currency.{
  Currency, MoneyError, too_many_decimal_places, magnitude_too_large, currency_mismatch,
  unknown_currency,
}
use ledger_rs.Domain.Money.{Money, max_magnitude, max_scale, new_within, new}

-- 10 ^ 12 in smallest units.
abbrev pub max_units : ℕ
max_units = 100_000_000_000_000_000_000

module _ {D : Type 0} ⦃dec : Decimal D⦄ where
  -- At most eight places, and below 10 ^ 12 in size.
  pub record IsStorable (d : D) : Type 0 where
    pub exact : IsExact d
    pub bounded : magnitude (units d) < max_units

  abbrev pub IsValid : Money D → Type 0
  IsValid m = IsStorable m.amount

  -- The decimal is exactly `z` smallest units, whatever its scale.
  abbrev pub Represents : D → ℤ → Type 0
  Represents d z = times (dec.mantissa d) one_unit ≡ times z (10 ^ dec.scale d)

  -- What each result of `Money::new` tells about its argument.
  abbrev pub Verdict : D → Currency → Result MoneyError (Money D) → Type 0
  Verdict d c (ok m) = IsValid m × (m.currency ≡ c) × Represents d (units m.amount)
  Verdict d c (err (too_many_decimal_places s)) =
      (s ≡ dec.scale (dec.normalize d)) × ((z : ℤ) → ¬ Represents d z)
  Verdict d c (err magnitude_too_large) = (z : ℤ) × Represents d z × (max_units ≤ magnitude z)
  Verdict d c (err (currency_mismatch _ _)) = ⊥
  Verdict d c (err (unknown_currency _)) = ⊥
  Verdict d c panicked = ⊥

  -- A decimal with at most eight places represents its own number of units.
  pub exact-Represents : (d : D) → IsExact d → Represents d (units d)
  unfolding units
  exact-Represents d e = sym (
      times-times (dec.mantissa d) _ _
      ∙ ap (times (dec.mantissa d)) (mul_comm _ _ ∙ pow_split (dec.scale d) 8 e))

module _ {D : Type 0} ⦃dec : Decimal D⦄ (laws : DecimalLaws D) where
  -- The test on the magnitude is that of the stored integer.
  pub magnitude_test :
      (d : D)
      → IsExact d
      → not (dec.lt (dec.abs d) max_magnitude) ≡ not (ltb (magnitude (units d)) max_units)
  unfolding max_magnitude
  magnitude_test d e =
      rw
        (
          laws.lt-units (dec.abs d) (dec.from_i64 1_000_000_000_000) (rw (laws.scale-abs d) e)
              (rw (laws.scale-from_i64 1_000_000_000_000) (omega arith)),
          laws.units-abs d,
          laws.units-from_i64 1_000_000_000_000,
        )
        (ground arith)

  new_within_fits :
      (depth : ℕ) (d : D) (c : Currency)
      → IsStorable d
      → new_within (suc depth) d c ≡ ok (record { amount = d; currency = c })
  unfolding new_within
  new_within_fits depth d c e = ground (arith, magnitude_test d e.exact)

  -- A storable amount is accepted as it stands.
  pub new_storable :
      (d : D) (c : Currency) → IsStorable d → new d c ≡ ok (record { amount = d; currency = c })
  unfolding new
  new_storable d c e = new_within_fits 1 d c e

  new_within_large :
      (depth : ℕ) (d : D) (c : Currency)
      → IsExact d
      → max_units ≤ magnitude (units d)
      → new_within (suc depth) d c ≡ err magnitude_too_large
  unfolding new_within
  new_within_large depth d c e large = ground (arith, magnitude_test d e)

  pub new_large :
      (d : D) (c : Currency)
      → IsExact d
      → max_units ≤ magnitude (units d)
      → new d c ≡ err magnitude_too_large
  unfolding new
  new_large d c e large = new_within_large 1 d c e large

  new_within_exact :
      (depth : ℕ) (d : D) (c : Currency) → IsExact d → Verdict d c (new_within (suc depth) d c)
  new_within_exact depth d c e = elim (Bool-cases (ltb (magnitude (units d)) max_units)) [
    | inl fits ↦
        let storable : IsStorable d = record { exact = e; bounded = ltb→lt _ _ fits } in
        rw (new_within_fits depth d c storable) (storable, refl, exact-Represents d e)
    | inr large ↦
        let bound : max_units ≤ magnitude (units d) = ground arith in
        rw (new_within_large depth d c e bound) (units d, exact-Represents d e, bound)
  ]

  new_again :
      (d : D) (c : Currency)
      → ltb max_scale (dec.scale d) ≡ true
      → ltb max_scale (dec.scale (dec.normalize d)) ≡ false
      → new_within 2 d c ≡ new_within 1 (dec.normalize d) c
  unfolding new_within
  new_again d c p q = ground arith

  -- Stripping zeros keeps the number of units.
  normalize-Represents : (d : D) (z : ℤ) → Represents (dec.normalize d) z → Represents d z
  normalize-Represents d z h = times_cancel _ _ (10 ^ dec.scale (dec.normalize d)) (pow_pos _) (
      times-times (dec.mantissa d) _ _
      ∙ ap (times (dec.mantissa d)) (mul_comm _ _)
      ∙ sym (times-times (dec.mantissa d) _ _)
      ∙ ap (λ x. times x one_unit) (laws.normalize_value d)
      ∙ times-times _ _ _
      ∙ ap (times (dec.mantissa (dec.normalize d))) (mul_comm _ _)
      ∙ sym (times-times _ _ _)
      ∙ ap (λ x. times x (10 ^ dec.scale d)) h
      ∙ times-times _ _ _
      ∙ ap (times z) (mul_comm _ _)
      ∙ sym (times-times _ _ _))

  pub units-normalize : (d : D) → IsExact d → units (dec.normalize d) ≡ units d
  units-normalize d e =
      let e' : IsExact (dec.normalize d) = omega (arith, laws.normalize-scale d, e) in
      times_cancel _ _ (10 ^ dec.scale d) (pow_pos _) (
        sym (normalize-Represents d _ (exact-Represents (dec.normalize d) e'))
        ∙ exact-Represents d e)

  -- A decimal that represents a whole number of units loses all places beyond the eighth.
  normalize_too_fine :
      (d : D) (z : ℤ) (j : ℕ)
      → dec.scale (dec.normalize d) ≡ 8 + suc j
      → Represents d z
      → dec.mantissa (dec.normalize d) ≡ times z (10 ^ suc j)
  normalize_too_fine d z j fine h = times_cancel _ _ (10 ^ dec.scale d) (pow_pos _) (
      sym (laws.normalize_value d)
      ∙ ap (λ (n : ℕ). times (dec.mantissa d) (10 ^ n)) fine
      ∙ ap (times (dec.mantissa d)) (pow_add 8 (suc j))
      ∙ sym (times-times _ _ _)
      ∙ ap (λ x. times x (10 ^ suc j)) h
      ∙ times-times _ _ _
      ∙ ap (times z) (mul_comm _ _)
      ∙ sym (times-times _ _ _))

  too_fine : (d : D) → max_scale < dec.scale (dec.normalize d) → (z : ℤ) → ¬ Represents d z
  too_fine d fine z h = elim (laws.normalize_minimal d) [
    | inl none_left ↦ omega arith
    | inr digit ↦ digit (
        trailing_zero _ z _
          (normalize_too_fine d z (dec.scale (dec.normalize d) - 9) (omega arith) h))
  ]

  Verdict-normalize :
      (d : D) (c : Currency) (r : Result MoneyError (Money D))
      → IsExact (dec.normalize d)
      → Verdict (dec.normalize d) c r
      → Verdict d c r
  Verdict-normalize d c (ok m) e (v, same, h) = (v, same, normalize-Represents d _ h)
  Verdict-normalize d c (err (too_many_decimal_places s)) e (_, h) =
      absurd (h _ (exact-Represents (dec.normalize d) e))
  Verdict-normalize d c (err magnitude_too_large) e (z, h, large) =
      (z, normalize-Represents d z h, large)
  Verdict-normalize d c (err (currency_mismatch _ _)) e h = h
  Verdict-normalize d c (err (unknown_currency _)) e h = h
  Verdict-normalize d c panicked e h = h

  -- `Money::new` decides whether the ledger can store an amount exactly, and never runs out of
  -- stack. It accepts with the same value and currency, at most eight places and a size below
  -- 10 ^ 12; or no whole number of smallest units is the amount, and the error names the places
  -- left after normalizing; or the amount is such a number and its size is 10 ^ 12 or more.
  pub new-Verdict : (d : D) (c : Currency) → Verdict d c (new d c)
  unfolding new
  new-Verdict d c = elim (Bool-cases (ltb max_scale (dec.scale d))) [
    | inr exact ↦ new_within_exact 1 d c (ground arith)
    | inl fine ↦ elim (Bool-cases (ltb max_scale (dec.scale (dec.normalize d)))) [
      | inl finer ↦ unfold new_within in rw (fine, finer) (refl, too_fine d (ltb→lt _ _ finer))
      | inr stripped ↦ rw (new_again d c fine stripped) (
          Verdict-normalize d c _ (ground arith)
            (new_within_exact 0 (dec.normalize d) c (ground arith)))
    ]
  ]

  -- An exact amount that is accepted is kept as it is.
  pub new_exact :
      (a : D) (c : Currency) (m : Money D)
      → IsExact a
      → new a c ≡ ok m
      → (m ≡ record { amount = a; currency = c }) × IsValid m
  new_exact a c m e h = elim (Bool-cases (ltb (magnitude (units a)) max_units)) [
    | inl fits ↦
        let same =
          ok_injective
            (sym h ∙ new_storable a c (record { exact = e; bounded = ltb→lt _ _ fits })) in
        (same, (subst (Verdict a c) h (new-Verdict a c)).0)
    | inr large ↦
        let bound : max_units ≤ magnitude (units a) = ground arith in
        absurd (cc (h, new_large a c e bound))
  ]
