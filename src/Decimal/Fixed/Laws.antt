-- ===== src/Decimal/Fixed/Laws.antt =====
-- The laws of the interface for fixed decimals.
use native.Mathlib.Nat.{mul_comm, pow-suc}
use ledger_rs.Prelude.{
  ℕ, zero, suc, ◌+◌, ◌-◌, ◌%◌, ◌^◌, ◌≤◌, ◌<◌, ◌≡◌, ◌≢◌, ◌⊎◌, inl, inr, refl, sym, ap, ◌∙◌,
  Bool-cases, arith, ◌==◌,
}
use ledger_rs.Prelude.Int.{ℤ, pos, negsuc, magnitude, neg, times, neg_parts, eq_of_parts}
use ledger_rs.Prelude.Powers.{
  pow_pos, pow_add, pow_split, times_parts, times-times, times_cancel, times_one, trailing_zero,
  magnitude-times,
}
use ledger_rs.Decimal.{DecimalLaws, PrintLaws, units}
use ledger_rs.Decimal.Fixed.{Fixed, fixed, strip, tenth, aligned}

strip-scale : (m : ℤ) (s : ℕ) → (strip m s).scale ≤ s
unfolding strip
strip-scale m zero = omega arith
strip-scale m (suc s) = ground (arith, strip-scale (tenth m) s)

times-tenth : (m : ℤ) → magnitude m % 10 ≡ 0 → times (tenth m) 10 ≡ m
unfolding tenth times
times-tenth (pos n) h = ground arith
times-tenth (negsuc n) h = ground arith

strip_value :
    (m : ℤ) (s : ℕ) → times m (10 ^ (strip m s).scale) ≡ times (strip m s).mantissa (10 ^ s)
unfolding strip
strip_value m zero = refl
strip_value m (suc s) = elim (Bool-cases (magnitude m % 10 == 0)) [
  | inl more ↦ rw more (digit m s (ground arith) (strip_value (tenth m) s))
  | inr done ↦ rw done
]
  where
    digit :
        (m : ℤ) (s : ℕ)
        → magnitude m % 10 ≡ 0
        → times (tenth m) (10 ^ (strip (tenth m) s).scale)
          ≡ times (strip (tenth m) s).mantissa (10 ^ s)
        → times m (10 ^ (strip (tenth m) s).scale) ≡ times (strip (tenth m) s).mantissa (10 ^ suc s)
    digit m s zero_digit ih =
        ap (λ x. times x (10 ^ (strip (tenth m) s).scale)) (sym (times-tenth m zero_digit))
        ∙ times-times (tenth m) 10 _
        ∙ ap (times (tenth m)) (mul_comm 10 _)
        ∙ sym (times-times (tenth m) _ 10)
        ∙ ap (λ x. times x 10) ih
        ∙ times-times _ _ 10
        ∙ ap (times (strip (tenth m) s).mantissa) (sym (pow-suc 10 s))

strip_minimal :
    (m : ℤ) (s : ℕ) → ((strip m s).scale ≡ 0) ⊎ (magnitude (strip m s).mantissa % 10 ≢ 0)
unfolding strip
strip_minimal m zero = inl refl
strip_minimal m (suc s) = ground (arith, strip_minimal (tenth m) s)

-- A minimal decimal is not shorter than an equal one.
not_shorter :
    (a b : Fixed)
    → (b.scale ≡ 0) ⊎ (magnitude b.mantissa % 10 ≢ 0)
    → b.scale ≤ 8
    → aligned a ≡ aligned b
    → ¬ (a.scale < b.scale)
not_shorter a b minimal h e lt = elim minimal [
  | inl empty ↦ omega arith
  | inr digit ↦ digit (trailing_zero b.mantissa a.mantissa (b.scale - a.scale - 1) longer)
]
  where
    apart : 8 - a.scale ≡ suc (b.scale - a.scale - 1) + (8 - b.scale)
    apart = omega arith

    longer : b.mantissa ≡ times a.mantissa (10 ^ suc (b.scale - a.scale - 1))
    longer = times_cancel _ _ (10 ^ (8 - b.scale)) (pow_pos _) (
        sym e
        ∙ ap (λ (n : ℕ). times a.mantissa (10 ^ n)) apart
        ∙ ap (times a.mantissa) (pow_add _ (8 - b.scale))
        ∙ sym (times-times _ _ _))

-- Equal minimal decimals are the same.
minimal_unique :
    (a b : Fixed)
    → (a.scale ≡ 0) ⊎ (magnitude a.mantissa % 10 ≢ 0)
    → (b.scale ≡ 0) ⊎ (magnitude b.mantissa % 10 ≢ 0)
    → a.scale ≤ 8
    → b.scale ≤ 8
    → aligned a ≡ aligned b
    → a ≡ b
minimal_unique a b p q ha hb e = same_fields a b scales (
    times_cancel _ _ (10 ^ (8 - a.scale)) (pow_pos _)
      (e ∙ ap (λ (n : ℕ). times b.mantissa (10 ^ (8 - n))) (sym scales)))
  where
    scales : a.scale ≡ b.scale
    scales = omega (arith, not_shorter a b q hb e, not_shorter b a p ha (sym e))

    same_fields : (a b : Fixed) → a.scale ≡ b.scale → a.mantissa ≡ b.mantissa → a ≡ b
    same_fields a b s m = λ i. record { mantissa = m i; scale = s i }

-- Stripping zeros keeps the value.
aligned-strip : (a : Fixed) → a.scale ≤ 8 → aligned (strip a.mantissa a.scale) ≡ aligned a
aligned-strip a h = times_cancel _ _ (10 ^ a.scale) (pow_pos _) (
    times-times n.mantissa _ _
    ∙ ap (times n.mantissa) (mul_comm _ _)
    ∙ sym (times-times n.mantissa _ _)
    ∙ ap (λ x. times x (10 ^ (8 - n.scale))) (sym (strip_value a.mantissa a.scale))
    ∙ times-times a.mantissa _ _
    ∙ ap (times a.mantissa)
        (pow_split n.scale 8 shorter ∙ sym (pow_split a.scale 8 h) ∙ mul_comm _ _)
    ∙ sym (times-times _ _ _))
  where
    n : Fixed
    n = strip a.mantissa a.scale

    shorter : n.scale ≤ 8
    shorter = omega (arith, strip-scale a.mantissa a.scale)

times-neg : (a : ℤ) (n : ℕ) → times (neg a) n ≡ neg (times a n)
times-neg a n = eq_of_parts _ _ (
    rw
      (
        (times_parts (neg a) n).0,
        (times_parts (neg a) n).1,
        (neg_parts (times a n)).0,
        (neg_parts (times a n)).1,
        (neg_parts a).0,
        (neg_parts a).1,
        (times_parts a n).0,
        (times_parts a n).1,
      )
      (omega arith))

times-abs : (a : ℤ) (n : ℕ) → times (pos (magnitude a)) n ≡ pos (magnitude (times a n))
times-abs a n = eq_of_parts _ _ (
    rw
      (
        (times_parts (pos (magnitude a)) n).0,
        (times_parts (pos (magnitude a)) n).1,
        magnitude-times a n,
      )
      (omega arith))

-- Fixed decimals obey the laws.
pub fixed_laws : DecimalLaws Fixed
unfolding units
fixed_laws = record {
  scale-zero = refl;
  units-zero = unfold times in refl;
  scale-from_i64 = λ n. refl;
  units-from_i64 = λ n. eq_of_parts _ _ (omega (arith, times_parts (pos n) 100_000_000));
  scale-abs = λ a. refl;
  units-abs = λ a. times-abs a.mantissa _;
  scale-negate = λ a. refl;
  units-negate = λ a. times-neg a.mantissa _;
  lt-units = λ a b p q. refl;
  eq-units = λ a b p q. refl;
  add_exact = λ a b p q r s. (_, refl, omega arith, times_one _);
  sub_exact = λ a b p q r s. (_, refl, omega arith, times_one _);
  normalize-scale = λ a. strip-scale a.mantissa a.scale;
  normalize_value = λ a. strip_value a.mantissa a.scale;
  normalize_minimal = λ a. strip_minimal a.mantissa a.scale;
  normalize_unique = λ a b p q e.
      minimal_unique (strip a.mantissa a.scale) (strip b.mantissa b.scale)
        (strip_minimal a.mantissa a.scale) (strip_minimal b.mantissa b.scale)
        (omega (arith, strip-scale a.mantissa a.scale))
        (omega (arith, strip-scale b.mantissa b.scale))
        (aligned-strip a p ∙ e ∙ sym (aligned-strip b q));
  stored_exact = λ a p. refl;
  stored_sum_exact = λ z a p. refl;
  scale-fetched = λ z. omega arith;
  units-fetched = λ z. times_one z;
}

prints_scale : (a b : Fixed) → fixed.to_string a ≡ fixed.to_string b → a.scale ≡ b.scale
prints_scale a b e = ground arith

prints_mantissa : (a b : Fixed) → fixed.to_string a ≡ fixed.to_string b → a.mantissa ≡ b.mantissa
prints_mantissa a b e = eq_of_parts _ _ (ground arith)

-- Their printed form is as the fingerprint needs it.
pub fixed_prints : PrintLaws Fixed
unfolding units
fixed_prints = record {
  to_string_plain = λ a. omega arith;
  to_string_injective = λ a b p q e. cc (prints_scale a b e, prints_mantissa a b e);
}
