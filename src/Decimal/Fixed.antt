-- ===== src/Decimal/Fixed.antt =====
-- One implementation of the decimals that meets the laws: a mantissa and a scale, with sums at
-- eight places. Only tests and instances use it.
pub mod Laws
use ledger_rs.Prelude.{
  ℕ, zero, suc, ◌+◌, ◌-◌, ◌/◌, ◌%◌, ◌^◌, some, Bool, [], ◌∷◌, leb, ◌==◌, if◌then◌else◌, ltb,
}
use ledger_rs.Prelude.Int.{
  ℤ, pos, pos_part, neg_part, sub_ℕ, magnitude, neg, times, ltb_ℤ, eqb_ℤ, ◌+ℤ◌, ◌-ℤ◌,
}
use ledger_rs.Decimal.{Decimal}

pub record Fixed : Type 0 where
  pub mantissa : ℤ
  pub scale : ℕ

-- A tenth, towards zero.
unfoldable pub tenth : ℤ → ℤ
tenth m = sub_ℕ (pos_part m / 10) (neg_part m / 10)

unfoldable pub strip : ℤ → ℕ → Fixed
unfolding tenth
strip m zero = record { mantissa = m; scale = 0 }
strip m (suc s) =
    let rest = strip (tenth m) s in
    if magnitude m % 10 == 0 then rest else record { mantissa = m; scale = suc s }

-- In units of 10⁻⁸.
abbrev pub aligned : Fixed → ℤ
aligned a = times a.mantissa (10 ^ (8 - a.scale))

abbrev pub at_eight : ℤ → Fixed
at_eight z = record { mantissa = z; scale = 8 }

instance abbrev pub fixed : Decimal Fixed
fixed = record {
  mantissa = λ a. a.mantissa;
  scale = λ a. a.scale;
  normalize = λ a. strip a.mantissa a.scale;
  abs = λ a. record a { mantissa = pos (magnitude a.mantissa) };
  negate = λ a. record a { mantissa = neg a.mantissa };
  add = λ a b. some (at_eight (aligned a +ℤ aligned b));
  sub = λ a b. some (at_eight (aligned a -ℤ aligned b));
  lt = λ a b. ltb_ℤ (aligned a) (aligned b);
  eq = λ a b. eqb_ℤ (aligned a) (aligned b);
  zero = record { mantissa = pos 0; scale = 0 };
  from_i64 = λ n. record { mantissa = pos n; scale = 0 };
  to_string = λ a. (48 + a.scale) ∷ (48 + pos_part a.mantissa) ∷ (48 + neg_part a.mantissa) ∷ [];
  stored = aligned;
  stored_sum = λ z a. z +ℤ aligned a;
  fetched = at_eight;
}
