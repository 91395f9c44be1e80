-- ===== src/Prelude/Powers.antt =====
-- Powers of ten, and integers times numbers.
use Prim.Native.Nat.{ℕ, zero, suc, ◌+◌, ◌-◌, ◌*◌, ◌%◌, ◌^◌, ◌≤◌, ◌<◌}
use Prim.Native.Nat.add
use mathlib.Core.Path.{◌≡◌, ◌∙◌, sym, ap}
use native.Mathlib.Omega.{arith}
use native.Mathlib.Nat.{mul-mod_left, pow-suc, mul_assoc}
use ledger_rs.Prelude.Int.{ℤ, pos, negsuc, pos_part, neg_part, times, magnitude, eq_of_parts}

pub pow_pos : (n : ℕ) → 0 < 10 ^ n
pow_pos zero = omega arith
pow_pos (suc n) = rw (pow-suc 10 n) (omega (arith, pow_pos n))

pub pow_add : (m n : ℕ) → 10 ^ (m + n) ≡ 10 ^ m * 10 ^ n
pow_add zero n = rw (add.zero n) (omega arith)
pow_add (suc m) n = rw (add.suc m n, pow-suc 10 (m + n), pow-suc 10 m, pow_add m n) (omega arith)

pub pow_split : (m n : ℕ) → m ≤ n → 10 ^ m * 10 ^ (n - m) ≡ 10 ^ n
pow_split m n h = sym (pow_add m (n - m)) ∙ ap (λ (k : ℕ). 10 ^ k) (omega arith)

mul_cancel : (a b n : ℕ) → a * suc n ≡ b * suc n → a ≡ b
mul_cancel a b n h = grind arith

pub times_parts :
    (a : ℤ) (n : ℕ)
    → (pos_part (times a n) ≡ pos_part a * n) × (neg_part (times a n) ≡ neg_part a * n)
unfolding times
times_parts (pos m) n = ground arith
times_parts (negsuc m) n = ground arith

pub magnitude-times : (a : ℤ) (n : ℕ) → magnitude (times a n) ≡ magnitude a * n
magnitude-times a n = grind (arith, times_parts a n)

pub times-times : (a : ℤ) (m n : ℕ) → times (times a m) n ≡ times a (m * n)
times-times a m n = eq_of_parts _ _ (
    rw
      (
        (times_parts (times a m) n).0,
        (times_parts (times a m) n).1,
        (times_parts a (m * n)).0,
        (times_parts a (m * n)).1,
        (times_parts a m).0,
        (times_parts a m).1,
      )
      (omega arith))

pub times_cancel : (a b : ℤ) (n : ℕ) → 0 < n → times a n ≡ times b n → a ≡ b
times_cancel a b zero h e = elim h [ ]
times_cancel a b (suc n) h e = eq_of_parts a b (
    mul_cancel _ _ n
      (omega (arith, ap pos_part e, ap neg_part e, times_parts a (suc n), times_parts b (suc n))))

pub times_one : (a : ℤ) → times a 1 ≡ a
times_one a = eq_of_parts _ _ (omega (arith, times_parts a 1))

-- A multiple of a power of ten ends in a zero.
pub trailing_zero : (m z : ℤ) (j : ℕ) → m ≡ times z (10 ^ suc j) → magnitude m % 10 ≡ 0
trailing_zero m z j e =
    ap (λ x. magnitude x % 10) e
    ∙ ap (λ (n : ℕ). n % 10)
        (magnitude-times z (10 ^ suc j)
          ∙ ap (λ (n : ℕ). magnitude z * n) (pow-suc 10 j)
          ∙ sym (mul_assoc (magnitude z) (10 ^ j) 10))
    ∙ mul-mod_left _ 10
