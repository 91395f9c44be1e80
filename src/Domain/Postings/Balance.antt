-- ===== src/Domain/Postings/Balance.antt =====
-- `TransactionDetail::is_balanced` decides the double-entry rule, without an overflow.
use ledger_rs.Prelude.{
  ℕ, ◌+◌, ◌*◌, ◌≤◌, ◌<◌, ◌≡◌, ◌↔◌, refl, sym, ap, subst, ◌∙◌, inl, inr, Bool, true, false, Option,
  some, List, [], ◌∷◌, map, length, all, All, ltb, arith, Bool-cases, ltb→lt,
}
use ledger_rs.Prelude.Int.{
  ℤ, pos, neg, ◌+ℤ◌, magnitude, eqb_ℤ, eqb_ℤ→eq, int_laws, sum, +ℤ_magnitude,
}
use ledger_rs.Decimal.{Decimal, DecimalLaws, units, IsExact, safe_units}
use ledger_rs.Domain.Currency.{Currency, currency_eq, currency_eq→eq, currency_eq_refl}
use ledger_rs.Domain.Money.Validation.{IsStorable, IsValid, max_units}
use ledger_rs.Domain.Postings.{
  Direction, debit, credit, Entry, TransactionDetail, signed, signed_amount, sum_entries,
  is_balanced, same_currency, is_zero,
}

-- More entries than any transaction has: their sum stays within a mantissa.
abbrev pub max_entries : ℕ
max_entries = 1_000_000

module _ {D : Type 0} ⦃dec : Decimal D⦄ where
  unfoldable pub signed_units : Direction → D → ℤ
  signed_units debit a = units a
  signed_units credit a = neg (units a)

  -- A posting in smallest units, its direction as the sign.
  abbrev pub posting_units : Entry D → ℤ
  posting_units e = signed_units e.direction e.amount.amount

  unfoldable pub IsSingleCurrency : List (Entry D) → Type 0
  IsSingleCurrency es = (c : Currency) × All (λ e. e.amount.currency ≡ c) es

  pub record IsDoubleEntry (d : TransactionDetail D) : Type 0 where
    pub two_or_more : 2 ≤ length d.entries
    pub single_currency : IsSingleCurrency d.entries
    pub nets_to_zero : sum (map posting_units d.entries) ≡ pos 0

module _ {D : Type 0} ⦃dec : Decimal D⦄ (laws : DecimalLaws D) where
  signed-IsExact :
      (dir : Direction) (a : D)
      → IsStorable a
      → IsExact (signed dir a)
        × (units (signed dir a) ≡ signed_units dir a)
        × (magnitude (signed_units dir a) < max_units)
  unfolding signed signed_units
  signed-IsExact debit a v = (v.exact, refl, v.bounded)
  signed-IsExact credit a v =
      let bound : magnitude (neg (units a)) < max_units = omega (int_laws, v.bounded) in
      (rw (laws.scale-negate a) (v.exact), laws.units-negate a, bound)

  sum_step :
      (acc next : D) (x : Entry D) (es : List (Entry D)) (r : Option D)
      → dec.add acc (signed_amount x) ≡ some next
      → sum_entries next es ≡ r
      → sum_entries acc (x ∷ es) ≡ r
  unfolding sum_entries
  sum_step acc next x es r added rest = rw (added, sum_entries) rest

  sum-IsExact :
      (acc : D) (es : List (Entry D))
      → IsExact acc
      → All (λ e. IsValid e.amount) es
      → magnitude (units acc) + length es * max_units ≤ safe_units
      → (total : D) × (sum_entries acc es ≡ some total)
        × IsExact total
        × (units total ≡ units acc +ℤ sum (map posting_units es))
  unfolding sum_entries signed_amount
  sum-IsExact acc [] e vs room = (acc, refl, e, omega int_laws)
  sum-IsExact acc (x ∷ es) e (v, vs) room =
      let (exact, u, small) = signed-IsExact x.direction x.amount.amount v in
      let (next, added, next_exact, next_units) =
        laws.add_exact acc (signed_amount x) e exact (omega (arith, room))
          (rw u (omega (arith, small))) in
      let value : units next ≡ units acc +ℤ posting_units x =
        next_units ∙ ap (λ z. units acc +ℤ z) u in
      let bound : magnitude (units next) + length es * max_units ≤ safe_units =
        rw value (omega (arith, room, small, +ℤ_magnitude (units acc) (posting_units x))) in
      let (total, summed, total_exact, total_units) = sum-IsExact next es next_exact vs bound in
      (
        total,
        sum_step acc next x es (some total) added summed,
        total_exact,
        total_units ∙ rw value (omega int_laws),
      )

module _ {D : Type 0} (c : Currency) where
  all-single :
      (es : List (Entry D))
      → all (λ e. currency_eq e.amount.currency c) es ≡ true
      → All (λ e. e.amount.currency ≡ c) es
  all-single [] h = tt
  all-single (e ∷ es) h = elim (Bool-cases (currency_eq e.amount.currency c)) [
    | inl same ↦ (currency_eq→eq _ _ same, all-single es (rw same at h))
    | inr other ↦ cc (rw other at h)
  ]

  single-all :
      (es : List (Entry D))
      → All (λ e. e.amount.currency ≡ c) es
      → all (λ e. currency_eq e.amount.currency c) es ≡ true
  single-all [] h = refl
  single-all (e ∷ es) (p, h) = rw (p, currency_eq_refl c, single-all es h) refl

module _ {D : Type 0} ⦃dec : Decimal D⦄ where
  same-single :
      (es : List (Entry D)) → 1 ≤ length es → same_currency es ≡ true → IsSingleCurrency es
  unfolding same_currency IsSingleCurrency
  same-single [] h same = absurd (omega (arith, h))
  same-single (e ∷ es) h same = (e.amount.currency, all-single e.amount.currency (e ∷ es) same)

  single-same : (es : List (Entry D)) → IsSingleCurrency es → same_currency es ≡ true
  unfolding same_currency IsSingleCurrency
  single-same [] h = refl
  single-same (e ∷ es) (c, (p, h)) =
      single-all e.amount.currency (e ∷ es)
        (refl, subst (λ x. All (λ y. y.amount.currency ≡ x) es) (sym p) h)

module _ {D : Type 0} ⦃dec : Decimal D⦄ (laws : DecimalLaws D) where
  -- For a transaction of at most a million entries with valid amounts, `is_balanced` never panics,
  -- and it answers yes exactly for two entries or more in one currency whose signed amounts sum to
  -- zero.
  pub is_balanced_decides :
      (d : TransactionDetail D)
      → All (λ e. IsValid e.amount) d.entries
      → length d.entries ≤ max_entries
      → (b : Bool) × (is_balanced d ≡ some b) × ((b ≡ true) ↔ IsDoubleEntry d)
  unfolding is_balanced is_zero
  is_balanced_decides d vs few = elim (Bool-cases (ltb (length d.entries) 2)) [
    | inl short ↦ (
      false,
      rw (short, is_balanced) refl,
      (λ e. cc, λ h. absurd (omega (arith, ltb→lt _ _ short, h.two_or_more))),
    )
    | inr long ↦
        let two : 2 ≤ length d.entries = ground arith in
        elim (Bool-cases (same_currency d.entries)) [
          | inr mixed ↦ (
            false,
            rw (long, mixed, is_balanced) refl,
            (λ e. cc, λ h. cc (mixed, single-same d.entries h.single_currency)),
          )
          | inl same ↦
              let zero_exact : IsExact dec.zero = rw (laws.scale-zero) (omega arith) in
              let (total, summed, exact, u) =
                sum-IsExact laws dec.zero d.entries zero_exact vs
                  (rw (laws.units-zero) (omega (arith, few))) in
              let value : units total ≡ sum (map posting_units d.entries) =
                u ∙ rw (laws.units-zero) (omega int_laws) in
              let answer : dec.eq total dec.zero
                  ≡ eqb_ℤ (sum (map posting_units d.entries)) (pos 0) =
                laws.eq-units total dec.zero exact zero_exact ∙ rw (value, laws.units-zero) refl in
              (
                eqb_ℤ (sum (map posting_units d.entries)) (pos 0),
                rw (long, same, summed, answer, is_balanced, is_zero) refl,
                (
                  λ e. record {
                    two_or_more = two;
                    single_currency = same-single d.entries (omega (arith, two)) same;
                    nets_to_zero = eqb_ℤ→eq _ _ e;
                  },
                  λ h. rw (h.nets_to_zero) refl,
                ),
              )
        ]
  ]
