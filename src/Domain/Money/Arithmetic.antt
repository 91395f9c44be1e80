-- ===== src/Domain/Money/Arithmetic.antt =====
-- `checked_add`, `checked_sub` and `checked_lt` are exact on what `Money::new` accepted.
use ledger_rs.Prelude.{
  ◌≤◌, ◌≡◌, ◌≢◌, ap, refl, sym, ◌∙◌, inl, inr, ltb, Result, ok, err, panicked, arith, Bool-cases,
  ltb→lt, subst,
}
use ledger_rs.Prelude.Int.{ℤ, magnitude, ltb_ℤ, ◌+ℤ◌, ◌-ℤ◌}
use ledger_rs.Decimal.{Decimal, DecimalLaws, units, IsExact}
use ledger_rs.Domain.Currency.{
  MoneyError, too_many_decimal_places, magnitude_too_large, currency_mismatch, unknown_currency,
  currency_eq, currency_eq→eq, currency_eq_refl, currency_ne,
}
use ledger_rs.Domain.Money.{Money, new, checked_add, checked_sub, checked_lt, canonical}
use ledger_rs.Domain.Money.Validation.{max_units, IsStorable, IsValid, new_storable, new_large}

module _ {D : Type 0} ⦃dec : Decimal D⦄ where
  -- The outcome of an operation on `a` and `b` whose exact result is `z` smallest units.
  abbrev pub IsExactly : Money D → Money D → ℤ → Result MoneyError (Money D) → Type 0
  IsExactly a b z (ok m) =
      (a.currency ≡ b.currency) × (m.currency ≡ a.currency) × IsValid m × (units m.amount ≡ z)
  IsExactly a b z (err (too_many_decimal_places _)) = ⊥
  IsExactly a b z (err magnitude_too_large) = (a.currency ≡ b.currency) × (max_units ≤ magnitude z)
  IsExactly a b z (err (currency_mismatch l r)) =
      (l ≡ a.currency) × (r ≡ b.currency) × (a.currency ≢ b.currency)
  IsExactly a b z (err (unknown_currency _)) = ⊥
  IsExactly a b z panicked = ⊥

module _ {D : Type 0} ⦃dec : Decimal D⦄ (laws : DecimalLaws D) where
  new-IsExactly :
      (a b : Money D) (d : D) (z : ℤ)
      → a.currency ≡ b.currency
      → IsExact d
      → units d ≡ z
      → IsExactly a b z (new d a.currency)
  new-IsExactly a b d z same e u = elim (Bool-cases (ltb (magnitude (units d)) max_units)) [
    | inl fits ↦
        let storable : IsStorable d = record { exact = e; bounded = ltb→lt _ _ fits } in
        rw (new_storable laws d a.currency storable) (same, refl, storable, u)
    | inr large ↦
        let bound : max_units ≤ magnitude (units d) = ground arith in
        rw (new_large laws d a.currency e bound)
          (same, subst (λ x. max_units ≤ magnitude x) u bound)
  ]

  -- Adding two amounts gives their exact sum in the common currency, or says that the sum is
  -- 10 ^ 12 or more in size, or that the currencies differ. It never panics and never rounds.
  pub checked_add-IsExactly :
      (a b : Money D)
      → IsValid a
      → IsValid b
      → IsExactly a b (units a.amount +ℤ units b.amount) (checked_add a b)
  unfolding checked_add
  checked_add-IsExactly a b va vb = elim (Bool-cases (currency_eq a.currency b.currency)) [
    | inl same ↦
        let (c, e, exact, u) =
          laws.add_exact a.amount b.amount va.exact vb.exact (omega (arith, va.bounded))
            (omega (arith, vb.bounded)) in
        rw (same, e) (new-IsExactly a b c _ (currency_eq→eq _ _ same) exact u)
    | inr other ↦ rw other (refl, refl, currency_ne a.currency b.currency other)
  ]

  -- Subtracting two amounts gives their exact difference in the common currency, or says that its
  -- size is 10 ^ 12 or more, or that the currencies differ. It never panics and never rounds.
  pub checked_sub-IsExactly :
      (a b : Money D)
      → IsValid a
      → IsValid b
      → IsExactly a b (units a.amount -ℤ units b.amount) (checked_sub a b)
  unfolding checked_sub
  checked_sub-IsExactly a b va vb = elim (Bool-cases (currency_eq a.currency b.currency)) [
    | inl same ↦
        let (c, e, exact, u) =
          laws.sub_exact a.amount b.amount va.exact vb.exact (omega (arith, va.bounded))
            (omega (arith, vb.bounded)) in
        rw (same, e) (new-IsExactly a b c _ (currency_eq→eq _ _ same) exact u)
    | inr other ↦ rw other (refl, refl, currency_ne a.currency b.currency other)
  ]

  -- `checked_lt` compares the stored integers.
  pub checked_lt_same :
      (a b : Money D)
      → IsValid a
      → IsValid b
      → a.currency ≡ b.currency
      → checked_lt a b ≡ ok (ltb_ℤ (units a.amount) (units b.amount))
  unfolding checked_lt
  checked_lt_same a b va vb same = rw (
    ap (currency_eq a.currency) (sym same) ∙ currency_eq_refl a.currency,
    laws.lt-units a.amount b.amount va.exact vb.exact,
  )

  -- Two valid amounts of one currency that are equal in value have one canonical text, whatever
  -- their trailing zeros.
  pub canonical_unique :
      (a b : Money D)
      → IsValid a
      → IsValid b
      → a.currency ≡ b.currency
      → units a.amount ≡ units b.amount
      → canonical a ≡ canonical b
  unfolding canonical
  canonical_unique a b va vb same u =
      cc (laws.normalize_unique a.amount b.amount va.exact vb.exact u)
