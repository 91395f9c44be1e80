-- ===== src/Schema/Groups.antt =====
-- Grouping and counting, as SQL does it, and what a count of 0 says.
use ledger_rs.Prelude.{
  ℕ, All-implies, ltb, suc, ◌≡◌, ◌↔◌, refl, inl, inr, subst, sym, Bool, true, false, ◌||◌, List, [],
  ◌∷◌, All, arith, ◌==◌, if◌then◌else◌, Bool-cases,
}

-- `COUNT(*) .. WHERE`
abbrev pub count_if {ℓ} : {A : Type ℓ} → (A → Bool) → List A → ℕ
count_if p [] = 0
count_if p (x ∷ xs) = if p x then suc (count_if p xs) else count_if p xs

positive_count : (n : ℕ) → (suc n == 0) ≡ true → ⊥
positive_count n h = ground arith

pub count_if-zero {ℓ} :
    {A : Type ℓ} (p : A → Bool) (xs : List A)
    → ((count_if p xs == 0) ≡ true) ↔ All (λ x. p x ≡ false) xs
count_if-zero p [] = (λ _. tt, λ _. refl)
count_if-zero p (x ∷ xs) = elim (Bool-cases (p x)) [
  | inl hit ↦ (λ h. absurd (positive_count _ (rw hit at h)), λ (q, _). cc (hit, q))
  | inr miss ↦ (
    λ h. (miss, (count_if-zero p xs).0 (rw miss at h)),
    λ (_, q). rw miss ((count_if-zero p xs).1 q),
  )
]

-- Keys with a test of equality.
module _ {A : Type 0} (eq : A → A → Bool) where
  abbrev pub has : A → List A → Bool
  has k [] = false
  has k (x ∷ xs) = eq k x || has k xs

  -- The keys of `GROUP BY`.
  abbrev pub groups : List A → List A
  groups [] = []
  groups (x ∷ xs) = if has x xs then groups xs else x ∷ groups xs

  abbrev pub occurrences : A → List A → ℕ
  occurrences k = count_if (λ x. eq k x)

  abbrev pub AllDiffer : List A → Type 0
  AllDiffer [] = Unit
  AllDiffer (k ∷ ks) = (has k ks ≡ false) × AllDiffer ks

  -- The keys that occur more than once.
  abbrev pub repeated : List A → A → Bool
  repeated xs k = ltb 1 (occurrences k xs)

  module _ (sound : (x y : A) → eq x y ≡ true → x ≡ y) (refl_eq : (x : A) → eq x x ≡ true) where
    pub has-All {ℓ} : (P : A → Type ℓ) (k : A) (xs : List A) → has k xs ≡ true → All P xs → P k
    has-All P k [] h all = cc
    has-All P k (x ∷ xs) h (p, all) = elim (Bool-cases (eq k x)) [
      | inl same ↦ subst P (sym (sound k x same)) p
      | inr other ↦ has-All P k xs (rw other at h) all
    ]

    pub groups-All {ℓ} : (P : A → Type ℓ) (xs : List A) → All P (groups xs) ↔ All P xs
    groups-All P [] = (λ h. h, λ h. h)
    groups-All P (x ∷ xs) = elim (Bool-cases (has x xs)) [
      | inl again ↦ rw again (
        λ h. (has-All P x xs again ((groups-All P xs).0 h), (groups-All P xs).0 h),
        λ (_, h). (groups-All P xs).1 h,
      )
      | inr new ↦
          rw new (λ (p, h). (p, (groups-All P xs).0 h), λ (p, h). (p, (groups-All P xs).1 h))
    ]

    absent : (k : A) (xs : List A) → (has k xs ≡ false) ↔ (occurrences k xs ≡ 0)
    absent k [] = (λ _. refl, λ _. refl)
    absent k (x ∷ xs) = elim (Bool-cases (eq k x)) [
      | inl hit ↦ rw hit (λ h. cc, λ h. absurd (omega (arith, h)))
      | inr miss ↦ rw miss (absent k xs)
    ]

    eq_comm : (x y : A) → eq x y ≡ false → eq y x ≡ false
    eq_comm x y h = elim (Bool-cases (eq y x)) [
      | inl same ↦ cc (sound y x same, refl_eq x, h)
      | inr other ↦ other
    ]

    -- Keys that are not `x`.
    apart : (x : A) (ys : List A) → has x ys ≡ false → All (λ k. eq k x ≡ false) ys
    apart x [] h = tt
    apart x (y ∷ ys) h = elim (Bool-cases (eq x y)) [
      | inl same ↦ cc (rw same at h)
      | inr other ↦ (eq_comm x y other, apart x ys (rw other at h))
    ]

    one_more :
        (x : A) (xs ys : List A)
        → All (λ k. eq k x ≡ false) ys
        → All (λ k. repeated xs k ≡ false) ys
        → All (λ k. repeated (x ∷ xs) k ≡ false) ys
    one_more x xs [] h p = tt
    one_more x xs (y ∷ ys) (h, hs) (p, ps) = (rw h p, one_more x xs ys hs ps)

    one_less :
        (x : A) (xs ys : List A)
        → All (λ k. repeated (x ∷ xs) k ≡ false) ys
        → All (λ k. repeated xs k ≡ false) ys
    one_less x xs ys = All-implies _ _ (λ k h. fewer k h) ys
      where
        fewer : (k : A) → repeated (x ∷ xs) k ≡ false → repeated xs k ≡ false
        fewer k h = elim (Bool-cases (eq k x)) [
          | inl hit ↦ let h' = rw hit at h in ground (arith, h')
          | inr miss ↦ rw miss at h
        ]

    -- No key is repeated exactly where all differ.
    pub repeated-AllDiffer : (xs : List A) → All (λ k. repeated xs k ≡ false) xs ↔ AllDiffer xs
    repeated-AllDiffer [] = (λ _. tt, λ _. tt)
    repeated-AllDiffer (x ∷ xs) = (
      λ (p, ps). (
        (absent x xs).1 (let p' = rw (refl_eq x) at p in ground (arith, p')),
        (repeated-AllDiffer xs).0 (one_less x xs xs ps),
      ),
      λ (new, h). (
        let none_there = (absent x xs).0 new in rw (refl_eq x, none_there) refl,
        one_more x xs xs (apart x xs new) ((repeated-AllDiffer xs).1 h),
      ),
    )
