-- ===== src/Schema/Totals.antt =====
-- Sums over lists, and sums group by group.
use ledger_rs.Prelude.{
  ℕ, ◌≡◌, refl, ap, ◌∙◌, true, false, inl, inr, List, [], ◌∷◌, map, All, ◌==◌, ==→eq, Bool-cases,
  if◌then◌else◌,
}
use ledger_rs.Prelude.Int.{ℤ, pos, ◌+ℤ◌, int_laws, +ℤ_zero}
use ledger_rs.Schema.Rows.{EntryRecord, contains}
use ledger_rs.Schema.Invariant.{Distinct}

-- The sum of what each item is worth.
abbrev pub total {ℓ} : {A : Type ℓ} → (A → ℤ) → List A → ℤ
total w [] = pos 0
total w (x ∷ xs) = w x +ℤ total w xs

pub total-same {ℓ} :
    {A : Type ℓ} (f g : A → ℤ) (xs : List A) → All (λ x. f x ≡ g x) xs → total f xs ≡ total g xs
total-same f g [] h = refl
total-same f g (x ∷ xs) (p, h) = rw (p, total-same f g xs h) refl

total-add {ℓ} :
    {A : Type ℓ} (f g : A → ℤ) (xs : List A) → total (λ x. f x +ℤ g x) xs ≡ total f xs +ℤ total g xs
total-add f g [] = omega int_laws
total-add f g (x ∷ xs) = rw (total-add f g xs) (omega int_laws)

pub total-zero {ℓ} : {A : Type ℓ} (xs : List A) → total (λ _. pos 0) xs ≡ pos 0
total-zero [] = refl
total-zero (x ∷ xs) = rw (total-zero xs) (omega int_laws)

pub total-map {ℓ κ} :
    {A : Type ℓ} {B : Type κ} (f : A → B) (w : B → ℤ) (xs : List A)
    → total w (map f xs) ≡ total (λ x. w (f x)) xs
total-map f w [] = refl
total-map f w (x ∷ xs) = ap (λ z. w (f x) +ℤ z) (total-map f w xs)

-- What is worth `z` at the key `k` alone.
abbrev only : ℕ → ℤ → ℕ → ℤ
only k z x = if k == x then z else pos 0

total-absent : (k : ℕ) (z : ℤ) (ks : List ℕ) → contains k ks ≡ false → total (only k z) ks ≡ pos 0
total-absent k z [] h = refl
total-absent k z (x ∷ ks) h = elim (Bool-cases (k == x)) [
  | inl hit ↦ cc (rw hit at h)
  | inr miss ↦ rw (miss, total-absent k z ks (rw miss at h)) (omega int_laws)
]

total-only :
    (k : ℕ) (z : ℤ) (ks : List ℕ) → Distinct ks → contains k ks ≡ true → total (only k z) ks ≡ z
total-only k z [] d h = cc
total-only k z (x ∷ ks) (fresh, d) h = elim (Bool-cases (k == x)) [
  | inl hit ↦
      let gone : contains k ks ≡ false = rw (==→eq k x hit) fresh in
      rw (hit, total-absent k z ks gone) (+ℤ_zero z)
  | inr miss ↦ rw (miss, total-only k z ks d (rw miss at h)) (omega int_laws)
]

-- Sums group by group, over the entries of a transaction or of an account.
module _ (key : EntryRecord → ℕ) (group : ℕ → List EntryRecord → List EntryRecord)
    (none_left : (k : ℕ) → group k [] ≡ [])
    (split : (k : ℕ) (e : EntryRecord) (es : List EntryRecord)
      → group k (e ∷ es) ≡ (if key e == k then e ∷ group k es else group k es)) where
  grouped_one :
      (w : EntryRecord → ℤ) (e : EntryRecord) (es : List EntryRecord) (k : ℕ)
      → total w (group k (e ∷ es)) ≡ only (key e) (w e) k +ℤ total w (group k es)
  grouped_one w e es k = elim (Bool-cases (key e == k)) [
    | inl hit ↦ rw (split k e es, hit) refl
    | inr miss ↦ rw (split k e es, miss) (omega int_laws)
  ]

  pub total-groups :
      (w : EntryRecord → ℤ) (ks : List ℕ) (es : List EntryRecord)
      → Distinct ks
      → All (λ e. contains (key e) ks ≡ true) es
      → total (λ k. total w (group k es)) ks ≡ total w es
  total-groups w ks [] d h = total-same _ (λ _. pos 0) ks (everywhere ks) ∙ total-zero ks
    where
      everywhere : (xs : List ℕ) → All (λ k. total w (group k []) ≡ pos 0) xs
      everywhere [] = tt
      everywhere (x ∷ xs) = (ap (total w) (none_left x), everywhere xs)
  total-groups w ks (e ∷ es) d (p, h) =
      total-same _ (λ k. only (key e) (w e) k +ℤ total w (group k es)) ks (everywhere ks)
      ∙ total-add _ _ ks
      ∙ rw (total-only (key e) (w e) ks d p, total-groups w ks es d h) refl
    where
      everywhere :
          (xs : List ℕ)
          → All (λ k. total w (group k (e ∷ es)) ≡ only (key e) (w e) k +ℤ total w (group k es)) xs
      everywhere [] = tt
      everywhere (x ∷ xs) = (grouped_one w e es x, everywhere xs)
