-- ===== src/Prelude/Cancel.antt =====
-- Taking lists of numbers apart that were put together.
use ledger_rs.Prelude.{ℕ, ◌≡◌, ◌≢◌, refl, sym, List, [], ◌∷◌, ◌++◌, All, length, arith}

same_head : {a b : ℕ} {xs ys : List ℕ} → a ∷ xs ≡ b ∷ ys → (a ≡ b) × (xs ≡ ys)
same_head h = (cc, cc)

-- A common front.
pub cancel_front : (xs : List ℕ) {ys zs : List ℕ} → xs ++ ys ≡ xs ++ zs → ys ≡ zs
cancel_front [] h = h
cancel_front (x ∷ xs) h = cancel_front xs ((same_head h).1)

-- Fronts of one length.
pub cancel_length :
    (xs ys : List ℕ) {us vs : List ℕ}
    → length xs ≡ length ys
    → xs ++ us ≡ ys ++ vs
    → (xs ≡ ys) × (us ≡ vs)
cancel_length [] [] l h = (refl, h)
cancel_length [] (y ∷ ys) l h = absurd (omega (arith, l))
cancel_length (x ∷ xs) [] l h = absurd (omega (arith, l))
cancel_length (x ∷ xs) (y ∷ ys) l h =
    let (a, t) = same_head h in
    let (p, q) = cancel_length xs ys (omega (arith, l)) t in (cc (a, p), q)

-- Fronts up to the first `k`.
pub cancel_until :
    (k : ℕ) (xs ys : List ℕ) {us vs : List ℕ}
    → All (λ c. c ≢ k) xs
    → All (λ c. c ≢ k) ys
    → xs ++ k ∷ us ≡ ys ++ k ∷ vs
    → (xs ≡ ys) × (us ≡ vs)
cancel_until k [] [] p q h = (refl, (same_head h).1)
cancel_until k [] (y ∷ ys) p (q, _) h = absurd (q (sym ((same_head h).0)))
cancel_until k (x ∷ xs) [] (p, _) q h = absurd (p ((same_head h).0))
cancel_until k (x ∷ xs) (y ∷ ys) (p, ps) (q, qs) h =
    let (a, t) = same_head h in let (b, c) = cancel_until k xs ys ps qs t in (cc (a, b), c)

-- A common last item.
pub cancel_last : (k : ℕ) (xs ys : List ℕ) → xs ++ k ∷ [] ≡ ys ++ k ∷ [] → xs ≡ ys
cancel_last k [] [] h = refl
cancel_last k [] (y ∷ []) h = cc ((same_head h).1)
cancel_last k [] (y ∷ z ∷ ys) h = cc ((same_head h).1)
cancel_last k (x ∷ []) [] h = cc ((same_head h).1)
cancel_last k (x ∷ z ∷ xs) [] h = cc ((same_head h).1)
cancel_last k (x ∷ xs) (y ∷ ys) h =
    let (a, t) = same_head h in let r = cancel_last k xs ys t in cc (a, r)
