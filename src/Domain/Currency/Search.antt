-- ===== src/Domain/Currency/Search.antt =====
-- `Currency::try_from` decides membership in the table: its binary search agrees with a scan.
use Prim.Native.Nat.{Ordering}
use ledger_rs.Prelude.{
  ℕ, zero, suc, ◌≡◌, refl, ap, inl, inr, Bool, true, false, ◌||◌, none, some, List, [], ◌∷◌, all,
  length, ◌∙◌, ok, err, Bool-cases, Option-cases, if◌then◌else◌, arith, get_elem?,
}
use ledger_rs.Prelude.Text.{Text, text_eq, text_eq→eq, text_eq_refl, text_cmp}
use ledger_rs.Domain.Currency.{
  unknown_currency, accepted, entry_at, search_loop, binary_search, try_from,
}
use ledger_rs.Domain.Currency.Table.{iso_4217}

-- A scan of the table.
abbrev pub is_listed : Text → List Text → Bool
is_listed x [] = false
is_listed x (y ∷ t) = text_eq x y || is_listed x t

all-listed :
    (p : Text → Bool) (t : List Text) (x : Text)
    → all p t ≡ true
    → is_listed x t ≡ true
    → p x ≡ true
all-listed p (y ∷ t) x h l = elim (Bool-cases (p y)) [
  | inr bad ↦ cc (rw bad at h)
  | inl fine ↦ elim (Bool-cases (text_eq x y)) [
    | inl same ↦ cc (text_eq→eq x y same)
    | inr other ↦ all-listed p t x (rw fine at h) (rw other at l)
  ]
]
all-listed p [] x h l = cc

text_cmp-eq : (a b : Text) → text_cmp a b ≡ Ordering.eq → a ≡ b
unfolding text_cmp
text_cmp-eq [] [] h = refl
text_cmp-eq [] (b ∷ t) h = cc
text_cmp-eq (a ∷ s) [] h = cc
text_cmp-eq (a ∷ s) (b ∷ t) h = ground (arith, text_cmp-eq s t)

is_found : Text → Bool
is_found x = elim (binary_search iso_4217 x) [ none ↦ false | some _ ↦ true ]

-- Every code of the table is found.
all_found : all is_found iso_4217 ≡ true
unfolding is_found iso_4217 binary_search accepted search_loop entry_at text_cmp
all_found = refl

empty_unfound : binary_search iso_4217 [] ≡ none
unfolding iso_4217 binary_search accepted search_loop entry_at text_cmp
empty_unfound = refl

get_elem?-listed :
    (t : List Text) (i : ℕ) (x : Text) → get_elem? t i ≡ some x → is_listed x t ≡ true
get_elem?-listed [] i x h = cc
get_elem?-listed (y ∷ t) zero x h = let same : y ≡ x = cc in rw (same, text_eq_refl x) refl
get_elem?-listed (y ∷ t) (suc i) x h = elim (Bool-cases (text_eq x y)) [
  | inl same ↦ rw same refl
  | inr other ↦ rw other (get_elem?-listed t i x h)
]

entry_at-listed :
    (t : List Text) (i a : ℕ) (s : Text) → entry_at t i ≡ a ∷ s → is_listed (a ∷ s) t ≡ true
unfolding entry_at
entry_at-listed t i a s h = elim (Option-cases (get_elem? t i)) [
  | inl out ↦ cc (rw (out, entry_at) at h)
  | inr (y, here) ↦ get_elem?-listed t i (a ∷ s) (here ∙ ap some (rw (here, entry_at) at h))
]

accepted-eq : (o : Ordering) (i j : ℕ) → accepted o i ≡ some j → o ≡ Ordering.eq
unfolding accepted
accepted-eq Ordering.eq i j h = refl
accepted-eq Ordering.lt i j h = cc
accepted-eq Ordering.gt i j h = cc

found-listed :
    (t : List Text) (a : ℕ) (s : Text) (i : ℕ)
    → binary_search t (a ∷ s) ≡ some i
    → is_listed (a ∷ s) t ≡ true
unfolding binary_search
found-listed [] a s i h = cc
found-listed (y ∷ t) a s i h =
    let base = search_loop (length (y ∷ t)) (y ∷ t) (a ∷ s) (length (y ∷ t)) 0 in
    entry_at-listed (y ∷ t) base a s (
      text_cmp-eq (entry_at (y ∷ t) base) (a ∷ s)
        (accepted-eq (text_cmp (entry_at (y ∷ t) base) (a ∷ s)) base i h))

-- Whether a code is accepted is whether it stands in the table: the binary search gives on every
-- text what a scan of the table gives.
pub try_from-listed :
    (value : Text)
    → try_from value ≡ (
        if is_listed value iso_4217
        then ok (record { code = value })
        else err (unknown_currency value))
unfolding try_from is_found
try_from-listed value = elim (Bool-cases (is_listed value iso_4217)) [
  | inl listed ↦ elim (Option-cases (binary_search iso_4217 value)) [
    | inl missed ↦
        let hit : is_found value ≡ true = all-listed is_found iso_4217 value all_found listed in
        cc (rw (missed, is_found) at hit)
    | inr (i, found) ↦ rw (listed, found, try_from) refl
  ]
  | inr unlisted ↦ elim (Option-cases (binary_search iso_4217 value)) [
    | inl missed ↦ rw (unlisted, missed, try_from) refl
    | inr (i, found) ↦ absurd (unlisted_found value i unlisted found)
  ]
]
  where
    unlisted_found :
        (x : Text) (i : ℕ) → is_listed x iso_4217 ≡ false → ¬ (binary_search iso_4217 x ≡ some i)
    unlisted_found [] i un found = cc (empty_unfound)
    unlisted_found (a ∷ s) i un found = cc (found-listed iso_4217 a s i found)
