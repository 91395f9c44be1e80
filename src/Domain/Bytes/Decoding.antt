-- ===== src/Domain/Bytes/Decoding.antt =====
-- Reading UTF-8 back: the bytes of a text determine it.
use ledger_rs.Prelude.{
  ℕ, zero, suc, ◌+◌, ◌-◌, ◌*◌, ◌/◌, ◌%◌, ◌<◌, ◌≡◌, refl, ap, ◌∙◌, inl, inr, true, false, List, [],
  ◌∷◌, ◌++◌, ltb, ◌==◌, Bool-cases, arith, if◌then◌else◌,
}
use ledger_rs.Prelude.Text.{Text}
use ledger_rs.Domain.Bytes.{encode, as_bytes}

-- How many bytes of the character are still to come after the byte `b`, where `n` were before it.
unfoldable pub missing : ℕ → ℕ → ℕ
missing zero b = if ltb b 0x80 then 0 else if ltb b 0xe0 then 1 else if ltb b 0xf0 then 2 else 3
missing (suc n) b = n

-- The bits of the character up to the byte `b`.
unfoldable pub gathered : ℕ → ℕ → ℕ → ℕ
gathered zero a b =
    if ltb b 0x80
    then b
    else if ltb b 0xe0
    then b - 0xc0
    else if ltb b 0xf0
    then b - 0xe0
    else b - 0xf0
gathered (suc n) a b = a * 0x40 + (b - 0x80)

unfoldable pub decode_from : ℕ → ℕ → List ℕ → Text
decode_from n a [] = []
decode_from n a (b ∷ bs) =
    let rest = decode_from (missing n b) (gathered n a b) bs in
    if missing n b == 0 then gathered n a b ∷ rest else rest

abbrev pub decode : List ℕ → Text
decode = decode_from 0 0

fresh_start : (a a' : ℕ) (bs : List ℕ) → decode_from 0 a bs ≡ decode_from 0 a' bs
unfolding decode_from gathered
fresh_start a a' [] = refl
fresh_start a a' (b ∷ bs) = refl

minus_back : (k x : ℕ) → (k + x) - k ≡ x
minus_back k x = omega arith

continuation :
    (n a y : ℕ) (bs : List ℕ)
    → decode_from (suc (suc n)) a ((0x80 + y) ∷ bs) ≡ decode_from (suc n) (a * 0x40 + y) bs
unfolding decode_from missing gathered
continuation n a y bs =
    let p : (suc n == 0) ≡ false = ground arith in rw (minus_back 0x80 y, p) refl

last_byte :
    (a y : ℕ) (bs : List ℕ)
    → decode_from 1 a ((0x80 + y) ∷ bs) ≡ (a * 0x40 + y) ∷ decode_from 0 (a * 0x40 + y) bs
unfolding decode_from missing gathered
last_byte a y bs = rw (minus_back 0x80 y) refl

-- A first byte of two, three and four.
lead_two :
    (a x : ℕ) (bs : List ℕ) → x < 0x20 → decode_from 0 a ((0xc0 + x) ∷ bs) ≡ decode_from 1 x bs
unfolding decode_from missing gathered
lead_two a x bs h =
    let p : ltb (0xc0 + x) 0x80 ≡ false = ground arith in
    let q : ltb (0xc0 + x) 0xe0 ≡ true = ground arith in rw (p, q, minus_back 0xc0 x) refl

lead_three :
    (a x : ℕ) (bs : List ℕ) → x < 0x10 → decode_from 0 a ((0xe0 + x) ∷ bs) ≡ decode_from 2 x bs
unfolding decode_from missing gathered
lead_three a x bs h =
    let p : ltb (0xe0 + x) 0x80 ≡ false = ground arith in
    let q : ltb (0xe0 + x) 0xe0 ≡ false = ground arith in
    let r : ltb (0xe0 + x) 0xf0 ≡ true = ground arith in rw (p, q, r, minus_back 0xe0 x) refl

lead_four : (a x : ℕ) (bs : List ℕ) → decode_from 0 a ((0xf0 + x) ∷ bs) ≡ decode_from 3 x bs
unfolding decode_from missing gathered
lead_four a x bs =
    let p : ltb (0xf0 + x) 0x80 ≡ false = ground arith in
    let q : ltb (0xf0 + x) 0xe0 ≡ false = ground arith in
    let r : ltb (0xf0 + x) 0xf0 ≡ false = ground arith in rw (p, q, r, minus_back 0xf0 x) refl

two_bytes : (c : ℕ) → c / 0x40 * 0x40 + c % 0x40 ≡ c
two_bytes c = omega arith

three_bytes : (c : ℕ) → (c / 0x1000 * 0x40 + c / 0x40 % 0x40) * 0x40 + c % 0x40 ≡ c
three_bytes c = omega arith

four_bytes :
    (c : ℕ)
    → ((c / 0x40000 * 0x40 + c / 0x1000 % 0x40) * 0x40 + c / 0x40 % 0x40) * 0x40 + c % 0x40 ≡ c
four_bytes c = omega arith

decode_ascii :
    (c a : ℕ) (bs : List ℕ) → ltb c 0x80 ≡ true → decode_from 0 a (c ∷ bs) ≡ c ∷ decode bs
unfolding decode_from missing gathered
decode_ascii c a bs p = rw p (ap (λ s. c ∷ s) (fresh_start c 0 bs))

-- One character read back.
ended :
    (a y c : ℕ) (bs : List ℕ) → a * 0x40 + y ≡ c → decode_from 1 a ((0x80 + y) ∷ bs) ≡ c ∷ decode bs
ended a y c bs e = last_byte a y bs ∙ rw e (ap (λ s. c ∷ s) (fresh_start c 0 bs))

decode-encode : (c a : ℕ) (bs : List ℕ) → decode_from 0 a (encode c ++ bs) ≡ c ∷ decode bs
unfolding encode
decode-encode c a bs = elim (Bool-cases (ltb c 0x80)) [
  | inl one ↦ rw one (decode_ascii c a bs one)
  | inr more ↦ elim (Bool-cases (ltb c 0x800)) [
    | inl two ↦
        rw (more, two)
          (lead_two a (c / 0x40) _ (ground (arith, two)) ∙ ended _ _ c bs (two_bytes c))
    | inr more2 ↦ elim (Bool-cases (ltb c 0x10000)) [
      | inl three ↦
          rw (more, more2, three)
            (lead_three a (c / 0x1000) _ (ground (arith, three))
              ∙ continuation 0 _ (c / 0x40 % 0x40) _
              ∙ ended _ _ c bs (three_bytes c))
      | inr four ↦
          rw (more, more2, four)
            (lead_four a (c / 0x40000) _
              ∙ continuation 1 _ (c / 0x1000 % 0x40) _
              ∙ continuation 0 _ (c / 0x40 % 0x40) _
              ∙ ended _ _ c bs (four_bytes c))
    ]
  ]
]

-- The bytes of a text read back as the text.
pub decode-as_bytes : (s : Text) → decode (as_bytes s) ≡ s
unfolding as_bytes decode_from
decode-as_bytes [] = refl
decode-as_bytes (c ∷ s) = decode-encode c 0 (as_bytes s) ∙ ap (λ t. c ∷ t) (decode-as_bytes s)
