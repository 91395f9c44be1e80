-- ===== src/Domain/Fingerprint/Unambiguous.antt =====
-- What the bytes that `request_hash` feeds to the hasher say of a request.
use ledger_rs.Prelude.{
  ℕ, ◌<◌, ◌^◌, ◌≡◌, ◌≢◌, ◌↔◌, sym, ap, ◌∙◌, [], ◌∷◌, All, All-implies, All-append, length, arith,
}
use ledger_rs.Prelude.Cancel.{cancel_front, cancel_length, cancel_until, cancel_last}
use ledger_rs.Prelude.Text.{Text, codes}
use ledger_rs.Decimal.{Decimal, DecimalLaws, PrintLaws, IsExact, units}
use ledger_rs.Domain.Currency.{as_str}
use ledger_rs.Domain.Money.{Money, canonical}
use ledger_rs.Domain.Money.Validation.{IsValid, units-normalize}
use ledger_rs.Domain.Money.Arithmetic.{canonical_unique}
use ledger_rs.Domain.Bytes.{encode, as_bytes}
use ledger_rs.Domain.Bytes.Decoding.{decode, decode-as_bytes}
use ledger_rs.Domain.Fingerprint.{TransferIntent, Digest, preimage}

-- `Uuid::as_bytes`: sixteen bytes, and another identifier has others.
pub record UuidLaws (dg : Digest) : Type 0 where
  pub sixteen : (n : ℕ) → length (dg.uuid_bytes n) ≡ 16
  pub distinct : (m n : ℕ) → m < 2 ^ 128 → n < 2 ^ 128 → dg.uuid_bytes m ≡ dg.uuid_bytes n → m ≡ n

-- A request whose identifiers are UUIDs, with a valid amount and a code without a line feed.
pub record IsRequest {D : Type 0} ⦃dec : Decimal D⦄ (i : TransferIntent D) : Type 0 where
  pub from_fits : i.from_account_id < 2 ^ 128
  pub to_fits : i.to_account_id < 2 ^ 128
  pub amount_valid : IsValid i.amount
  pub code_plain : All (λ c. c ≢ 10) (as_str i.amount.currency)

-- Two requests for the same transfer, however the amounts are written.
pub record SameRequest {D : Type 0} ⦃dec : Decimal D⦄ (i j : TransferIntent D) : Type 0 where
  pub same_from : i.from_account_id ≡ j.from_account_id
  pub same_to : i.to_account_id ≡ j.to_account_id
  pub same_units : units i.amount.amount ≡ units j.amount.amount
  pub same_currency : i.amount.currency ≡ j.amount.currency
  pub same_description : i.description ≡ j.description

plain_bytes : (c : ℕ) → c ≢ 10 → All (λ b. b ≢ 10) (encode c)
unfolding encode
plain_bytes c h = ground (arith, h)

as_bytes_plain : (s : Text) → All (λ c. c ≢ 10) s → All (λ b. b ≢ 10) (as_bytes s)
unfolding as_bytes
as_bytes_plain [] h = tt
as_bytes_plain (c ∷ s) (p, h) =
    All-append (λ b. b ≢ 10) (encode c) (as_bytes s) (plain_bytes c p) (as_bytes_plain s h)

as_bytes_injective : (s t : Text) → as_bytes s ≡ as_bytes t → s ≡ t
as_bytes_injective s t h = sym (decode-as_bytes s) ∙ ap decode h ∙ decode-as_bytes t

module _ {D : Type 0} ⦃dec : Decimal D⦄ (laws : DecimalLaws D) (prints : PrintLaws D) where
  canonical_plain :
      (m : Money D) → All (λ c. c ≢ 10) (as_str m.currency) → All (λ c. c ≢ 10) (canonical m)
  unfolding canonical
  canonical_plain m h =
      All-append (λ c. c ≢ 10) (dec.to_string (dec.normalize m.amount)) (32 ∷ as_str m.currency)
        (All-implies _ _ (λ c p. p.0) _ (prints.to_string_plain (dec.normalize m.amount)))
        ((λ e. absurd (omega (arith, e))), h)

  canonical_injective :
      (a b : Money D)
      → IsValid a
      → IsValid b
      → canonical a ≡ canonical b
      → (units a.amount ≡ units b.amount) × (as_str a.currency ≡ as_str b.currency)
  unfolding canonical
  canonical_injective a b va vb h =
      let (printed, code) =
        cancel_until 32 (dec.to_string (dec.normalize a.amount))
          (dec.to_string (dec.normalize b.amount))
          (All-implies _ _ (λ c p. p.1) _ (prints.to_string_plain (dec.normalize a.amount)))
          (All-implies _ _ (λ c p. p.1) _ (prints.to_string_plain (dec.normalize b.amount))) h in
      let ea : IsExact (dec.normalize a.amount) =
        omega (arith, laws.normalize-scale a.amount, va.exact) in
      let eb : IsExact (dec.normalize b.amount) =
        omega (arith, laws.normalize-scale b.amount, vb.exact) in
      (
        sym (units-normalize laws a.amount (va.exact))
            ∙ prints.to_string_injective _ _ ea eb printed
            ∙ units-normalize laws b.amount (vb.exact),
        code,
      )

  module _ (dg : Digest) (uuids : UuidLaws dg) where
    preimage_tells :
        (i j : TransferIntent D)
        → IsRequest i
        → IsRequest j
        → preimage dg i ≡ preimage dg j
        → SameRequest i j
    unfolding preimage
    preimage_tells i j ri rj h =
        let h1 = cancel_front (codes "from=") (cancel_front (codes "ledger-rs/transfer/v1\n") h) in
        let (from, h2) =
          cancel_length (dg.uuid_bytes i.from_account_id) (dg.uuid_bytes j.from_account_id)
            (uuids.sixteen _ ∙ sym (uuids.sixteen _)) h1 in
        let (to, h3) =
          cancel_length (dg.uuid_bytes i.to_account_id) (dg.uuid_bytes j.to_account_id)
            (uuids.sixteen _ ∙ sym (uuids.sixteen _)) (cancel_front (codes "\nto=") h2) in
        let (printed, h4) =
          cancel_until 10 (as_bytes (canonical i.amount)) (as_bytes (canonical j.amount))
            (as_bytes_plain _ (canonical_plain i.amount (ri.code_plain)))
            (as_bytes_plain _ (canonical_plain j.amount (rj.code_plain)))
            (cancel_front (codes "\namount=") h3) in
        let described =
          cancel_last 10 (as_bytes i.description) (as_bytes j.description)
            (cancel_front (codes "description=") h4) in
        let (value, code) =
          canonical_injective i.amount j.amount (ri.amount_valid) (rj.amount_valid)
            (as_bytes_injective _ _ printed) in
        record {
          same_from = uuids.distinct _ _ (ri.from_fits) (rj.from_fits) from;
          same_to = uuids.distinct _ _ (ri.to_fits) (rj.to_fits) to;
          same_units = value;
          same_currency = ap (λ c. record { code = c }) code;
          same_description = as_bytes_injective _ _ described;
        }

    -- Of two requests with valid amounts, UUIDs for accounts and codes without a line feed, the
    -- bytes that are hashed are the same exactly where the requests name the same two accounts, the
    -- same value in the same currency and the same description, whatever the amounts' trailing
    -- zeros.
    pub preimage_decides :
        (i j : TransferIntent D)
        → IsRequest i
        → IsRequest j
        → (preimage dg i ≡ preimage dg j) ↔ SameRequest i j
    unfolding preimage
    preimage_decides i j ri rj = (
      preimage_tells i j ri rj,
      λ s.
          let printed =
            canonical_unique laws i.amount j.amount (ri.amount_valid) (rj.amount_valid)
              (s.same_currency) (s.same_units) in
          cc (s.same_from, s.same_to, printed, s.same_description),
    )
