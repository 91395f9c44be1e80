-- ===== src/Http/Keys.antt =====
-- What `extract_idempotency_key` lets through.
use ledger_rs.Prelude.{
  ◌≤◌, ◌≡◌, ◌≢◌, refl, sym, ◌∙◌, Bool, true, false, Option, none, some, [], ok, length, ltb, arith,
  >>=-eq-ok, fail_if, ok_injective,
}
use ledger_rs.Prelude.Text.{Text}
use ledger_rs.Domain.Bytes.{as_bytes}
use ledger_rs.Error.{LedgerError, missing_idempotency_key}
use ledger_rs.Http.Headers.{trim, is_empty, extract_idempotency_key, max_idempotency_key_len}

passed : (b : Bool) (e : LedgerError) → fail_if b e ≡ ok tt → b ≡ false
passed true e h = cc
passed false e h = refl

-- A key that the ledger is given.
pub record IsKey (key : Text) : Type 0 where
  pub not_empty : key ≢ []
  pub short_enough : length (as_bytes key) ≤ 255

-- A key is taken from the header's value without the blanks around it; it is not empty and has at
-- most 255 bytes.
pub extract-IsKey :
    (header : Option (Option Text)) (key : Text)
    → extract_idempotency_key header ≡ ok key
    → (value : Text) × (header ≡ some (some value)) × (key ≡ trim value) × IsKey key
unfolding extract_idempotency_key
extract-IsKey none key h = cc
extract-IsKey (some none) key h = cc
extract-IsKey (some (some value)) key h =
    let (_, p, h1) = >>=-eq-ok (fail_if (is_empty (trim value)) missing_idempotency_key) _ h in
    let (_, q, h2) =
      >>=-eq-ok (fail_if (ltb max_idempotency_key_len (length (as_bytes (trim value)))) _) _ h1 in
    let same : trim value ≡ key = ok_injective h2 in
    let full : is_empty (trim value) ≡ false = passed _ _ p in
    let short : ltb max_idempotency_key_len (length (as_bytes (trim value))) ≡ false =
      passed _ _ q in
    (
      value,
      refl,
      sym same,
      record {
        not_empty = λ e. cc (rw (same ∙ e) at full);
        short_enough = rw (sym same) (ground arith);
      },
    )
