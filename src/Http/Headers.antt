-- ===== src/Http/Headers.antt =====
-- `extract_idempotency_key` of src/http/transfers.rs.
use ledger_rs.Prelude.{
  ℕ, Bool, true, false, ◌||◌, ◌&&◌, Option, [], ◌∷◌, length, ltb, leb, ◌==◌, Result, ok, ◌>>=◌,
  ◌>>◌, fail_if, ok_or, if◌then◌else◌,
}
use ledger_rs.Prelude.Text.{Text, codes}
use ledger_rs.Domain.Bytes.{as_bytes}
use ledger_rs.Error.{LedgerError, missing_idempotency_key, validation}

-- `char::is_whitespace`, the White_Space property of Unicode.
unfoldable pub is_whitespace : ℕ → Bool
is_whitespace c =
    (leb 9 c && leb c 13)
    || c == 32
    || c == 133
    || c == 160
    || c == 5_760
    || (leb 8_192 c && leb c 8_202)
    || c == 8_232
    || c == 8_233
    || c == 8_239
    || c == 8_287
    || c == 12_288

unfoldable pub trim_start : Text → Text
trim_start [] = []
trim_start (c ∷ s) = let rest = trim_start s in if is_whitespace c then rest else c ∷ s

abbrev drop_blank : ℕ → Text → Text
drop_blank c [] = if is_whitespace c then [] else c ∷ []
drop_blank c (d ∷ s) = c ∷ d ∷ s

unfoldable pub trim_end : Text → Text
trim_end [] = []
trim_end (c ∷ s) = drop_blank c (trim_end s)

-- `str::trim`
abbrev pub trim : Text → Text
trim s = trim_end (trim_start s)

abbrev pub is_empty : Text → Bool
is_empty [] = true
is_empty (c ∷ s) = false

abbrev pub max_idempotency_key_len : ℕ
max_idempotency_key_len = 255

-- The header's value, if there is one, and what `HeaderValue::to_str` makes of it.
unfoldable pub extract_idempotency_key : Option (Option Text) → Result LedgerError Text
extract_idempotency_key header = do
  raw ← ok_or missing_idempotency_key header
  text ← ok_or (validation (codes "Idempotency-Key must be valid UTF-8")) raw
  let key = trim text
  fail_if (is_empty key) missing_idempotency_key
  fail_if (ltb max_idempotency_key_len (length (as_bytes key)))
      (validation (codes "Idempotency-Key must be at most 255 bytes"))
  ok key
