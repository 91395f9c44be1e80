-- ===== src/Tests/Edge.antt =====
-- The settings and the HTTP edge at concrete inputs.
use ledger_rs.Prelude.{
  ℕ, ◌≡◌, ◌≢◌, ◌⊎◌, ◌↔◌, refl, true, false, none, some, [], ◌∷◌, ◌++◌, ok, if◌then◌else◌,
}
use ledger_rs.Prelude.Text.{Text, codes, text_eq}
use ledger_rs.Decimal.Fixed.{fixed}
use ledger_rs.Startup.{Platform, main}
use ledger_rs.Startup.Order.{IsLife, main_lifecycle}
use ledger_rs.Config.{Config, Process, default_pool, validate, from_env}
use ledger_rs.Config.Url.{redact_url, at_sign}
use ledger_rs.Config.Coherence.{IsCoherent, validate_decides}
use ledger_rs.Config.Reading.{IsRead, from_env_decides}
use ledger_rs.Config.Redaction.{no_tail, redact_url_hides}
use ledger_rs.Domain.Bytes.{as_bytes, encode}
use ledger_rs.Http.Headers.{extract_idempotency_key, trim, trim_start, trim_end, is_whitespace}
use ledger_rs.Http.Keys.{IsKey, extract-IsKey}

-- The password is `p@:s`.
redact_url_hides_example :
    redact_url (
      codes "pg"
      ++ (codes "://" ++ (((codes "u" ++ 58 ∷ codes "p@:s") ++ at_sign ∷ codes "h") ++ [])))
    ≡ codes "pg" ++ (codes "://" ++ (codes "u" ++ (codes ":****@" ++ (codes "h" ++ []))))
redact_url_hides_example =
    redact_url_hides (codes "pg") (codes "u") (codes "p@:s") (codes "h") [] (refl, (refl, tt))
      (refl, tt) (refl, tt) (refl, (refl, (refl, (refl, (refl, (refl, (refl, (refl, tt))))))))
      no_tail

abbrev port : ℕ
port = 3_000

abbrev url : Text
url = codes "pg://u:p@h"

-- An environment with the URL of the database and nothing else.
abbrev bare : Process ℕ
bare = record {
  var = λ name. if text_eq name (codes "DATABASE_URL") then some url else none;
  parse_addr = λ s. some 3_000;
  parse_u32 = λ s. none;
  parse_u64 = λ s. none;
  parse_usize = λ s. none;
  parse_bool = λ s. none;
}

-- What is read in it.
abbrev bare_config : Config ℕ
bare_config = record {
  database_url = url;
  bind_addr = port;
  pool = default_pool;
  request_timeout = 30;
  max_body_bytes = 65_536;
  shutdown_grace = 20;
  allow_funding_account_creation = false;
}

validate_decides_example : (validate bare_config ≡ ok tt) ↔ IsCoherent bare_config
validate_decides_example = validate_decides bare_config

from_env_decides_example :
    (from_env bare ≡ ok bare_config) ↔ (IsRead bare bare_config × IsCoherent bare_config)
from_env_decides_example = from_env_decides bare bare_config

abbrev padded : Text
padded = codes "  abc  "

padded-extract : extract_idempotency_key (some (some padded)) ≡ ok (codes "abc")
unfolding extract_idempotency_key trim_start trim_end is_whitespace as_bytes encode
padded-extract = refl

extract-IsKey_example :
    (value : Text) × (some (some padded) ≡ some (some value))
    × (codes "abc" ≡ trim value)
    × IsKey (codes "abc")
extract-IsKey_example = extract-IsKey (some (some padded)) (codes "abc") padded-extract

-- A platform on which every call succeeds.
abbrev willing : Platform ℕ
willing = record {
  connects = λ url options. true;
  migrates = true;
  binds = λ addr. true;
  serves = true;
}

main_lifecycle_example :
    (((c : Config ℕ) → from_env bare ≢ ok c)
      × ((main bare willing).0 ≡ [])
      × ((main bare willing).1 ≢ ok tt))
    ⊎ ((c : Config ℕ) × (from_env bare ≡ ok c)
        × IsCoherent c
        × IsLife willing c (main bare willing))
main_lifecycle_example = main_lifecycle bare willing
