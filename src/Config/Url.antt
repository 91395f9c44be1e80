-- ===== src/Config/Url.antt =====
-- `redact_url` of src/config.rs, with the searches of `str` that it calls.
use ledger_rs.Prelude.{ℕ, Bool, ◌||◌, Option, none, some, [], ◌∷◌, ◌++◌, ◌==◌, if◌then◌else◌}
use ledger_rs.Prelude.Text.{Text, codes}

-- `str::strip_prefix`
unfoldable pub strip_prefix : Text → Text → Option Text
strip_prefix [] s = some s
strip_prefix (p ∷ ps) [] = none
strip_prefix (p ∷ ps) (c ∷ s) = if c == p then strip_prefix ps s else none

abbrev pub after : ℕ → Option (Text × Text) → Option (Text × Text)
after c none = none
after c (some (a, b)) = some (c ∷ a, b)

-- `str::split_once`: at the first place where the pattern stands.
unfoldable pub split_once : Text → Text → Option (Text × Text)
split_once p [] = none
split_once p (c ∷ s) = elim (strip_prefix p (c ∷ s)) [
  | some rest ↦ some ([], rest)
  | none ↦ after c (split_once p s)
]

abbrev pub ends_authority : ℕ → Bool
ends_authority c = c == 47 || c == 63 || c == 35

-- `rest.find(['/', '?', '#'])` and `split_at`.
unfoldable pub split_authority : Text → Text × Text
split_authority [] = ([], [])
split_authority (c ∷ s) =
    let (a, tail) = split_authority s in if ends_authority c then ([], c ∷ s) else (c ∷ a, tail)

-- `str::rsplit_once` with a character: at its last place.
unfoldable pub rsplit_once : ℕ → Text → Option (Text × Text)
rsplit_once p [] = none
rsplit_once p (c ∷ s) = elim (rsplit_once p s) [
  | some (a, b) ↦ some (c ∷ a, b)
  | none ↦ if c == p then some ([], s) else none
]

abbrev pub at_sign : ℕ
at_sign = 64

-- What is written for a URL that has a user and a host.
unfoldable pub redact_userinfo : Text → Text → Text → Text → Option (Text × Text) → Text
redact_userinfo url scheme host tail (some (user, _)) =
    scheme ++ (codes "://" ++ (user ++ (codes ":****@" ++ (host ++ tail))))
redact_userinfo url scheme host tail none = url

unfoldable pub redact_authority : Text → Text → Text → Option (Text × Text) → Text
redact_authority url scheme tail (some (userinfo, host)) =
    redact_userinfo url scheme host tail (split_once (codes ":") userinfo)
redact_authority url scheme tail none = url

unfoldable pub redact_split : Text → Text → Text × Text → Text
redact_split url scheme (authority, tail) =
    redact_authority url scheme tail (rsplit_once at_sign authority)

unfoldable pub redact_rest : Text → Option (Text × Text) → Text
redact_rest url (some (scheme, rest)) = redact_split url scheme (split_authority rest)
redact_rest url none = url

unfoldable pub redact_url : Text → Text
redact_url url = redact_rest url (split_once (codes "://") url)
