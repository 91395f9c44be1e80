-- ===== src/Config/Redaction.antt =====
-- `redact_url` hides the password.
use ledger_rs.Prelude.{
  ℕ, ◌≡◌, refl, ap, ◌∙◌, true, false, none, some, [], ◌∷◌, ◌++◌, All, ◌==◌, ==_refl,
}
use ledger_rs.Prelude.Text.{Text, codes}
use ledger_rs.Config.Url.{
  strip_prefix, split_once, ends_authority, split_authority, rsplit_once, at_sign, redact_userinfo,
  redact_authority, redact_rest, redact_split, redact_url,
}

-- A text without a character.
abbrev pub Lacks : ℕ → Text → Type 0
Lacks p = All (λ c. (c == p) ≡ false)

-- A text that stays within an authority.
abbrev pub StaysInside : Text → Type 0
StaysInside = All (λ c. ends_authority c ≡ false)

-- What follows an authority: nothing, or a path, a query or a fragment.
pub data IsTail : Text → Type 0 where
  no_tail : IsTail []
  tail_from : {c : ℕ} {s : Text} → ends_authority c ≡ true → IsTail (c ∷ s)

split_once-scheme :
    (scheme rest : Text)
    → Lacks 58 scheme
    → split_once (codes "://") (scheme ++ (codes "://" ++ rest)) ≡ some (scheme, rest)
unfolding split_once strip_prefix
split_once-scheme [] rest h = refl
split_once-scheme (c ∷ s) rest (p, h) =
    rw (p, split_once-scheme s rest h, split_once, strip_prefix) refl

split_once-user :
    (user rest : Text)
    → Lacks 58 user
    → split_once (codes ":") (user ++ 58 ∷ rest) ≡ some (user, rest)
unfolding split_once strip_prefix
split_once-user [] rest h = refl
split_once-user (c ∷ s) rest (p, h) =
    rw (p, split_once-user s rest h, split_once, strip_prefix) refl

split_authority-tail :
    (a tail : Text) → StaysInside a → IsTail tail → split_authority (a ++ tail) ≡ (a, tail)
unfolding split_authority
split_authority-tail [] [] h t = refl
split_authority-tail [] (c ∷ s) h (tail_from e) = rw e refl
split_authority-tail (c ∷ a) tail (p, h) t = rw (p, split_authority-tail a tail h t) refl

rsplit_once-none : (p : ℕ) (s : Text) → Lacks p s → rsplit_once p s ≡ none
unfolding rsplit_once
rsplit_once-none p [] h = refl
rsplit_once-none p (c ∷ s) (q, h) = rw (rsplit_once-none p s h, q) refl

rsplit_once-last :
    (p : ℕ) (a host : Text) → Lacks p host → rsplit_once p (a ++ p ∷ host) ≡ some (a, host)
unfolding rsplit_once
rsplit_once-last p [] host h = rw (rsplit_once-none p host h, ==_refl p) refl
rsplit_once-last p (c ∷ a) host h = rw (rsplit_once-last p a host h) refl

-- In a URL with a user and a password, four asterisks take the place of the password, whatever
-- characters it has but the three that end an authority: also `@` and `:`. The scheme and the user
-- have no colon, the host has no `@`, and nothing before the tail ends an authority.
pub redact_url_hides :
    (scheme user password host tail : Text)
    → Lacks 58 scheme
    → Lacks 58 user
    → Lacks at_sign host
    → StaysInside ((user ++ 58 ∷ password) ++ at_sign ∷ host)
    → IsTail tail
    → redact_url (scheme ++ (codes "://" ++ (((user ++ 58 ∷ password) ++ at_sign ∷ host) ++ tail)))
      ≡ scheme ++ (codes "://" ++ (user ++ (codes ":****@" ++ (host ++ tail))))
unfolding redact_url redact_rest redact_split redact_authority redact_userinfo
redact_url_hides scheme user password host tail s u h inside t =
    let userinfo = user ++ 58 ∷ password in
    let authority = userinfo ++ at_sign ∷ host in
    let url = scheme ++ (codes "://" ++ (authority ++ tail)) in
    ap (redact_rest url) (split_once-scheme scheme (authority ++ tail) s)
    ∙ ap (redact_split url scheme) (split_authority-tail authority tail inside t)
    ∙ ap (redact_authority url scheme tail) (rsplit_once-last at_sign userinfo host h)
    ∙ ap (redact_userinfo url scheme host tail) (split_once-user user password u)
