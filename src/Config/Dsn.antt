-- ===== src/Config/Dsn.antt =====
-- internal/config/config.go: `RedactDSN`.
use inference_fabric_autopil.Prelude.{
  ℕ, ◌≡◌, refl, true, not, Option, none, some, [], ◌∷◌, ◌++◌, all, drop, ◌==◌, arith, if◌then◌else◌,
}
use inference_fabric_autopil.Prelude.Texts.{Text, codes, has_prefix}
use inference_fabric_autopil.Alerting.Url.{split_at}
use inference_fabric_autopil.Promtext.Words.{split_where}
use inference_fabric_autopil.Promtext.Labels.Printed.{split_where-append}

-- The text before the last byte of a kind and the text from it on: `strings.LastIndex`.
unfoldable pub split_last : ℕ → Text → Option (Text × Text)
split_last b [] = none
split_last b (c ∷ s) = elim (split_last b s) [
  | some (before, after) ↦ some (c ∷ before, after)
  | none ↦ if c == b then some ([], c ∷ s) else none
]

-- The credentials without what follows their first ':'.
unfoldable pub redact_credentials : Text → Option Text
unfolding split_where
redact_credentials creds = elim (split_where (λ c. c == 58) creds) [
  | none ↦ none
  | some (user, rest) ↦ some (user ++ codes ":****")
]

-- `RedactDSN`. The text before the last '@' has the first "://" just where this stands before it.
unfoldable pub redact_dsn : Text → Text
unfolding split_last split_at redact_credentials
redact_dsn dsn = elim (split_last 64 dsn) [
  | none ↦ codes "(set)"
  | some (before, from_at) ↦ elim (split_at (codes "://") before) [
    | none ↦ codes "(set)"
    | some (scheme, from_scheme) ↦ elim (redact_credentials (drop 3 from_scheme)) [
      | none ↦ dsn
      | some shown ↦ (scheme ++ codes "://" ++ shown) ++ from_at
    ]
  ]
]

split_last-none : (b : ℕ) (s : Text) → all (λ c. not (c == b)) s ≡ true → split_last b s ≡ none
unfolding split_last
split_last-none b [] h = refl
split_last-none b (c ∷ s) h = ground (arith, split_last-none b s)

split_last-append :
    (b : ℕ) (before after : Text)
    → all (λ c. not (c == b)) after ≡ true
    → split_last b (before ++ b ∷ after) ≡ some (before, b ∷ after)
unfolding split_last
split_last-append b [] after h = ground (arith, split_last-none b after)
split_last-append b (c ∷ before) after h = ground (arith, split_last-append b before after)

split_at-scheme :
    (scheme rest : Text)
    → all (λ c. not (c == 58)) scheme ≡ true
    → split_at (codes "://") (scheme ++ (codes "://" ++ rest)) ≡ some (scheme, codes "://" ++ rest)
unfolding split_at has_prefix
split_at-scheme [] rest h = refl
split_at-scheme (c ∷ scheme) rest h = ground (arith, split_at-scheme scheme rest)

redact_credentials-password :
    (user password : Text)
    → all (λ c. not (c == 58)) user ≡ true
    → redact_credentials (user ++ 58 ∷ password) ≡ some (user ++ codes ":****")
unfolding redact_credentials
redact_credentials-password user password h =
    ground (arith, split_where-append (λ c. c == 58) user 58 password h refl)

-- Of a connection string with a scheme, a user, a password and a host, where the scheme and the user
-- have no ':' and the host has no '@', all is shown but the password, whatever bytes it has.
pub redact_dsn_lem :
    (scheme user password host : Text)
    → all (λ c. not (c == 58)) scheme ≡ true
    → all (λ c. not (c == 58)) user ≡ true
    → all (λ c. not (c == 64)) host ≡ true
    → redact_dsn ((scheme ++ (codes "://" ++ (user ++ 58 ∷ password))) ++ 64 ∷ host)
      ≡ (scheme ++ codes "://" ++ (user ++ codes ":****")) ++ 64 ∷ host
unfolding redact_dsn
redact_dsn_lem scheme user password host s u h = ground (
  arith,
  split_last-append 64 (scheme ++ (codes "://" ++ (user ++ 58 ∷ password))) host h,
  split_at-scheme scheme (user ++ 58 ∷ password) s,
  redact_credentials-password user password u,
)
