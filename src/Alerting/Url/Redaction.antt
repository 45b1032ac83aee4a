-- ===== src/Alerting/Url/Redaction.antt =====
-- What `RedactURL` shows of a webhook URL.
use inference_fabric_autopil.Prelude.{
  false, ◌∷◌, some, ℕ, ◌==◌, All, ap, ◌∙◌, ◌≡◌, refl, Bool, ◌||◌, Option, some, [], ◌++◌,
  if◌then◌else◌,
}
use inference_fabric_autopil.Prelude.Texts.{has_prefix, Text, codes, text_eq}
use inference_fabric_autopil.Alerting.Url.{Url, redact_url, split_at, from_delimiter, redact_in}

abbrev pub is_bare : Url → Bool
is_bare u = text_eq u.path [] || text_eq u.path (codes "/")

-- What is shown of a parsed URL.
abbrev shown : Url → Text
shown u =
    if text_eq u.host []
    then codes "(set)"
    else (u.scheme ++ codes "://" ++ u.host) ++ (if is_bare u then [] else codes "/(redacted)")

redact_url-parsed :
    (parse : Text → Option Url) (raw : Text) (u : Url)
    → parse raw ≡ some u
    → redact_url parse raw ≡ shown u
unfolding redact_url
redact_url-parsed parse raw u p = rw (p, redact_url) refl

-- What is logged depends on the scheme, the host and whether there is a path, and on nothing
-- else of the URL: two URLs that agree on these are logged alike.
pub redact_url-same :
    (parse : Text → Option Url) (raw other : Text) (u v : Url)
    → parse raw ≡ some u
    → parse other ≡ some v
    → u.scheme ≡ v.scheme
    → u.host ≡ v.host
    → is_bare u ≡ is_bare v
    → redact_url parse raw ≡ redact_url parse other
redact_url-same parse raw other u v p q s h b =
    rw (redact_url-parsed parse raw u p, redact_url-parsed parse other v q) (rw (s, h, b) refl)

-- A byte other than a space and a quote.
abbrev pub IsPlain : ℕ → Type 0
IsPlain c = (c == 32 || (c == 34)) ≡ false

from_delimiter-plain :
    (s rest : Text) → All IsPlain s → from_delimiter (s ++ rest) ≡ from_delimiter rest
unfolding from_delimiter
from_delimiter-plain [] rest p = refl
from_delimiter-plain (c ∷ s) rest p = rw (p.0, from_delimiter) (from_delimiter-plain s rest p.1)

-- The byte is not an `h`.
abbrev pub IsNotH : ℕ → Type 0
IsNotH c = (104 == c) ≡ false

split_at-first :
    (l r : Text)
    → All IsNotH l
    → split_at (codes "https://") (l ++ (codes "https://" ++ r)) ≡ some (l, codes "https://" ++ r)
unfolding split_at has_prefix
split_at-first [] r p = refl
split_at-first (c ∷ l) r p = rw (p.0, split_at-first l r p.1) refl

redact_in-found :
    (msg redacted l r : Text)
    → split_at (codes "https://") msg ≡ some (l, r)
    → redact_in msg redacted ≡ l ++ redacted ++ from_delimiter r
unfolding redact_in
redact_in-found msg redacted l r h = rw (h, redact_in) refl

scheme_and :
    (secret rest : Text)
    → All IsPlain secret
    → from_delimiter (codes "https://" ++ (secret ++ rest)) ≡ from_delimiter rest
unfolding from_delimiter
scheme_and secret rest q = from_delimiter-plain secret rest q

-- In a message with an https URL, from its first `h` on, everything from the scheme up to the next
-- space or quote is replaced: the path with its token does not reach the log.
pub redact_in-https :
    (left secret rest redacted : Text)
    → All IsNotH left
    → All IsPlain secret
    → redact_in (left ++ (codes "https://" ++ (secret ++ rest))) redacted
      ≡ left ++ redacted ++ from_delimiter rest
redact_in-https left secret rest redacted p q =
    redact_in-found _ redacted left (codes "https://" ++ (secret ++ rest))
      (split_at-first left (secret ++ rest) p)
    ∙ ap (λ r. left ++ redacted ++ r) (scheme_and secret rest q)
