-- ===== src/Alerting/Url.antt =====
-- internal/alerting/sender.go: `ValidateURL`, `RedactURL` and `redactIn`. `url.Parse` is an argument.
pub mod Redaction
use inference_fabric_autopil.Prelude.{
  ℕ, suc, ◌+◌, ◌≡◌, refl, Bool, true, false, ◌||◌, not, Option, none, some, List, [], ◌∷◌, ◌++◌,
  drop, ◌==◌, if◌then◌else◌, arith,
}
use inference_fabric_autopil.Prelude.Texts.{Text, codes, text_eq, has_prefix}

-- The parts of a `url.URL` that are read.
pub record Url : Type 0 where
  pub scheme : Text
  pub host : Text
  pub path : Text

abbrev pub https : Text
https = codes "https"

abbrev pub http : Text
http = codes "http"

-- `ValidateURL`; `none` is an error of `url.Parse`.
unfoldable pub validate_url : (Text → Option Url) → Text → Bool
validate_url parse raw = if text_eq raw [] then false else elim (parse raw) [
  | none ↦ false
  | some u ↦
      if not (text_eq u.scheme http || text_eq u.scheme https)
      then false
      else not (text_eq u.host [])
]

-- `RedactURL`
unfoldable pub redact_url : (Text → Option Url) → Text → Text
redact_url parse raw = elim (parse raw) [
  | none ↦ codes "(set)"
  | some u ↦
      if text_eq u.host []
      then codes "(set)"
      else (u.scheme ++ codes "://" ++ u.host)
        ++ (if text_eq u.path [] || text_eq u.path (codes "/") then [] else codes "/(redacted)")
]

-- `strings.Index` for a text that is not empty: what stands before its first place, and from it on.
unfoldable pub split_at : Text → Text → Option (Text × Text)
unfolding has_prefix
split_at sub [] = none
split_at sub (c ∷ s) =
    let rest = split_at sub s in
    if has_prefix sub (c ∷ s)
    then some ([], c ∷ s)
    else elim rest [ none ↦ none | some (l, r) ↦ some (c ∷ l, r) ]

-- From the first space or quote on.
unfoldable pub from_delimiter : Text → Text
from_delimiter [] = []
from_delimiter (c ∷ s) = let rest = from_delimiter s in if c == 32 || (c == 34) then c ∷ s else rest

-- `redactIn`
unfoldable pub redact_in : Text → Text → Text
unfolding split_at from_delimiter
redact_in msg redacted = elim (split_at (codes "https://") msg) [
  | some (l, r) ↦ l ++ redacted ++ from_delimiter r
  | none ↦ elim (split_at (codes "http://") msg) [
    | some (l, r) ↦ l ++ redacted ++ from_delimiter r
    | none ↦ msg
  ]
]
