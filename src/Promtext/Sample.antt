-- ===== src/Promtext/Sample.antt =====
-- internal/promtext/parse.go: one line of a payload, a sample or a "# TYPE" comment.
pub mod Printed
pub mod RoundTrip
use inference_fabric_autopil.Prelude.{
  ℕ, Bool, true, false, ◌&&◌, ◌||◌, not, Option, none, some, List, [], ◌∷◌, all, leb, ◌==◌,
  if◌then◌else◌,
}
use inference_fabric_autopil.Prelude.Texts.{Text, codes, text_eq}
use inference_fabric_autopil.Float.{FloatText}
use inference_fabric_autopil.Promtext.Words.{trim_space, fields, split_where, to_lower}
use inference_fabric_autopil.Promtext.Labels.{Labels, parse_labels}

-- `Sample`
pub record Sample (A : Type 0) : Type 0 where
  pub name : Text
  pub labels : Labels
  pub value : A

abbrev pub one_of : Text → List Text → Bool
one_of s [] = false
one_of s (t ∷ ts) = text_eq s t || one_of s ts

module _ {A : Type 0} ⦃T : FloatText A⦄ where
  unfoldable pub parse_value : Text → Option A
  parse_value s =
      if one_of s (codes "+Inf" ∷ codes "Inf" ∷ codes "inf" ∷ codes "+inf" ∷ [])
      then some T.inf
      else if one_of s (codes "-Inf" ∷ codes "-inf" ∷ [])
      then some T.neg_inf
      else if one_of s (codes "NaN" ∷ codes "nan" ∷ codes "NAN" ∷ [])
      then some T.nan
      else T.parse_float s

unfoldable pub is_letter : ℕ → Bool
is_letter c = (leb 97 c && leb c 122) || ((leb 65 c && leb c 90) || (c == 95 || c == 58))

unfoldable pub is_digit : ℕ → Bool
is_digit c = leb 48 c && leb c 57

unfoldable pub valid_metric_name : Text → Bool
unfolding is_letter is_digit
valid_metric_name [] = false
valid_metric_name (c ∷ s) = is_letter c && all (λ d. is_letter d || is_digit d) s

-- The case of a line without '{': the name and the text after the first space or tab.
unfoldable pub split_unlabelled : Text → Option (Text × Text × Labels)
unfolding split_where trim_space valid_metric_name
split_unlabelled line = elim (split_where (λ c. c == 32 || c == 9) line) [
  | none ↦ none
  | some (before, []) ↦ none
  | some (before, c ∷ rest) ↦
      let name = trim_space before in if valid_metric_name name then some (name, rest, []) else none
]

-- `splitNameAndLabels`
unfoldable pub split_name_and_labels : Text → Option (Text × Text × Labels)
unfolding split_unlabelled split_where trim_space valid_metric_name parse_labels
split_name_and_labels line = elim (split_where (λ c. c == 123) line) [
  | none ↦ split_unlabelled line
  | some (before, []) ↦ none
  | some (before, c ∷ block) ↦
      let name = trim_space before in
      if not (valid_metric_name name) then none else elim (parse_labels block) [
        | none ↦ none
        | some (labels, rest) ↦ some (name, rest, labels)
      ]
]

module _ {A : Type 0} ⦃T : FloatText A⦄ where
  -- The value of a series: the first field, before an optional timestamp.
  unfoldable pub sample_of : Text → Labels → List Text → Option (Sample A)
  unfolding parse_value
  sample_of name labels [] = none
  sample_of name labels (w ∷ ws) = elim (parse_value w) [
    | none ↦ none
    | some v ↦ some (record { name = name; labels = labels; value = v })
  ]

  unfoldable pub parse_sample : Text → Option (Sample A)
  unfolding split_name_and_labels fields sample_of
  parse_sample line = elim (split_name_and_labels line) [
    | none ↦ none
    | some (name, rest, labels) ↦ sample_of name labels (fields rest)
  ]

-- The second and later fields decide.
unfoldable pub type_of_fields : List Text → Option (Text × Text)
unfolding to_lower
type_of_fields (hash ∷ keyword ∷ family ∷ typ ∷ ws) =
    if text_eq keyword (codes "TYPE") then some (family, to_lower typ) else none
type_of_fields _ = none

unfoldable pub parse_type_comment : Text → Option (Text × Text)
unfolding fields type_of_fields
parse_type_comment line = type_of_fields (fields line)
