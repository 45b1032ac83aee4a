-- ===== src/Promtext/Labels.antt =====
-- internal/promtext/parse.go, the label set of a series: the match against wanted labels, and the
-- label block of a line, by recursion on the text that is left where the code has an index.
pub mod Rounds
pub mod Printed
pub mod RoundTrip
use inference_fabric_autopil.Prelude.{
  ℕ, zero, suc, Bool, true, false, ◌&&◌, ◌||◌, Option, none, some, List, [], ◌∷◌, ◌==◌, length, all,
  if◌then◌else◌,
}
use inference_fabric_autopil.Prelude.Texts.{Text, text_eq}
use inference_fabric_autopil.Prelude.Maps.{Map, lookup, insert}
use inference_fabric_autopil.Promtext.Words.{is_empty, trim_space, split_where}

-- `Labels`, the nil map included.
abbrev pub Labels : Type 0
Labels = Map Text

-- `l[k]`, the empty string where the key is missing.
unfoldable pub value_at : Labels → Text → Text
value_at l k = elim (lookup k l) [ none ↦ [] | some v ↦ v ]

unfoldable pub matches : Labels → Labels → Bool
unfolding value_at
matches l want = all (λ e. text_eq (value_at l e.0) e.1) want

-- ',', ' ' and '\t'
unfoldable pub is_separator : ℕ → Bool
is_separator c = c == 44 || (c == 32 || c == 9)

unfoldable pub skip_separators : Text → Text
unfolding is_separator
skip_separators [] = []
skip_separators (c ∷ s) = let rest = skip_separators s in if is_separator c then rest else c ∷ s

-- A byte before the value that is read after it.
abbrev pub cons_value : ℕ → Option (Text × Text) → Option (Text × Text)
cons_value c none = none
cons_value c (some (v, rest)) = some (c ∷ v, rest)

-- What an escape stands for: 'n' is a line feed, any other byte itself.
unfoldable pub unescaped : ℕ → ℕ
unescaped c = if c == 110 then 10 else c

-- The loop over a quoted value, to the closing quote: the value and the text after the quote.
unfoldable pub read_value : Text → Option (Text × Text)
unfolding unescaped
read_value [] = none
read_value (c ∷ []) = if c == 34 then some ([], []) else none
read_value (c ∷ d ∷ s) = elim (c == 92) [
  | true ↦ cons_value (unescaped d) (read_value s)
  | false ↦ elim (c == 34) [ true ↦ some ([], d ∷ s) | false ↦ cons_value c (read_value (d ∷ s)) ]
]

-- One round of the outer loop of `parseLabels`.
pub data Round : Type 0 where
  -- '}', and the text after it.
  finished : Text → Round
  -- A key, its value and the text after the closing quote.
  label : Text → Text → Text → Round
  malformed : Round

-- From the opening quote on.
unfoldable pub read_quoted : Text → Text → Round
unfolding read_value
read_quoted key [] = malformed
read_quoted key (c ∷ s) =
    if c == 34
    then elim (read_value s) [
      | none ↦ malformed
      | some (v, rest) ↦ if is_empty key then malformed else label key v rest
    ]
    else malformed

-- From the key on: it ends at '=', and a '}' before that ends the parse.
unfoldable pub read_label : Text → Round
unfolding read_quoted trim_space split_where
read_label s = elim (split_where (λ c. c == 61 || c == 125) s) [
  | none ↦ malformed
  | some (key, []) ↦ malformed
  | some (key, c ∷ rest) ↦ if c == 61 then read_quoted (trim_space key) rest else malformed
]

unfoldable pub round_after : Text → Round
unfolding read_label
round_after [] = malformed
round_after (c ∷ s) = if c == 125 then finished s else read_label (c ∷ s)

unfoldable pub label_round : Text → Round
unfolding skip_separators round_after
label_round s = round_after (skip_separators s)

-- The outer loop: the labels and the text after '}'. The fuel bounds the rounds.
unfoldable pub labels_from : ℕ → Labels → Text → Option (Labels × Text)
unfolding label_round
labels_from zero labels s = none
labels_from (suc fuel) labels s = elim (label_round s) [
  | malformed ↦ none
  | finished rest ↦ some (labels, rest)
  | label key v rest ↦ labels_from fuel (insert key v labels) rest
]

-- `parseLabels` of a block, given from after its '{'.
unfoldable pub parse_labels : Text → Option (Labels × Text)
unfolding labels_from
parse_labels s = labels_from (suc (length s)) [] s
