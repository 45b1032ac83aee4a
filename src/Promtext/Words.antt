-- ===== src/Promtext/Words.antt =====
-- What internal/promtext/parse.go calls of the Go packages strings and bufio, on bytes. A space is
-- an ASCII space: the other white space of Unicode, which strings.TrimSpace and strings.Fields
-- also know, and the letters outside ASCII of strings.ToLower are left as they are.
use inference_fabric_autopil.Prelude.{
  ℕ, ◌+◌, Bool, true, false, ◌&&◌, ◌||◌, Option, none, some, List, [], ◌∷◌, map, leb, ◌==◌,
  if◌then◌else◌,
}
use inference_fabric_autopil.Prelude.Texts.{Text}

-- '\t', '\n', '\v', '\f', '\r' and ' '
unfoldable pub is_space : ℕ → Bool
is_space c = c == 32 || (leb 9 c && leb c 13)

abbrev pub is_empty : Text → Bool
is_empty [] = true
is_empty (c ∷ s) = false

unfoldable pub trim_left : Text → Text
unfolding is_space
trim_left [] = []
trim_left (c ∷ s) = let rest = trim_left s in if is_space c then rest else c ∷ s

unfoldable pub trim_right : Text → Text
unfolding is_space
trim_right [] = []
trim_right (c ∷ s) = let rest = trim_right s in if is_empty rest && is_space c then [] else c ∷ rest

-- `strings.TrimSpace`
unfoldable pub trim_space : Text → Text
unfolding trim_left trim_right
trim_space s = trim_right (trim_left s)

-- A word before the words that follow it, where it is one.
abbrev pub cons_word : Text → List Text → List Text
cons_word [] ws = ws
cons_word (c ∷ w) ws = (c ∷ w) ∷ ws

-- The word that a text begins with, empty where it begins with a space, and the later words.
unfoldable pub words : Text → Text × List Text
unfolding is_space
words [] = ([], [])
words (c ∷ s) = let (w, ws) = words s in if is_space c then ([], cons_word w ws) else (c ∷ w, ws)

-- `strings.Fields`
unfoldable pub fields : Text → List Text
unfolding words
fields s = let (w, ws) = words s in cons_word w ws

-- The text before the first byte that satisfies a test and the text from it on; with
-- `strings.IndexByte` and `strings.IndexAny`, `line[:i]` and `line[i:]`.
unfoldable pub split_where : (ℕ → Bool) → Text → Option (Text × Text)
split_where p [] = none
split_where p (c ∷ s) =
    let found = split_where p s in
    if p c
    then some ([], c ∷ s)
    else elim found [ none ↦ none | some (before, after) ↦ some (c ∷ before, after) ]

unfoldable pub lower : ℕ → ℕ
lower c = if leb 65 c && leb c 90 then c + 32 else c

-- `strings.ToLower`
unfoldable pub to_lower : Text → Text
unfolding lower
to_lower s = map lower s

-- A byte before the lines that follow.
abbrev pub onto_first : ℕ → List Text → List Text
onto_first c [] = (c ∷ []) ∷ []
onto_first c (l ∷ ls) = (c ∷ l) ∷ ls

-- The lines of a payload, a last line that no '\n' ends included, each with its '\r' still.
unfoldable pub raw_lines : Text → List Text
raw_lines [] = []
raw_lines (c ∷ s) = let rest = raw_lines s in if c == 10 then [] ∷ rest else onto_first c rest
