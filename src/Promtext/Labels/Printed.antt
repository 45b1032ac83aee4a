-- ===== src/Promtext/Labels/Printed.antt =====
-- A label block as exporters print it, and its round trip through `parse_labels`.
use inference_fabric_autopil.Prelude.{
  ℕ, ◌≡◌, refl, ap, ◌∙◌, Bool, true, false, ◌&&◌, ◌||◌, not, some, [], ◌∷◌, ◌++◌, all, ◌==◌, arith,
  if◌then◌else◌,
}
use inference_fabric_autopil.Prelude.Texts.{Text}
use inference_fabric_autopil.Promtext.Words.{
  split_where, is_empty, is_space, trim_space, trim_left, trim_right,
}
use inference_fabric_autopil.Promtext.Labels.{
  Labels, cons_value, unescaped, is_separator, skip_separators, read_value, label, read_quoted,
  read_label, round_after, label_round,
}

-- One byte of a value, as exporters escape it.
abbrev pub escape_one : ℕ → Text → Text
escape_one c s =
    if c == 92
    then 92 ∷ 92 ∷ s
    else if c == 34
    then 92 ∷ 34 ∷ s
    else if c == 10
    then 92 ∷ 110 ∷ s
    else c ∷ s

-- A value from its opening quote to its closing one, before a text.
abbrev pub print_quoted : Text → Text → Text
print_quoted [] rest = 34 ∷ rest
print_quoted (c ∷ v) rest = escape_one c (print_quoted v rest)

-- k="v", before a text.
abbrev pub print_label : Text → Text → Text → Text
print_label k v rest = k ++ 61 ∷ 34 ∷ print_quoted v rest

-- Later labels, each after a comma, and the closing brace.
abbrev pub print_more : Labels → Text → Text
print_more [] rest = 125 ∷ rest
print_more (e ∷ labels) rest = 44 ∷ print_label e.0 e.1 (print_more labels rest)

-- A label block from after its '{'.
abbrev pub print_labels : Labels → Text → Text
print_labels [] rest = 125 ∷ rest
print_labels (e ∷ labels) rest = print_label e.0 e.1 (print_more labels rest)

-- A byte that a name may have: no space, ',', '=' or '}'.
abbrev pub is_name_byte : ℕ → Bool
is_name_byte c = not (is_space c) && (not (c == 44) && (not (c == 61) && not (c == 125)))

abbrev pub is_name : Text → Bool
is_name k = not (is_empty k) && all is_name_byte k

abbrev pub IsNamed : Labels → Type 0
IsNamed [] = Unit
IsNamed (e ∷ labels) = (is_name e.0 ≡ true) × IsNamed labels

read_value-plain :
    (c : ℕ) (s : Text)
    → (c == 92) ≡ false
    → (c == 34) ≡ false
    → read_value (c ∷ s) ≡ cons_value c (read_value s)
unfolding read_value
read_value-plain c [] h k = ground arith
read_value-plain c (d ∷ s) h k = rw (h, k, read_value) refl

read_value-quote : (s : Text) → read_value (34 ∷ s) ≡ some ([], s)
unfolding read_value
read_value-quote [] = refl
read_value-quote (d ∷ s) = refl

read_value-escape_one :
    (c : ℕ) (s v rest : Text)
    → read_value s ≡ some (v, rest)
    → read_value (escape_one c s) ≡ some (c ∷ v, rest)
unfolding read_value unescaped
read_value-escape_one c s v rest h = ground (arith, read_value-plain c s)

-- Reading a printed value gives it back.
read_value-print_quoted : (v rest : Text) → read_value (print_quoted v rest) ≡ some (v, rest)
read_value-print_quoted [] rest = read_value-quote rest
read_value-print_quoted (c ∷ v) rest =
    read_value-escape_one c (print_quoted v rest) v rest (read_value-print_quoted v rest)

pub split_where-append :
    (p : ℕ → Bool) (before : Text) (c : ℕ) (after : Text)
    → all (λ d. not (p d)) before ≡ true
    → p c ≡ true
    → split_where p (before ++ c ∷ after) ≡ some (before, c ∷ after)
unfolding split_where
split_where-append p [] c after h k = rw k refl
split_where-append p (d ∷ before) c after h k =
    ground (arith, split_where-append p before c after (ground arith) k)

pub all-weaker :
    (p q : ℕ → Bool)
    → ((c : ℕ) → p c ≡ true → q c ≡ true)
    → (s : Text) → all p s ≡ true
    → all q s ≡ true
all-weaker p q f [] h = refl
all-weaker p q f (c ∷ s) h = ground (arith, f c, all-weaker p q f s)

trim_right_fixed : (s : Text) → all (λ c. not (is_space c)) s ≡ true → trim_right s ≡ s
unfolding trim_right
trim_right_fixed [] h = refl
trim_right_fixed (c ∷ s) h = ground (arith, trim_right_fixed s)

-- A text without a space is trimmed.
pub trim_space_fixed : (s : Text) → all (λ c. not (is_space c)) s ≡ true → trim_space s ≡ s
unfolding trim_space trim_left
trim_space_fixed [] h = trim_right_fixed [] h
trim_space_fixed (c ∷ s) h = rw is_false (trim_right_fixed (c ∷ s) h)
  where
    is_false : is_space c ≡ false
    is_false = ground arith

-- The first byte of a name begins a key.
skip_separators-name : (k rest : Text) → is_name k ≡ true → skip_separators (k ++ rest) ≡ k ++ rest
unfolding skip_separators is_separator is_space
skip_separators-name [] rest h = cc
skip_separators-name (c ∷ k) rest h = ground arith

read_quoted-print_quoted :
    (k v rest : Text) → is_name k ≡ true → read_quoted k (34 ∷ print_quoted v rest) ≡ label k v rest
unfolding read_quoted
read_quoted-print_quoted [] v rest h = cc
read_quoted-print_quoted (c ∷ k) v rest h = rw (read_value-print_quoted v rest) refl

trim_space-name : (k : Text) → is_name k ≡ true → trim_space k ≡ k
trim_space-name k h =
    trim_space_fixed k
      (all-weaker is_name_byte (λ c. not (is_space c)) (λ c q. ground arith) k (ground arith))

read_label-print_label :
    (k v rest : Text) → is_name k ≡ true → read_label (print_label k v rest) ≡ label k v rest
unfolding read_label
read_label-print_label k v rest h =
    at_equals
    ∙ ap (λ t. read_quoted t (34 ∷ print_quoted v rest)) (trim_space-name k h)
    ∙ read_quoted-print_quoted k v rest h
  where
    at_equals :
        read_label (print_label k v rest) ≡ read_quoted (trim_space k) (34 ∷ print_quoted v rest)
    at_equals =
        rw
          (
            split_where-append (λ c. c == 61 || c == 125) k 61 (34 ∷ print_quoted v rest)
                (all-weaker is_name_byte (λ c. not (c == 61 || c == 125)) (λ c q. ground arith) k
                  (ground arith))
                refl,
            read_label,
          )
          refl

round_after-name :
    (k rest : Text) → is_name k ≡ true → round_after (k ++ rest) ≡ read_label (k ++ rest)
unfolding round_after
round_after-name [] rest h = cc
round_after-name (c ∷ k) rest h = ground arith

-- A round on a printed label reads it.
pub label_round-print_label :
    (k v rest : Text) → is_name k ≡ true → label_round (print_label k v rest) ≡ label k v rest
unfolding label_round
label_round-print_label k v rest h =
    rw
      (
        skip_separators-name k (61 ∷ 34 ∷ print_quoted v rest) h,
        round_after-name k (61 ∷ 34 ∷ print_quoted v rest) h,
      )
      (read_label-print_label k v rest h)

pub label_round-comma : (s : Text) → label_round (44 ∷ s) ≡ label_round s
unfolding label_round skip_separators
label_round-comma s = refl
