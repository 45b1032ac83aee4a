-- ===== src/Promtext/Sample/Printed.antt =====
-- A series line as exporters print it, and how the words and the name of it are found.
use inference_fabric_autopil.Prelude.{
  ℕ, ◌≡◌, refl, ◌∙◌, Bool, true, false, ◌&&◌, ◌||◌, not, none, some, List, [], ◌∷◌, ◌++◌, all, ◌==◌,
  arith, append-nil,
}
use inference_fabric_autopil.Prelude.Texts.{Text}
use inference_fabric_autopil.Promtext.Words.{
  is_space, is_empty, words, fields, split_where, trim_space,
}
use inference_fabric_autopil.Promtext.Labels.{Labels}
use inference_fabric_autopil.Promtext.Labels.Printed.{
  print_labels, split_where-append, all-weaker, trim_space_fixed,
}
use inference_fabric_autopil.Promtext.Sample.{is_letter, is_digit, valid_metric_name}

-- The bytes of a number as a line prints it: no space and no '{'.
abbrev pub is_number_byte : ℕ → Bool
is_number_byte c = not (is_space c) && not (c == 123)

abbrev pub is_number : Text → Bool
is_number v = not (is_empty v) && all is_number_byte v

-- The optional timestamp, after a space.
abbrev pub print_stamp : Text → Text
print_stamp [] = []
print_stamp (c ∷ s) = 32 ∷ c ∷ s

-- The value and the timestamp, after a space.
abbrev pub print_fields : Text → Text → Text
print_fields v stamp = 32 ∷ v ++ print_stamp stamp

-- A line without braces where there is no label.
abbrev pub print_sample : Text → Labels → Text → Text → Text
print_sample name [] v stamp = name ++ print_fields v stamp
print_sample name (e ∷ labels) v stamp =
    name ++ 123 ∷ print_labels (e ∷ labels) (print_fields v stamp)

words-append :
    (v t : Text) → all is_number_byte v ≡ true → words (v ++ t) ≡ (v ++ (words t).0, (words t).1)
unfolding words
words-append [] t h = refl
words-append (c ∷ v) t h = rw (words-append v t (ground arith), is_false, words) refl
  where
    is_false : is_space c ≡ false
    is_false = ground arith

words-print_stamp : (stamp : Text) → (words (print_stamp stamp)).0 ≡ []
unfolding words is_space
words-print_stamp [] = refl
words-print_stamp (c ∷ s) = refl

-- The fields after a space: the word that follows, which is not empty, and the later ones.
fields-space :
    (t w : Text) (ws : List Text)
    → words t ≡ (w, ws)
    → is_empty w ≡ false
    → fields (32 ∷ t) ≡ w ∷ ws
unfolding fields words is_space
fields-space t [] ws e h = cc
fields-space t (c ∷ w) ws e h = rw (e, words) refl

-- The value is the first field.
pub fields-print_fields :
    (v stamp : Text)
    → is_number v ≡ true
    → fields (print_fields v stamp) ≡ v ∷ (words (print_stamp stamp)).1
fields-print_fields v stamp h =
    fields-space (v ++ print_stamp stamp) v (words (print_stamp stamp)).1
      (words-append v (print_stamp stamp) (ground arith)
        ∙ rw (words-print_stamp stamp, append-nil v) refl)
      (ground arith)

valid_metric_name-all :
    (name : Text) → valid_metric_name name ≡ true → all (λ c. is_letter c || is_digit c) name ≡ true
unfolding valid_metric_name
valid_metric_name-all [] h = cc
valid_metric_name-all (c ∷ s) h = ground arith

-- What a test refuses on letters and digits, it refuses on a metric name.
pub valid_metric_name-weaker :
    (q : ℕ → Bool) (name : Text)
    → ((c : ℕ) → (is_letter c || is_digit c) ≡ true → q c ≡ true)
    → valid_metric_name name ≡ true
    → all q name ≡ true
valid_metric_name-weaker q name f h =
    all-weaker (λ c. is_letter c || is_digit c) q f name (valid_metric_name-all name h)

pub trim_space-name : (name : Text) → valid_metric_name name ≡ true → trim_space name ≡ name
unfolding is_letter is_digit is_space
trim_space-name name h =
    trim_space_fixed name
      (valid_metric_name-weaker (λ c. not (is_space c)) name (λ c q. ground arith) h)

pub split_where-brace :
    (name block : Text)
    → valid_metric_name name ≡ true
    → split_where (λ c. c == 123) (name ++ 123 ∷ block) ≡ some (name, 123 ∷ block)
unfolding is_letter is_digit
split_where-brace name block h =
    split_where-append (λ c. c == 123) name 123 block
      (valid_metric_name-weaker (λ c. not (c == 123)) name (λ c q. ground arith) h) refl

pub split_where-space :
    (name rest : Text)
    → valid_metric_name name ≡ true
    → split_where (λ c. c == 32 || c == 9) (name ++ 32 ∷ rest) ≡ some (name, 32 ∷ rest)
unfolding is_letter is_digit
split_where-space name rest h =
    split_where-append (λ c. c == 32 || c == 9) name 32 rest
      (valid_metric_name-weaker (λ c. not (c == 32 || c == 9)) name (λ c q. ground arith) h) refl

pub split_where-none :
    (p : ℕ → Bool) (s : Text) → all (λ c. not (p c)) s ≡ true → split_where p s ≡ none
unfolding split_where
split_where-none p [] h = refl
split_where-none p (c ∷ s) h = ground (arith, split_where-none p s)

pub all-append_both :
    (p : ℕ → Bool) (s t : Text) → all p s ≡ true → all p t ≡ true → all p (s ++ t) ≡ true
all-append_both p [] t h k = k
all-append_both p (c ∷ s) t h k = ground (arith, all-append_both p s t)

-- A number and a timestamp have no '{'.
pub print_fields-all :
    (v stamp : Text)
    → is_number v ≡ true
    → all is_digit stamp ≡ true
    → all (λ c. not (c == 123)) (print_fields v stamp) ≡ true
unfolding is_digit
print_fields-all v [] h k =
    all-append_both (λ c. not (c == 123)) v []
      (all-weaker is_number_byte (λ c. not (c == 123)) (λ c q. ground arith) v (ground arith)) refl
print_fields-all v (d ∷ s) h k =
    all-append_both (λ c. not (c == 123)) v (32 ∷ d ∷ s)
      (all-weaker is_number_byte (λ c. not (c == 123)) (λ c q. ground arith) v (ground arith))
      (all-weaker is_digit (λ c. not (c == 123)) (λ c q. ground arith) (d ∷ s) k)
