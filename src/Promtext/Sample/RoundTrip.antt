-- ===== src/Promtext/Sample/RoundTrip.antt =====
-- The round trip of a printed series line.
use inference_fabric_autopil.Prelude.{
  ◌≡◌, refl, sym, ◌∙◌, true, not, Option, none, some, List, [], ◌∷◌, ◌++◌, all, ◌==◌, arith,
  if◌then◌else◌,
}
use inference_fabric_autopil.Prelude.Texts.{Text}
use inference_fabric_autopil.Prelude.Maps.{NodupKeys}
use inference_fabric_autopil.Float.{FloatText}
use inference_fabric_autopil.Promtext.Words.{is_space, words, fields, trim_space}
use inference_fabric_autopil.Promtext.Labels.{Labels, parse_labels}
use inference_fabric_autopil.Promtext.Labels.Printed.{print_labels, IsNamed}
use inference_fabric_autopil.Promtext.Labels.RoundTrip.{parse_labels-print_labels}
use inference_fabric_autopil.Promtext.Sample.{
  parse_value, is_letter, is_digit, valid_metric_name, split_unlabelled, split_name_and_labels,
  sample_of, parse_sample,
}
use inference_fabric_autopil.Promtext.Sample.Printed.{
  fields-print_fields, trim_space-name, split_where-brace, split_where-space, split_where-none,
  all-append_both, print_fields-all, valid_metric_name-weaker, print_stamp, print_fields,
  print_sample, is_number,
}

split_unlabelled-space :
    (name rest : Text)
    → valid_metric_name name ≡ true
    → split_unlabelled (name ++ 32 ∷ rest)
      ≡ (if valid_metric_name (trim_space name) then some (trim_space name, rest, []) else none)
unfolding split_unlabelled
split_unlabelled-space name rest h = rw (split_where-space name rest h, split_unlabelled) refl

split_unlabelled-print_sample :
    (name rest : Text)
    → valid_metric_name name ≡ true
    → split_unlabelled (name ++ 32 ∷ rest) ≡ some (name, rest, [])
split_unlabelled-print_sample name rest h =
    split_unlabelled-space name rest h ∙ rw (trim_space-name name h, h) refl

-- What a label block leaves of a line with a given name.
abbrev of_block : Text → Option (Labels × Text) → Option (Text × Text × Labels)
of_block n none = none
of_block n (some (labels, rest)) = some (n, rest, labels)

split_name_and_labels-brace :
    (name block : Text)
    → valid_metric_name name ≡ true
    → split_name_and_labels (name ++ 123 ∷ block) ≡ (
        if not (valid_metric_name (trim_space name))
        then none
        else of_block (trim_space name) (parse_labels block))
unfolding split_name_and_labels
split_name_and_labels-brace name block h =
    rw (split_where-brace name block h, split_name_and_labels) refl

split_name_and_labels-labelled :
    (name : Text) (labels : Labels) (rest : Text)
    → valid_metric_name name ≡ true
    → IsNamed labels
    → NodupKeys labels
    → split_name_and_labels (name ++ 123 ∷ print_labels labels rest) ≡ some (name, rest, labels)
split_name_and_labels-labelled name labels rest h d u =
    split_name_and_labels-brace name (print_labels labels rest) h
    ∙ rw (trim_space-name name h, h, parse_labels-print_labels labels rest d u) refl

split_name_and_labels-no_brace :
    (line : Text)
    → all (λ c. not (c == 123)) line ≡ true
    → split_name_and_labels line ≡ split_unlabelled line
unfolding split_name_and_labels
split_name_and_labels-no_brace line h =
    rw (split_where-none (λ c. c == 123) line h, split_name_and_labels) refl

name_without_brace :
    (name : Text) → valid_metric_name name ≡ true → all (λ c. not (c == 123)) name ≡ true
unfolding is_letter is_digit
name_without_brace name h =
    valid_metric_name-weaker (λ c. not (c == 123)) name (λ c q. ground arith) h

split_name_and_labels-unlabelled :
    (name v stamp : Text)
    → valid_metric_name name ≡ true
    → is_number v ≡ true
    → all is_digit stamp ≡ true
    → split_name_and_labels (name ++ print_fields v stamp) ≡ some (name, v ++ print_stamp stamp, [])
split_name_and_labels-unlabelled name v stamp h n t =
    split_name_and_labels-no_brace (name ++ print_fields v stamp) (
      all-append_both (λ c. not (c == 123)) name (print_fields v stamp) (name_without_brace name h)
        (print_fields-all v stamp n t))
    ∙ split_unlabelled-print_sample name (v ++ print_stamp stamp) h

fields-leading_space : (t : Text) → fields (32 ∷ t) ≡ fields t
unfolding fields words is_space
fields-leading_space t = refl

module _ {A : Type 0} ⦃T : FloatText A⦄ where
  sample_of-value :
      (name : Text) (labels : Labels) (v : Text) (ws : List Text) (x : A)
      → parse_value v ≡ some x
      → sample_of name labels (v ∷ ws) ≡ some (record { name = name; labels = labels; value = x })
  unfolding sample_of
  sample_of-value name labels v ws x h = rw (h, sample_of) refl

  parse_sample-fields :
      (line name rest : Text) (labels : Labels)
      → split_name_and_labels line ≡ some (name, rest, labels)
      → parse_sample {A = A} line ≡ sample_of name labels (fields rest)
  unfolding parse_sample
  parse_sample-fields line name rest labels h = ground arith

  -- On a line printed with a valid metric name, labels with names as keys, no two the same, whatever
  -- bytes their values hold, a number that has a value and a timestamp or none, `parse_sample` gives
  -- the sample of this name, these labels and this value.
  pub parse_sample-print_sample :
      (name : Text) (labels : Labels) (v stamp : Text) (x : A)
      → valid_metric_name name ≡ true
      → IsNamed labels
      → NodupKeys labels
      → is_number v ≡ true
      → all is_digit stamp ≡ true
      → parse_value v ≡ some x
      → parse_sample {A = A} (print_sample name labels v stamp)
        ≡ some (record { name = name; labels = labels; value = x })
  parse_sample-print_sample name [] v stamp x h d u n t e =
      parse_sample-fields (name ++ print_fields v stamp) name (v ++ print_stamp stamp) []
        (split_name_and_labels-unlabelled name v stamp h n t)
      ∙ rw (sym (fields-leading_space (v ++ print_stamp stamp)), fields-print_fields v stamp n)
          (sample_of-value name [] v (words (print_stamp stamp)).1 x e)
  parse_sample-print_sample name (l ∷ labels) v stamp x h d u n t e =
      parse_sample-fields (print_sample name (l ∷ labels) v stamp) name (print_fields v stamp)
        (l ∷ labels) (split_name_and_labels-labelled name (l ∷ labels) (print_fields v stamp) h d u)
      ∙ rw (fields-print_fields v stamp n)
          (sample_of-value name (l ∷ labels) v (words (print_stamp stamp)).1 x e)
