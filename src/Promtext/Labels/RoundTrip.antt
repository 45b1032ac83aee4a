-- ===== src/Promtext/Labels/RoundTrip.antt =====
-- The round trip of a printed label block.
use inference_fabric_autopil.Prelude.{
  append-nil, append-cons, ℕ, zero, suc, ◌<◌, ◌≡◌, refl, sym, ◌∙◌, none, some, [], ◌∷◌, ◌++◌,
  length, arith, All, All-of_Elem,
}
use inference_fabric_autopil.Prelude.Texts.{Text, text_eq_iff}
use inference_fabric_autopil.Prelude.Maps.{lookup, insert, NodupKeys, lookup-insert-none}
use inference_fabric_autopil.Promtext.Labels.{
  Labels, skip_separators, is_separator, label, round_after, label_round, labels_from, parse_labels,
}
use inference_fabric_autopil.Promtext.Labels.Rounds.{length-label_round}
use inference_fabric_autopil.Promtext.Labels.Printed.{
  print_labels, print_label, print_more, IsNamed, label_round-print_label, label_round-comma,
}

-- The labels inserted one after the other.
abbrev pub insert_all : Labels → Labels → Labels
insert_all acc [] = acc
insert_all acc (e ∷ labels) = insert_all (insert e.0 e.1 acc) labels

labels_from-brace :
    (n : ℕ) (acc : Labels) (rest : Text) → labels_from (suc n) acc (125 ∷ rest) ≡ some (acc, rest)
unfolding labels_from label_round skip_separators round_after is_separator
labels_from-brace n acc rest = refl

labels_from-print_more :
    (n : ℕ) (acc labels : Labels) (rest : Text)
    → IsNamed labels
    → length (print_more labels rest) < n
    → labels_from n acc (print_more labels rest) ≡ some (insert_all acc labels, rest)
unfolding labels_from
labels_from-print_more zero acc labels rest d h = ground arith
labels_from-print_more (suc n) acc [] rest d h = labels_from-brace n acc rest
labels_from-print_more (suc n) acc ((k, v) ∷ labels) rest d h =
    rw (after_comma, labels_from)
      (labels_from-print_more n (insert k v acc) labels rest d.1 (
        omega
          (arith, length-label_round (44 ∷ print_label k v (print_more labels rest)) after_comma)))
  where
    after_comma :
        label_round (44 ∷ print_label k v (print_more labels rest))
        ≡ label k v (print_more labels rest)
    after_comma =
        label_round-comma (print_label k v (print_more labels rest))
        ∙ label_round-print_label k v (print_more labels rest) d.0

parse_labels-insert_all :
    (labels : Labels) (rest : Text)
    → IsNamed labels
    → parse_labels (print_labels labels rest) ≡ some (insert_all [] labels, rest)
unfolding parse_labels labels_from
parse_labels-insert_all [] rest d = labels_from-brace (length (125 ∷ rest)) [] rest
parse_labels-insert_all ((k, v) ∷ labels) rest d =
    let e = label_round-print_label k v (print_more labels rest) d.0 in
    rw (e, labels_from)
      (labels_from-print_more (length (print_label k v (print_more labels rest))) (insert k v [])
        labels rest d.1 (length-label_round (print_label k v (print_more labels rest)) e))

-- A fresh key is listed last.
insert_fresh : (k v : Text) (m : Labels) → lookup k m ≡ none → insert k v m ≡ m ++ (k, v) ∷ []
unfolding lookup insert
insert_fresh k v [] h = refl
insert_fresh k v (e ∷ m) h = ground (arith, insert_fresh k v m)

-- The keys of the labels are distinct and not yet in the map.
abbrev IsFresh : Labels → Labels → Type 0
IsFresh acc labels = NodupKeys labels × All (λ e. lookup e.0 acc ≡ none) labels

IsFresh-insert :
    (k v : Text) (acc labels : Labels)
    → lookup k labels ≡ none
    → All (λ e. lookup e.0 acc ≡ none) labels
    → All (λ e. lookup e.0 (insert k v acc) ≡ none) labels
unfolding lookup
IsFresh-insert k v acc [] h a = tt
IsFresh-insert k v acc (e ∷ labels) h a = (
  lookup-insert-none k e.0 v acc (ground (arith, text_eq_iff k e.0, text_eq_iff e.0 k)) a.0,
  IsFresh-insert k v acc labels (ground arith) a.1,
)

insert_all_fresh :
    (acc labels : Labels) → IsFresh acc labels → insert_all acc labels ≡ acc ++ labels
insert_all_fresh acc [] h = sym (append-nil acc)
insert_all_fresh acc ((k, v) ∷ labels) h =
    insert_all_fresh (insert k v acc) labels (h.0.1, IsFresh-insert k v acc labels h.0.0 h.1.1)
    ∙ rw (insert_fresh k v acc h.1.0) (append-cons acc (k, v) labels)

-- Of a block that is printed from labels with names as keys, no two the same, `parse_labels` gives
-- back these labels, whatever bytes their values hold, and the text after the closing brace.
pub parse_labels-print_labels :
    (labels : Labels) (rest : Text)
    → IsNamed labels
    → NodupKeys labels
    → parse_labels (print_labels labels rest) ≡ some (labels, rest)
unfolding lookup
parse_labels-print_labels labels rest d h =
    parse_labels-insert_all labels rest d
    ∙ rw
        (insert_all_fresh [] labels
          (h, All-of_Elem (λ e. lookup e.0 [] ≡ none) labels (λ e m. refl)))
        refl
