-- ===== src/Promtext/Labels/Rounds.antt =====
-- The rounds of the label block: each leaves a shorter text, so that the fuel of `parse_labels`
-- is enough.
use inference_fabric_autopil.Prelude.{
  ℕ, zero, suc, ◌≤◌, ◌<◌, ◌≡◌, refl, Bool, Option, none, some, [], ◌∷◌, length, ◌==◌, arith,
  Bool-cases, Option-cases, inl, inr, ◌||◌,
}
use inference_fabric_autopil.Prelude.Texts.{Text}
use inference_fabric_autopil.Prelude.Maps.{insert}
use inference_fabric_autopil.Promtext.Words.{split_where, trim_space}
use inference_fabric_autopil.Promtext.Labels.{
  Labels, cons_value, unescaped, skip_separators, read_value, Round, finished, label, malformed,
  read_quoted, read_label, round_after, label_round, labels_from, parse_labels,
}

cons_value-eq_some :
    (c : ℕ) (o : Option (Text × Text)) {v rest : Text}
    → cons_value c o ≡ some (v, rest)
    → (w : Text) × (o ≡ some (w, rest))
cons_value-eq_some c none h = cc
cons_value-eq_some c (some (w, r)) h = (w, cc)

-- A value that is read leaves a text that is shorter.
length-read_value :
    (s : Text) {v rest : Text} → read_value s ≡ some (v, rest) → length rest < length s
unfolding read_value
length-read_value [] h = cc
length-read_value (c ∷ []) h = ground arith
length-read_value (c ∷ d ∷ s) {v} {rest} h = elim (Bool-cases (c == 92)) [
  | inl e ↦ omega (
    arith,
    length-read_value s
        (cons_value-eq_some (unescaped d) (read_value s) (rw (e, read_value) at h)).1,
  )
  | inr e ↦ elim (Bool-cases (c == 34)) [
    | inl q ↦ ground arith
    | inr q ↦ omega (
      arith,
      length-read_value (d ∷ s)
          (cons_value-eq_some c (read_value (d ∷ s)) (rw (e, q, read_value) at h)).1,
    )
  ]
]

length-split_where :
    (p : ℕ → Bool) (s : Text) {before after : Text}
    → split_where p s ≡ some (before, after)
    → length after ≤ length s
unfolding split_where
length-split_where p [] h = cc
length-split_where p (c ∷ s) {before} {after} h = elim (Option-cases (split_where p s)) [
  | inl e ↦ ground arith
  | inr ((b, a), e) ↦ ground (arith, length-split_where p s e)
]

length-skip_separators : (s : Text) → length (skip_separators s) ≤ length s
unfolding skip_separators
length-skip_separators [] = omega arith
length-skip_separators (c ∷ s) = ground (arith, length-skip_separators s)

length-read_quoted :
    (key s : Text) {k v rest : Text} → read_quoted key s ≡ label k v rest → length rest < length s
unfolding read_quoted
length-read_quoted key [] h = cc
length-read_quoted key (c ∷ s) {k} {v} {rest} h = elim (Option-cases (read_value s)) [
  | inl e ↦ ground arith
  | inr ((w, r), e) ↦ ground (arith, length-read_value s e)
]

length-read_label :
    (s : Text) {k v rest : Text} → read_label s ≡ label k v rest → length rest < length s
unfolding read_label
length-read_label s {k} {v} {rest} h =
    elim (Option-cases (split_where (λ c. c == 61 || c == 125) s)) [
      | inl e ↦ ground arith
      | inr ((key, []), e) ↦ ground arith
      | inr ((key, c ∷ t), e) ↦ elim (Bool-cases (c == 61)) [
        | inl eq ↦ omega (
          arith,
          length-split_where (λ c. c == 61 || c == 125) s e,
          length-read_quoted (trim_space key) t (rw (e, eq, read_label) at h),
        )
        | inr ne ↦ ground arith
      ]
    ]

length-round_after :
    (s : Text) {k v rest : Text} → round_after s ≡ label k v rest → length rest < length s
unfolding round_after
length-round_after [] h = cc
length-round_after (c ∷ s) {k} {v} {rest} h = elim (Bool-cases (c == 125)) [
  | inl e ↦ ground arith
  | inr e ↦ length-read_label (c ∷ s) (rw e at h)
]

pub length-label_round :
    (s : Text) {k v rest : Text} → label_round s ≡ label k v rest → length rest < length s
unfolding label_round
length-label_round s h =
    omega (arith, length-round_after (skip_separators s) h, length-skip_separators s)

-- A run of the outer loop, from the labels so far and the text that is left to the result. It has
-- finitely many rounds, and no result but that of its last round.
pub data Run : Labels → Text → Option (Labels × Text) → Type 0 where
  stops : (labels : Labels) (s : Text) → label_round s ≡ malformed → Run labels s none
  ends :
      (labels : Labels) (s rest : Text)
      → label_round s ≡ finished rest
      → Run labels s (some (labels, rest))
  continues :
      (labels : Labels) (s key v rest : Text) {o : Option (Labels × Text)}
      → label_round s ≡ label key v rest
      → length rest < length s
      → Run (insert key v labels) rest o
      → Run labels s o

labels_from-Run :
    (n : ℕ) (labels : Labels) (s : Text) → length s < n → Run labels s (labels_from n labels s)
unfolding labels_from
labels_from-Run zero labels s h = absurd (omega arith)
labels_from-Run (suc n) labels s h =
    go (label_round s) refl
      (λ key v rest shorter. labels_from-Run n (insert key v labels) rest (omega arith))
  where
    go :
        (r : Round)
        → label_round s ≡ r
        → ((key v rest : Text)
            → length rest < length s
            → Run (insert key v labels) rest (labels_from n (insert key v labels) rest))
        → Run labels s (labels_from (suc n) labels s)
    go malformed e later = rw (e, labels_from) (stops labels s e)
    go (finished rest) e later = rw (e, labels_from) (ends labels s rest e)
    go (label key v rest) e later =
        let shorter = length-label_round s e in
        rw (e, labels_from) (continues labels s key v rest e shorter (later key v rest shorter))

-- The loop over the label block ends on every text: `parse_labels` yields the result of a run of
-- finitely many rounds, each of which leaves a shorter text. It yields nothing only where a round
-- finds the block malformed, never for want of fuel, and labels where a round comes to the '}'.
pub parse_labels-Run : (s : Text) → Run [] s (parse_labels s)
unfolding parse_labels
parse_labels-Run s = labels_from-Run (suc (length s)) [] s (omega arith)
