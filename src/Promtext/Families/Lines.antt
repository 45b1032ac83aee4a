-- ===== src/Promtext/Families/Lines.antt =====
-- What `Parse` and `Select` keep of the lines of a payload, against a plain list of samples.
use inference_fabric_autopil.Prelude.{
  ◌≡◌, refl, sym, ap, ◌∙◌, Bool, true, false, ◌&&◌, not, Option, none, some, List, [], ◌∷◌, ◌++◌,
  inl, inr, length, all, ltb, arith, if◌then◌else◌, append-nil, Bool-cases,
}
use inference_fabric_autopil.Prelude.Texts.{Text, text_eq, text_eq→eq, codes, has_prefix}
use inference_fabric_autopil.Prelude.Maps.{Map, lookup, insert, lookup-insert}
use inference_fabric_autopil.Float.{FloatText}
use inference_fabric_autopil.Promtext.Words.{is_empty, trim_space, raw_lines}
use inference_fabric_autopil.Promtext.Labels.{Labels, matches}
use inference_fabric_autopil.Promtext.Sample.{Sample, parse_sample, parse_type_comment}
use inference_fabric_autopil.Promtext.Families.{
  MetricFamilies, Reader, max_line, samples_at, add_sample, add_type, add_parsed, no_families,
  parse_line, parse_lines, parse, matching, select,
}

module _ {A : Type 0} where
  abbrev pub keep : (A → Bool) → List A → List A
  keep p [] = []
  keep p (x ∷ xs) = if p x then x ∷ keep p xs else keep p xs

  keep-append : (p : A → Bool) (xs ys : List A) → keep p (xs ++ ys) ≡ keep p xs ++ keep p ys
  keep-append p [] ys = refl
  keep-append p (x ∷ xs) ys = elim (Bool-cases (p x)) [
    | inl e ↦ rw e (ap (λ l. x ∷ l) (keep-append p xs ys))
    | inr e ↦ rw e (keep-append p xs ys)
  ]

  append_assoc : (xs ys zs : List A) → (xs ++ ys) ++ zs ≡ xs ++ (ys ++ zs)
  append_assoc [] ys zs = refl
  append_assoc (x ∷ xs) ys zs = ap (λ l. x ∷ l) (append_assoc xs ys zs)

  keep-and : (p q : A → Bool) (xs : List A) → keep q (keep p xs) ≡ keep (λ x. p x && q x) xs
  keep-and p q [] = refl
  keep-and p q (x ∷ xs) = elim (Bool-cases (p x)) [
    | inl e ↦ rw e (elim (Bool-cases (q x)) [
      | inl d ↦ rw d (ap (λ l. x ∷ l) (keep-and p q xs))
      | inr d ↦ rw d (keep-and p q xs)
    ])
    | inr e ↦ rw e (keep-and p q xs)
  ]

  keep_all : (q : A → Bool) (xs : List A) → ((x : A) → q x ≡ true) → keep q xs ≡ xs
  keep_all q [] h = refl
  keep_all q (x ∷ xs) h = rw (h x) (ap (λ l. x ∷ l) (keep_all q xs h))

  abbrev pub cons_some : Option A → List A → List A
  cons_some none xs = xs
  cons_some (some x) xs = x ∷ xs

-- Whether a line is neither blank nor a comment.
abbrev pub is_data : Text → Bool
is_data line = not (is_empty line) && not (has_prefix (codes "#") line)

module _ {A : Type 0} where
  abbrev named : Text → Sample A → Bool
  named name s = text_eq name s.name

module _ {A : Type 0} ⦃T : FloatText A⦄ where
  -- The sample of a trimmed line, where it is one.
  abbrev pub line_sample : Text → List (Sample A)
  line_sample line = if is_data line then cons_some (parse_sample line) [] else []

  -- The samples of the lines, in their order.
  abbrev pub line_samples : List Text → List (Sample A)
  line_samples [] = []
  line_samples (l ∷ ls) = line_sample (trim_space l) ++ line_samples ls

  samples_at-insert :
      (name k : Text) (v : List (Sample A)) (m : Map (List (Sample A)))
      → samples_at name (insert k v m) ≡ (if text_eq name k then v else samples_at name m)
  unfolding samples_at
  samples_at-insert name k v m = ground (arith, lookup-insert k name v m)

  samples_at-add_sample :
      (name : Text) (s : Sample A) (mf : MetricFamilies A)
      → samples_at name (add_sample s mf).samples
        ≡ samples_at name mf.samples ++ keep (named name) (s ∷ [])
  unfolding add_sample
  samples_at-add_sample name s mf =
      samples_at-insert name s.name (samples_at s.name mf.samples ++ s ∷ []) mf.samples
      ∙ elim (Bool-cases (text_eq name s.name)) [
        | inl e ↦ rw e (rw (text_eq→eq name s.name e) refl)
        | inr e ↦ rw e (sym (append-nil (samples_at name mf.samples)))
      ]

  samples_at-add_type :
      (name : Text) (o : Option (Text × Text)) (mf : MetricFamilies A)
      → samples_at name (add_type o mf).samples ≡ samples_at name mf.samples
  unfolding add_type
  samples_at-add_type name none mf = refl
  samples_at-add_type name (some (family, typ)) mf = refl

  samples_at-add_parsed :
      (name : Text) (o : Option (Sample A)) (mf : MetricFamilies A)
      → samples_at name (add_parsed o mf).samples
        ≡ samples_at name mf.samples ++ keep (named name) (cons_some o [])
  unfolding add_parsed
  samples_at-add_parsed name none mf = sym (append-nil (samples_at name mf.samples))
  samples_at-add_parsed name (some s) mf = samples_at-add_sample name s mf

  samples_at-parse_line :
      (name line : Text) (mf : MetricFamilies A)
      → samples_at name (parse_line line mf).samples
        ≡ samples_at name mf.samples ++ keep (named name) (line_sample line)
  unfolding parse_line
  samples_at-parse_line name line mf = elim (Bool-cases (is_empty line)) [
    | inl e ↦ rw e (sym (append-nil (samples_at name mf.samples)))
    | inr e ↦ elim (Bool-cases (has_prefix (codes "#") line)) [
      | inl c ↦
          rw (e, c)
            (samples_at-add_type name (parse_type_comment line) mf
              ∙ sym (append-nil (samples_at name mf.samples)))
      | inr c ↦ rw (e, c) (samples_at-add_parsed name (parse_sample line) mf)
    ]
  ]

  samples_at-parse_lines :
      (name : Text) (ls : List Text) (mf : MetricFamilies A)
      → samples_at name (parse_lines ls mf).samples
        ≡ samples_at name mf.samples ++ keep (named name) (line_samples ls)
  unfolding parse_lines
  samples_at-parse_lines name [] mf = sym (append-nil (samples_at name mf.samples))
  samples_at-parse_lines name (l ∷ ls) mf =
      samples_at-parse_lines name ls (parse_line (trim_space l) mf)
      ∙ rw (samples_at-parse_line name (trim_space l) mf) (
          append_assoc (samples_at name mf.samples) (keep (named name) (line_sample (trim_space l)))
            (keep (named name) (line_samples ls))
          ∙ ap (λ l. samples_at name mf.samples ++ l)
              (sym (keep-append (named name) (line_sample (trim_space l)) (line_samples ls))))

module _ {A : Type 0} where
  matching-keep :
      (want : Labels) (ss : List (Sample A))
      → matching want ss ≡ keep (λ s. matches s.labels want) ss
  unfolding matching
  matching-keep want [] = refl
  matching-keep want (s ∷ ss) = elim (Bool-cases (matches s.labels want)) [
    | inl e ↦ rw e (ap (λ l. s ∷ l) (matching-keep want ss))
    | inr e ↦ rw e (matching-keep want ss)
  ]

  pub select-keep :
      (name : Text) (want : Labels) (mf : MetricFamilies A)
      → select name want mf ≡ keep (λ s. matches s.labels want) (samples_at name mf.samples)
  unfolding select matches
  select-keep name [] mf =
      sym (keep_all (λ s. matches s.labels []) (samples_at name mf.samples) (λ s. refl))
  select-keep name (w ∷ want) mf = matching-keep (w ∷ want) (samples_at name mf.samples)

module _ {A : Type 0} ⦃T : FloatText A⦄ where
  samples_at-parse_all :
      (name : Text) (ls : List Text)
      → samples_at {A = A} name (parse_lines ls no_families).samples
        ≡ keep (named name) (line_samples ls)
  unfolding samples_at lookup
  samples_at-parse_all name ls = samples_at-parse_lines name ls no_families

  select-parse_lines :
      (name : Text) (want : Labels) (ls : List Text)
      → select {A = A} name want (parse_lines ls no_families)
        ≡ keep (λ s. text_eq name s.name && matches s.labels want) (line_samples ls)
  select-parse_lines name want ls =
      select-keep name want (parse_lines ls no_families)
      ∙ ap (keep (λ s. matches s.labels want)) (samples_at-parse_all name ls)
      ∙ keep-and (named name) (λ s. matches s.labels want) (line_samples ls)

  -- Of a reader that does not fail and has no line of 1 MiB or more, `Parse` makes families, and
  -- `Select` on them gives the samples of the payload's lines that have the name and match the
  -- wanted labels, in the order of the lines; a line is trimmed, and one that is blank or begins
  -- with '#' or does not parse is passed over.
  pub select-parse :
      (r : Reader)
      → all (λ l. ltb (length l) max_line) (raw_lines r.bytes) ≡ true
      → r.fails ≡ false
      → (mf : MetricFamilies A) × (parse r ≡ inr mf)
        × ((name : Text) (want : Labels)
            → select name want mf
              ≡ keep
                  (λ s. text_eq name s.name && matches s.labels want)
                  (line_samples (raw_lines r.bytes)))
  unfolding parse
  select-parse r h f = (
    parse_lines (raw_lines r.bytes) no_families,
    rw (h, f) refl,
    λ name want. select-parse_lines name want (raw_lines r.bytes),
  )
