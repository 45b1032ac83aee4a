-- ===== src/Promtext/Families/Counted.antt =====
-- No line of a payload is lost: it is a sample, or it is counted as skipped.
use inference_fabric_autopil.Prelude.{
  ℕ, suc, ◌+◌, ◌≡◌, refl, Option, none, some, List, [], ◌∷◌, ◌++◌, length, arith, ap, Option-cases,
  if◌then◌else◌, Bool-cases, inl, inr, length-append,
}
use inference_fabric_autopil.Prelude.Texts.{Text, text_eq, codes, has_prefix}
use inference_fabric_autopil.Prelude.Maps.{Map, lookup, insert}
use inference_fabric_autopil.Float.{FloatText}
use inference_fabric_autopil.Promtext.Words.{is_empty, trim_space}
use inference_fabric_autopil.Promtext.Sample.{Sample, parse_sample, parse_type_comment}
use inference_fabric_autopil.Promtext.Families.{
  MetricFamilies, samples_at, add_sample, add_type, add_parsed, no_families, parse_line,
  parse_lines,
}
use inference_fabric_autopil.Promtext.Families.Lines.{is_data}

module _ {A : Type 0} where
  -- The number of the samples that are kept.
  abbrev pub sample_count : Map (List (Sample A)) → ℕ
  sample_count [] = 0
  sample_count (e ∷ m) = length e.1 + sample_count m

  sample_count-insert_new :
      (k : Text) (v : List (Sample A)) (m : Map (List (Sample A)))
      → lookup k m ≡ none
      → sample_count (insert k v m) ≡ length v + sample_count m
  unfolding insert lookup
  sample_count-insert_new k v [] h = omega arith
  sample_count-insert_new k v (e ∷ m) h = ground (arith, sample_count-insert_new k v m)

  same_value : (v w : List (Sample A)) → some v ≡ some w → v ≡ w
  same_value v w h = cc

  sample_count-insert_old :
      (k : Text) (v w : List (Sample A)) (m : Map (List (Sample A)))
      → lookup k m ≡ some w
      → sample_count (insert k v m) + length w ≡ length v + sample_count m
  unfolding insert lookup
  sample_count-insert_old k v w [] h = cc
  sample_count-insert_old k v w (e ∷ m) h = elim (Bool-cases (text_eq k e.0)) [
    | inl hit ↦ rw hit (omega (arith, ap length (same_value e.1 w (rw hit at h))))
    | inr miss ↦ rw miss (omega (arith, sample_count-insert_old k v w m (rw miss at h)))
  ]

  samples_at-lookup :
      (k : Text) (o : Option (List (Sample A))) (m : Map (List (Sample A)))
      → lookup k m ≡ o
      → samples_at k m ≡ elim o [ none ↦ [] | some ss ↦ ss ]
  unfolding samples_at
  samples_at-lookup k o m h = ap (λ o. elim o [ none ↦ [] | some ss ↦ ss ]) h

  sample_count-insert :
      (k : Text) (s : Sample A) (m : Map (List (Sample A)))
      → sample_count (insert k (samples_at k m ++ s ∷ []) m) ≡ suc (sample_count m)
  sample_count-insert k s m = elim (Option-cases (lookup k m)) [
    | inl e ↦
        rw (samples_at-lookup k none m e) (omega (arith, sample_count-insert_new k (s ∷ []) m e))
    | inr (w, e) ↦
        rw (samples_at-lookup k (some w) m e)
          (omega (arith, sample_count-insert_old k (w ++ s ∷ []) w m e, length-append w (s ∷ [])))
  ]

  -- The lines that a state accounts for.
  abbrev pub accounted : MetricFamilies A → ℕ
  accounted mf = sample_count mf.samples + mf.lines_skipped

  accounted-add_parsed :
      (o : Option (Sample A)) (mf : MetricFamilies A)
      → accounted (add_parsed o mf) ≡ suc (accounted mf)
  unfolding add_parsed add_sample
  accounted-add_parsed none mf = omega arith
  accounted-add_parsed (some s) mf = omega (arith, sample_count-insert s.name s mf.samples)

  accounted-add_type :
      (o : Option (Text × Text)) (mf : MetricFamilies A) → accounted (add_type o mf) ≡ accounted mf
  unfolding add_type
  accounted-add_type none mf = refl
  accounted-add_type (some (family, typ)) mf = refl

-- The lines that are neither blank nor a comment.
abbrev pub data_lines : List Text → ℕ
data_lines [] = 0
data_lines (l ∷ ls) = if is_data (trim_space l) then suc (data_lines ls) else data_lines ls

module _ {A : Type 0} ⦃T : FloatText A⦄ where
  accounted-parse_line :
      (line : Text) (mf : MetricFamilies A)
      → accounted (parse_line line mf) ≡ (if is_data line then suc (accounted mf) else accounted mf)
  unfolding parse_line
  accounted-parse_line line mf = elim (Bool-cases (is_empty line)) [
    | inl e ↦ rw e refl
    | inr e ↦ elim (Bool-cases (has_prefix (codes "#") line)) [
      | inl c ↦ rw (e, c) (accounted-add_type (parse_type_comment line) mf)
      | inr c ↦ rw (e, c) (accounted-add_parsed (parse_sample line) mf)
    ]
  ]

  accounted-parse_lines_from :
      (ls : List Text) (mf : MetricFamilies A)
      → accounted (parse_lines ls mf) ≡ accounted mf + data_lines ls
  unfolding parse_lines
  accounted-parse_lines_from [] mf = omega arith
  accounted-parse_lines_from (l ∷ ls) mf = ground (
    arith,
    accounted-parse_line (trim_space l) mf,
    accounted-parse_lines_from ls (parse_line (trim_space l) mf),
  )

module _ (A : Type 0) ⦃T : FloatText A⦄ where
  -- The samples that the loop of `Parse` keeps and the lines that it counts as skipped are together
  -- as many as the lines that are neither blank nor a comment.
  pub accounted-parse_lines :
      (ls : List Text) → accounted (parse_lines ls (no_families {A = A})) ≡ data_lines ls
  accounted-parse_lines ls = omega (arith, accounted-parse_lines_from ls no_families)
