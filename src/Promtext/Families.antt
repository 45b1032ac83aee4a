-- ===== src/Promtext/Families.antt =====
-- internal/promtext/parse.go: `Parse` and the samples of one scrape by metric name.
pub mod Lines
pub mod Counted
pub mod Largest
use inference_fabric_autopil.Prelude.{
  ℕ, suc, Bool, true, false, Option, none, some, List, [], ◌∷◌, ◌++◌, map, all, length, ltb,
  if◌then◌else◌, ◌⊎◌, inl, inr, not,
}
use inference_fabric_autopil.Prelude.Texts.{Text, codes, text_lt, has_prefix}
use inference_fabric_autopil.Prelude.Maps.{Map, lookup, insert}
use inference_fabric_autopil.Prelude.Sort.{sort_by}
use inference_fabric_autopil.Float.{Float64, FloatText}
use inference_fabric_autopil.Promtext.Words.{is_empty, trim_space, raw_lines}
use inference_fabric_autopil.Promtext.Labels.{Labels, matches}
use inference_fabric_autopil.Promtext.Sample.{Sample, parse_sample, parse_type_comment}

-- `MetricFamilies`
pub record MetricFamilies (A : Type 0) : Type 0 where
  pub samples : Map (List (Sample A))
  pub types : Map Text
  pub lines_skipped : ℕ

-- Why `Parse` returns an error.
pub data ParseError : Type 0 where
  -- bufio.ErrTooLong
  line_too_long : ParseError
  read_failed : ParseError

-- A reader: the bytes it delivers, and whether it fails after them.
pub record Reader : Type 0 where
  pub bytes : Text
  pub fails : Bool

-- The length of a line that the scanner's buffer cannot hold with its '\n'.
abbrev pub max_line : ℕ
max_line = 1048576

module _ {A : Type 0} where
  -- `m[k]` of a map of slices, the empty slice where the key is missing.
  unfoldable pub samples_at : Text → Map (List (Sample A)) → List (Sample A)
  samples_at name m = elim (lookup name m) [ none ↦ [] | some ss ↦ ss ]

  unfoldable pub add_sample : Sample A → MetricFamilies A → MetricFamilies A
  unfolding samples_at
  add_sample s mf = record mf {
    samples = insert s.name (samples_at s.name mf.samples ++ s ∷ []) mf.samples;
  }

  unfoldable pub add_type : Option (Text × Text) → MetricFamilies A → MetricFamilies A
  add_type none mf = mf
  add_type (some (family, typ)) mf = record mf { types = insert family typ mf.types }

  unfoldable pub add_parsed : Option (Sample A) → MetricFamilies A → MetricFamilies A
  unfolding add_sample
  add_parsed none mf = record mf { lines_skipped = suc mf.lines_skipped }
  add_parsed (some s) mf = add_sample s mf

  abbrev pub no_families : MetricFamilies A
  no_families = record { samples = []; types = []; lines_skipped = 0 }

module _ {A : Type 0} ⦃T : FloatText A⦄ where
  -- The body of the loop, for a line that is trimmed.
  unfoldable pub parse_line : Text → MetricFamilies A → MetricFamilies A
  unfolding add_type add_parsed parse_type_comment parse_sample
  parse_line line mf =
      if is_empty line
      then mf
      else if has_prefix (codes "#") line
      then add_type (parse_type_comment line) mf
      else add_parsed (parse_sample line) mf

  unfoldable pub parse_lines : List Text → MetricFamilies A → MetricFamilies A
  unfolding parse_line trim_space
  parse_lines [] mf = mf
  parse_lines (l ∷ ls) mf = parse_lines ls (parse_line (trim_space l) mf)

  -- `Parse`. The '\r' that bufio.ScanLines drops at the end of a line is a space to trim_space.
  unfoldable pub parse : Reader → ParseError ⊎ MetricFamilies A
  unfolding parse_lines raw_lines
  parse r =
      let lines = raw_lines r.bytes in
      if not (all (λ l. ltb (length l) max_line) lines)
      then inl line_too_long
      else if r.fails
      then inl read_failed
      else inr (parse_lines lines no_families)

  -- `ParseString`
  unfoldable pub parse_string : Text → ParseError ⊎ MetricFamilies A
  unfolding parse
  parse_string s = parse (record { bytes = s; fails = false })

module _ {A : Type 0} where
  -- `Type`
  unfoldable pub family_type : Text → MetricFamilies A → Option Text
  family_type family mf = lookup family mf.types

  unfoldable pub names : MetricFamilies A → List Text
  names mf = sort_by text_lt (map (λ e. e.0) mf.samples)

  -- The loop of `Select`.
  unfoldable pub matching : Labels → List (Sample A) → List (Sample A)
  unfolding matches
  matching want [] = []
  matching want (s ∷ ss) =
      let rest = matching want ss in if matches s.labels want then s ∷ rest else rest

  unfoldable pub select : Text → Labels → MetricFamilies A → List (Sample A)
  unfolding matching samples_at
  select name [] mf = samples_at name mf.samples
  select name (w ∷ want) mf = matching (w ∷ want) (samples_at name mf.samples)

module _ {A : Type 0} ⦃F : Float64 A⦄ where
  -- The body of the loop of `Sum`, on the total and whether a value is found.
  unfoldable pub sum_one : Sample A → A × Bool → A × Bool
  sum_one s (total, found) =
      if F.is_nan s.value then (total, found) else (F.add total s.value, true)

  unfoldable pub sum_samples : List (Sample A) → A × Bool → A × Bool
  unfolding sum_one
  sum_samples [] acc = acc
  sum_samples (s ∷ ss) acc = sum_samples ss (sum_one s acc)

  unfoldable pub sum : Text → Labels → MetricFamilies A → A × Bool
  unfolding sum_samples select
  sum name want mf = sum_samples (select name want mf) (F.of_nat 0, false)

  -- The body of the loop of `Max`, on the best value and whether one is found.
  unfoldable pub max_one : Sample A → A × Bool → A × Bool
  max_one s (best, found) =
      if F.is_nan s.value
      then (best, found)
      else (if F.lt best s.value then s.value else best, true)

  unfoldable pub max_samples : List (Sample A) → A × Bool → A × Bool
  unfolding max_one
  max_samples [] acc = acc
  max_samples (s ∷ ss) acc = max_samples ss (max_one s acc)

module _ {A : Type 0} ⦃F : Float64 A⦄ ⦃T : FloatText A⦄ where
  unfoldable pub max : Text → Labels → MetricFamilies A → A × Bool
  unfolding max_samples select
  max name want mf =
      let (best, found) = max_samples (select name want mf) (T.neg_inf, false) in
      if found then (best, true) else (F.of_nat 0, false)
