-- ===== src/Promtext/Quantile.antt =====
-- internal/promtext/parse.go: the buckets of a histogram and the quantiles.
pub mod Clamped
pub mod Rank
use inference_fabric_autopil.Prelude.{
  ℕ, zero, suc, ◌-◌, Bool, true, false, ◌&&◌, ◌||◌, not, Option, none, some, List, [], ◌∷◌, ◌++◌,
  length, get_elem?, ◌==◌, if◌then◌else◌,
}
use inference_fabric_autopil.Prelude.Texts.{Text, codes}
use inference_fabric_autopil.Prelude.Maps.{lookup}
use inference_fabric_autopil.Prelude.Sort.{sort_by}
use inference_fabric_autopil.Float.{Float64, FloatText}
use inference_fabric_autopil.Recommender.Eval.{sort_search}
use inference_fabric_autopil.Promtext.Labels.{Labels}
use inference_fabric_autopil.Promtext.Sample.{Sample, parse_value}
use inference_fabric_autopil.Promtext.Families.{MetricFamilies, select}

-- `bucket`
pub record Bucket (A : Type 0) : Type 0 where
  pub le : A
  pub count : A

module _ {A : Type 0} ⦃F : Float64 A⦄ where
  -- `byLE[le] += v` on a map of floats, whose keys compare as numbers; the key is written again.
  unfoldable pub add_count : A → A → List (Bucket A) → List (Bucket A)
  add_count le v [] = record { le = le; count = F.add (F.of_nat 0) v } ∷ []
  add_count le v (b ∷ bs) =
      if F.le le b.le && F.le b.le le
      then record { le = le; count = F.add b.count v } ∷ bs
      else b ∷ add_count le v bs

  -- `sort.Slice` by the boundary.
  unfoldable pub sort_buckets : List (Bucket A) → List (Bucket A)
  unfolding sort_by
  sort_buckets bs = sort_by (λ a b. F.lt a.le b.le) bs

  -- A count that is less than the one before is raised to it.
  abbrev pub raised : A → Bucket A → Bucket A
  raised previous b = if F.lt b.count previous then record b { count = previous } else b

  -- The clamping loop, after a bucket.
  unfoldable pub clamp_after : A → List (Bucket A) → List (Bucket A)
  clamp_after previous [] = []
  clamp_after previous (b ∷ bs) = raised previous b ∷ clamp_after (raised previous b).count bs

  unfoldable pub clamp : List (Bucket A) → List (Bucket A)
  unfolding clamp_after
  clamp [] = []
  clamp (b ∷ bs) = b ∷ clamp_after b.count bs

module _ {A : Type 0} ⦃F : Float64 A⦄ ⦃T : FloatText A⦄ where
  -- The boundary and the count that a sample adds.
  unfoldable pub bucket_of : Sample A → Option (A × A)
  unfolding parse_value
  bucket_of s = elim (lookup (codes "le") s.labels) [
    | none ↦ none
    | some text ↦ elim (parse_value text) [
      | none ↦ none
      | some le ↦ if F.is_nan le || F.is_nan s.value then none else some (le, s.value)
    ]
  ]

  abbrev pub counted : Option (A × A) → List (Bucket A) → List (Bucket A)
  counted none bs = bs
  counted (some (le, v)) bs = add_count le v bs

  -- The loop that fills `byLE`.
  unfoldable pub count_samples : List (Sample A) → List (Bucket A) → List (Bucket A)
  unfolding bucket_of add_count
  count_samples [] bs = bs
  count_samples (s ∷ ss) bs = count_samples ss (counted (bucket_of s) bs)

  -- `buckets`; no bucket where the code returns false.
  unfoldable pub buckets : Text → Labels → MetricFamilies A → List (Bucket A)
  unfolding count_samples sort_buckets clamp select
  buckets family want mf =
      clamp (sort_buckets (count_samples (select (family ++ codes "_bucket") want mf) []))

  -- Whether the bucket at an index reaches the rank; `sort.Search` stays in range.
  unfoldable pub reaches : List (Bucket A) → A → ℕ → Bool
  reaches bs rank i = elim (get_elem? bs i) [ none ↦ true | some b ↦ F.le rank b.count ]

  -- The last of the boundaries that is not +Inf.
  unfoldable pub largest_finite : List (Bucket A) → Option A
  largest_finite [] = none
  largest_finite (b ∷ bs) = elim (largest_finite bs) [
    | some le ↦ some le
    | none ↦ if T.is_pos_inf b.le then none else some b.le
  ]

  -- The index of the bucket that the rank falls in.
  unfoldable pub bucket_index : List (Bucket A) → A → ℕ
  unfolding sort_search reaches
  bucket_index bs rank =
      let i = sort_search (length bs) (reaches bs rank) in
      if i == length bs then length bs - 1 else i

  -- The interpolation, from the boundary and the count below.
  unfoldable pub interpolated : Bucket A → A → A → A → A
  interpolated b lower below rank =
      let span = F.sub b.count below in
      if F.le span (F.of_nat 0)
      then b.le
      else F.add lower (F.mul (F.sub b.le lower) (F.div (F.sub rank below) span))

  -- The boundary and the count of the bucket before, which are 0 for the first.
  unfoldable pub floor_of : List (Bucket A) → ℕ → A × A
  floor_of bs zero = (F.of_nat 0, F.of_nat 0)
  floor_of bs (suc i) = elim (get_elem? bs i) [
    | none ↦ (F.of_nat 0, F.of_nat 0)
    | some b ↦ (b.le, b.count)
  ]

  -- The estimate in the bucket at an index, which is always in range.
  unfoldable pub estimate_at : List (Bucket A) → A → ℕ → Option A
  unfolding largest_finite floor_of interpolated
  estimate_at bs rank i = elim (get_elem? bs i) [
    | none ↦ none
    | some b ↦
        if T.is_pos_inf b.le
        then largest_finite bs
        else let (lower, below) = floor_of bs i in some (interpolated b lower below rank)
  ]

  -- The estimate for a rank.
  unfoldable pub estimate : List (Bucket A) → A → Option A
  unfolding bucket_index estimate_at
  estimate bs rank = estimate_at bs rank (bucket_index bs rank)

  -- The count of the last bucket.
  abbrev pub total_of : Bucket A → List (Bucket A) → A
  total_of b [] = b.count
  total_of b (c ∷ bs) = total_of c bs

  unfoldable pub quantile_of : List (Bucket A) → A → Option A
  unfolding estimate
  quantile_of [] q = none
  quantile_of (b ∷ bs) q =
      if F.le (total_of b bs) (F.of_nat 0)
      then none
      else estimate (b ∷ bs) (F.mul q (total_of b bs))

  -- `Quantile`; `none` where the code returns false.
  unfoldable pub quantile : Text → A → Labels → MetricFamilies A → Option A
  unfolding quantile_of buckets
  quantile family q want mf =
      if F.le q (F.of_nat 0) || F.le (F.of_nat 1) q || F.is_nan q
      then none
      else quantile_of (buckets family want mf) q

  -- 1e-6, as the quotient of two exact constants.
  abbrev pub tolerance : A
  tolerance = F.div (F.of_nat 1) (F.of_nat 1000000)

  -- Whether a series carries the wanted quantile and a value.
  unfoldable pub is_quantile : A → Sample A → Bool
  unfolding parse_value
  is_quantile q s = elim (lookup (codes "quantile") s.labels) [
    | none ↦ false
    | some raw ↦ elim (parse_value raw) [
      | none ↦ false
      | some got ↦ not (F.lt tolerance (T.abs (F.sub got q))) && not (F.is_nan s.value)
    ]
  ]

  -- The loop of `SummaryQuantile`.
  unfoldable pub first_quantile : A → List (Sample A) → Option A
  unfolding is_quantile
  first_quantile q [] = none
  first_quantile q (s ∷ ss) = if is_quantile q s then some s.value else first_quantile q ss

  unfoldable pub summary_quantile : Text → A → Labels → MetricFamilies A → Option A
  unfolding first_quantile select
  summary_quantile family q want mf = first_quantile q (select family want mf)
