-- ===== src/Checks/Promtext.antt =====
-- A payload with labels, a histogram and a line that does not parse.
use inference_fabric_autopil.Prelude.{
  ℕ, ◌≡◌, refl, ◌⊎◌, if◌then◌else◌, get_elem?, ◌&&◌, inr, true, false, some, get_last?, List, [],
  ◌∷◌, ◌++◌, All, Elem, map,
}
use inference_fabric_autopil.Prelude.Texts.{Text, codes, text_eq, has_prefix}
use inference_fabric_autopil.Prelude.Maps.{lookup, insert}
use inference_fabric_autopil.Float.Sample.{Num, num, infinity, sample, sample_text, sample-Lawful}
use inference_fabric_autopil.Promtext.Labels.{Labels, matches, parse_labels}
use inference_fabric_autopil.Promtext.Labels.Rounds.{Run, parse_labels-Run}
use inference_fabric_autopil.Promtext.Labels.Printed.{print_labels}
use inference_fabric_autopil.Promtext.Labels.RoundTrip.{parse_labels-print_labels}
use inference_fabric_autopil.Promtext.Sample.{Sample, parse_sample, parse_value, valid_metric_name}
use inference_fabric_autopil.Promtext.Sample.Printed.{print_sample}
use inference_fabric_autopil.Promtext.Sample.RoundTrip.{parse_sample-print_sample}
use inference_fabric_autopil.Promtext.Families.{
  MetricFamilies, Reader, parse, parse_lines, no_families, select, max,
}
use inference_fabric_autopil.Promtext.Families.Lines.{keep, line_samples, select-parse}
use inference_fabric_autopil.Promtext.Families.Counted.{
  accounted, data_lines, accounted-parse_lines,
}
use inference_fabric_autopil.Promtext.Families.Largest.{numbers, max-greatest}
use inference_fabric_autopil.Promtext.Quantile.{Bucket, buckets, estimate}
use inference_fabric_autopil.Promtext.Quantile.Clamped.{IsNondecreasing, buckets-IsNondecreasing}
use inference_fabric_autopil.Promtext.Quantile.Rank.{
  BeginsAt, finite_boundaries, on_line, estimate-first_bucket,
}
use inference_fabric_autopil.Promtext.Words.{raw_lines, is_space}

-- A quote, a backslash and a line feed.
abbrev odd : Text
odd = 34 ∷ 92 ∷ 10 ∷ codes "n}"

abbrev two_labels : Labels
two_labels = (codes "le", codes "10") ∷ (codes "path", odd) ∷ []

abbrev payload : Text
payload =
    codes "# TYPE up gauge"
    ++ 10 ∷ codes "up{job="
    ++ 34 ∷ codes "a"
    ++ 34 ∷ codes "} 1"
    ++ 10 ∷ codes "up{job="
    ++ 34 ∷ codes "b"
    ++ 34 ∷ codes "} 2 1699"
    ++ 10 ∷ codes "lat_bucket{le="
    ++ 34 ∷ codes "10"
    ++ 34 ∷ codes "} 4"
    ++ 10 ∷ codes "lat_bucket{le="
    ++ 34 ∷ codes "20"
    ++ 34 ∷ codes "} 8"
    ++ 10 ∷ codes "lat_bucket{le="
    ++ 34 ∷ codes "+Inf"
    ++ 34 ∷ codes "} 8"
    ++ 10 ∷ codes "not a number"
    ++ 10 ∷ []

abbrev lines : List Text
lines = codes "up 1" ∷ codes "# HELP up" ∷ codes " up NaN" ∷ codes "up x" ∷ []

abbrev families : MetricFamilies Num
families = parse_lines (raw_lines payload) no_families

abbrev reader : Reader
reader = record { bytes = payload; fails = false }

-- The escapes of the block are undone, and the later bytes are left.
labels_read : parse_labels (print_labels two_labels (codes " 7")) ≡ some (two_labels, codes " 7")
unfolding is_space lookup text_eq
labels_read =
    parse_labels-print_labels two_labels (codes " 7") (refl, (refl, tt)) (refl, (refl, tt))

-- The counts of the payload's buckets.
counts_read :
    map (λ (b : Bucket Num). b.count) (buckets (codes "lat") [] families)
    ≡ num 4 ∷ num 8 ∷ num 8 ∷ []
unfolding buckets parse_lines raw_lines lookup has_prefix text_eq insert
counts_read = refl

parse_labels-Run_example :
    Run [] (print_labels two_labels []) (parse_labels (print_labels two_labels []))
parse_labels-Run_example = parse_labels-Run (print_labels two_labels [])

parse_sample-print_sample_example :
    parse_sample
      (print_sample (codes "vllm:num_requests_running") two_labels (codes "12") (codes "1699"))
    ≡ some
        (record { name = codes "vllm:num_requests_running"; labels = two_labels; value = num 12 })
unfolding valid_metric_name is_space lookup text_eq parse_value
parse_sample-print_sample_example =
    parse_sample-print_sample (codes "vllm:num_requests_running") two_labels (codes "12")
      (codes "1699") (num 12) refl (refl, (refl, tt)) (refl, (refl, tt)) refl refl refl

select-parse_example :
    (mf : MetricFamilies Num) × (parse reader ≡ inr mf)
    × ((name : Text) (want : Labels)
        → select name want mf
          ≡ keep
              (λ s. text_eq name s.name && matches s.labels want)
              (line_samples (raw_lines reader.bytes)))
unfolding raw_lines
select-parse_example = select-parse reader refl refl

accounted-parse_lines_example :
    accounted (parse_lines lines (no_families {A = Num})) ≡ data_lines lines
accounted-parse_lines_example = accounted-parse_lines Num lines

max-greatest_example :
    All
      (λ s. sample.le s.value (max (codes "up") [] families).0 ≡ true)
      (numbers (select (codes "up") [] families))
    × (((max (codes "up") [] families).0 ≡ num 0)
        ⊎ ((s : Sample Num) × Elem s (select (codes "up") [] families)
            × (sample.is_nan s.value ≡ false)
            × ((max (codes "up") [] families).0 ≡ s.value)))
unfolding max lookup parse_lines raw_lines has_prefix text_eq insert
max-greatest_example = max-greatest sample-Lawful refl (codes "up") [] families refl

buckets-IsNondecreasing_example : IsNondecreasing (buckets (codes "lat") [] families)
buckets-IsNondecreasing_example = buckets-IsNondecreasing sample-Lawful (codes "lat") [] families

abbrev bucket : Num → ℕ → Bucket Num
bucket le count = record { le = le; count = num count }

abbrev three_buckets : List (Bucket Num)
three_buckets = bucket (num 20) 8 ∷ bucket infinity 9 ∷ []

abbrev first : Bucket Num
first = bucket (num 10) 4

-- The rank 6 lies halfway between 10, which counts 4, and 20, which counts 8; the last bucket that
-- is reached for the rank 9 has no finite boundary.
abbrev all_buckets : List (Bucket Num)
all_buckets = first ∷ three_buckets

beyond_last : estimate all_buckets (num 9) ≡ some (num 20)
unfolding estimate
beyond_last = refl

estimate-first_bucket_example :
    (i : ℕ) × (c : Bucket Num) × (lower : Num) × (below : Num) × (get_elem? all_buckets i ≡ some c)
    × (sample.le (num 6) c.count ≡ true)
    × BeginsAt all_buckets (num 6) i lower below
    × (estimate all_buckets (num 6) ≡ (
        if sample_text.is_pos_inf c.le
        then get_last? (finite_boundaries all_buckets)
        else some (on_line lower below c (num 6))))
estimate-first_bucket_example = estimate-first_bucket first three_buckets (num 6) refl
