-- ===== src/Checks/Metrics.antt =====
-- Two targets, one of them with a quote in its name.
use inference_fabric_autopil.Prelude.{◌+◌, ◌≡◌, refl, List, [], ◌∷◌, ◌++◌, map}
use inference_fabric_autopil.Prelude.Int.{pos}
use inference_fabric_autopil.Prelude.Texts.{Text, codes, text_eq}
use inference_fabric_autopil.Prelude.Maps.{lookup, insert}
use inference_fabric_autopil.Float.Sample.{Num, num, sample, sample_text}
use inference_fabric_autopil.Promtext.Sample.{valid_metric_name, parse_value}
use inference_fabric_autopil.Promtext.Families.Lines.{line_samples}
use inference_fabric_autopil.Promtext.Words.{is_space}
use inference_fabric_autopil.Metrics.Registry.{
  Registry, TargetEntry, new_registry, count_at, record_analysis, count_severities, change_stats,
  record_scrape, record_scrape_error,
}
use inference_fabric_autopil.Metrics.Registry.Recorded.{
  ScrapeEvent, scraped, failed, stats_of, after, scrapes_of, failures_of, stats_of-after,
}
use inference_fabric_autopil.Metrics.Exposition.{target_family}
use inference_fabric_autopil.Metrics.Exposition.Parsed.{target_sample, line_samples-target_family}

abbrev fresh : Registry Num
unfolding new_registry
fresh =
    new_registry
      (record { version = codes "1.2"; commit = codes "ab"; go_version = codes "go1.24" }) (pos 0)

-- A workload with a quote and a line feed in its name.
abbrev odd_name : Text
odd_name = 34 ∷ codes "ml" ++ 10 ∷ []

abbrev events : List ScrapeEvent
events =
    scraped odd_name (codes "vllm") (pos 4_500_000) 1 (pos 7)
    ∷ failed (codes "b") (codes "triton")
    ∷ scraped odd_name (codes "vllm") (pos 2_000_000) 0 (pos 9)
    ∷ []

-- One failed scrape of the second target and two successful ones of the first.
failure_counted : (stats_of (codes "b") (codes "triton") (after events fresh).targets).errors ≡ 1
unfolding record_scrape record_scrape_error change_stats text_eq new_registry
failure_counted = refl

stats_of-after_example :
    ((stats_of odd_name (codes "vllm") (after events fresh).targets).scrapes
      ≡ scrapes_of odd_name (codes "vllm") events
        + (stats_of odd_name (codes "vllm") fresh.targets).scrapes)
    × ((stats_of odd_name (codes "vllm") (after events fresh).targets).errors
        ≡ failures_of odd_name (codes "vllm") events
          + (stats_of odd_name (codes "vllm") fresh.targets).errors)
stats_of-after_example = stats_of-after odd_name (codes "vllm") events fresh

-- The counter of a severity after one run.
warnings_counted :
    count_at
      (codes "warning")
      (record_analysis (codes "info" ∷ codes "warning" ∷ codes "info" ∷ []) fresh).by_severity
    ≡ 1
unfolding record_analysis count_severities count_at text_eq new_registry lookup insert
warnings_counted = refl

abbrev entries : List (TargetEntry Num)
entries = (after events fresh).targets

line_samples-target_family_example :
    line_samples (
      target_family
        (codes "ifa_scrapes_total")
        "Successful scrapes."
        "counter"
        (λ e. codes "12")
        entries)
    ≡ map (λ e. target_sample (codes "ifa_scrapes_total") e (num 12)) entries
unfolding valid_metric_name parse_value is_space record_scrape record_scrape_error change_stats
    text_eq new_registry
line_samples-target_family_example =
    line_samples-target_family (codes "ifa_scrapes_total") "Successful scrapes." "counter"
      (λ e. codes "12") (λ e. num 12) entries refl ((refl, refl), ((refl, refl), tt))
