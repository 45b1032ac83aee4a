-- ===== src/Metrics/Exposition.antt =====
-- internal/metrics/registry.go: `Write`, as the lines that it prints.
pub mod Parsed
use Prim.Native.String.{String}
use inference_fabric_autopil.Prelude.{
  ℕ, ◌+◌, ◌/◌, Bool, true, false, Option, none, some, List, [], ◌∷◌, ◌++◌, map, ◌==◌, if◌then◌else◌,
}
use inference_fabric_autopil.Prelude.Int.{ℤ, pos_part, ◌-ℤ◌}
use inference_fabric_autopil.Prelude.Texts.{Text, codes, text_lt}
use inference_fabric_autopil.Prelude.Sort.{sort_by}
use inference_fabric_autopil.Float.{Float64}
use inference_fabric_autopil.Recommender.Rules.Observability.{seconds}
use inference_fabric_autopil.Metrics.Registry.{
  TargetStats, TargetEntry, AlertStats, BuildInfo, DatabaseStats, Registry, by_target, count_at,
}

-- `esc`
unfoldable pub esc : Text → Text
esc [] = []
esc (c ∷ s) =
    let rest = esc s in
    if c == 92
    then 92 ∷ 92 ∷ rest
    else if c == 34
    then 92 ∷ 34 ∷ rest
    else if c == 10
    then 92 ∷ 110 ∷ rest
    else c ∷ rest

-- The two lines that `fam` prints.
unfoldable pub fam : Text → String → String → List Text
fam name help typ =
    (codes "# HELP " ++ name ++ codes " " ++ codes help)
    ∷ (codes "# TYPE " ++ name ++ codes " " ++ codes typ)
    ∷ []

-- A line without labels.
abbrev pub plain_line : Text → Text → Text
plain_line name value = name ++ codes " " ++ value

module _ {A : Type 0} where
  -- A line of a target.
  unfoldable pub target_line : Text → TargetEntry A → Text → Text
  unfolding esc
  target_line name e value =
      name
      ++ (codes "{workload=\""
          ++ (esc e.workload
              ++ (codes "\",runtime=\"" ++ (esc e.runtime ++ (codes "\"} " ++ value)))))

  -- A family with a line for each target.
  unfoldable pub target_family :
      Text → String → String → (TargetEntry A → Text) → List (TargetEntry A) → List Text
  unfolding fam target_line
  target_family name help typ value es =
      fam name help typ ++ map (λ e. target_line name e (value e)) es

-- How fmt prints a count with %d and a float with a number of decimals.
pub record Format (A : Type 0) : Type 0 where
  pub decimal : ℕ → Text
  pub fixed : ℕ → A → Text

abbrev pub counter_family : Text → String → String → Text → List Text
counter_family name help typ value = fam name help typ ++ plain_line name value ∷ []

module _ {A : Type 0} ⦃F : Float64 A⦄ (f : Format A) where
  -- The Unix time of an instant after 1970, 0 where there is none.
  abbrev pub unix_time : Option ℤ → A
  unix_time none = F.of_nat 0
  unix_time (some t) = F.of_nat (pos_part t / 1_000_000_000)

  -- The families with a line for each target.
  unfoldable pub target_families : List (TargetEntry A) → List Text
  unfolding target_family
  target_families es =
      target_family (codes "ifa_scrapes_total") "Successful scrapes, by target workload." "counter"
        (λ e. f.decimal e.stats.scrapes) es
      ++ target_family (codes "ifa_scrape_errors_total") "Failed scrapes, by target workload."
          "counter" (λ e. f.decimal e.stats.errors) es
      ++ target_family (codes "ifa_scrape_duration_milliseconds")
          "Duration of the most recent successful scrape, by target workload." "gauge"
          (λ e. f.fixed 3 e.stats.last_duration_ms) es
      ++ target_family (codes "ifa_last_successful_scrape_timestamp_seconds")
          "Unix time of the most recent successful scrape, by target workload. Alert on time() minus this rather than on error counters: a target that stopped being scraped at all increments no error counter."
          "gauge" (λ e. f.fixed 0 (unix_time e.stats.last_success)) es
      ++ target_family (codes "ifa_target_missing_metrics")
          "Expected runtime metrics absent from the most recent scrape, by target workload. Non-zero means some rules cannot be evaluated for that workload."
          "gauge" (λ e. f.decimal e.stats.missing_metrics) es

  -- The lines of the sink's counters, where it is configured.
  abbrev pub database_families : Option DatabaseStats → List Text
  database_families none = []
  database_families (some d) =
      counter_family (codes "ifa_database_writes_total")
        "Telemetry rows written to the durable backend." "counter" (f.decimal d.written)
      ++ counter_family (codes "ifa_database_write_failures_total")
          "Telemetry rows the durable backend rejected." "counter" (f.decimal d.failed)
      ++ counter_family (codes "ifa_database_dropped_total")
          "Telemetry rows dropped because the write queue was full. Non-zero means history is incomplete; diagnostics are unaffected."
          "counter" (f.decimal d.dropped)

  -- The lines of the alert sender's counters, where it is configured.
  abbrev pub alert_families : Option AlertStats → List Text
  alert_families none = []
  alert_families (some a) =
      counter_family (codes "ifa_alerts_sent_total")
        "Alerts delivered to the webhook endpoint, by transition rather than by evaluation: a finding that holds for an hour is sent once."
        "counter" (f.decimal a.sent)
      ++ counter_family (codes "ifa_alert_failures_total")
          "Alerts the webhook endpoint did not accept, after retries. Delivery is at most once, so these alerts are not resent: alert on any increase."
          "counter" (f.decimal a.failed)
      ++ counter_family (codes "ifa_alerts_dropped_total")
          "Alerts dropped because the send queue was full, meaning the endpoint is slower than findings are produced. Diagnostics are unaffected; the API still reports every finding."
          "counter" (f.decimal a.dropped)
      ++ counter_family (codes "ifa_alerts_suppressed_total")
          "Findings not sent because they were already open and unchanged. Expected to be large and growing: this is the deduplication working, not a fault."
          "counter" (f.decimal a.suppressed)
      ++ counter_family (codes "ifa_alerts_open")
          "Findings currently delivered and not yet resolved." "gauge" (f.decimal a.open_count)

  abbrev pub build_line : BuildInfo → Text
  build_line b =
      codes "ifa_build_info{version=\""
      ++ esc b.version
      ++ codes "\",commit=\""
      ++ esc b.commit
      ++ codes "\",go_version=\""
      ++ esc b.go_version
      ++ codes "\"} 1"

  abbrev pub severity_line : Text → ℕ → Text
  severity_line severity n =
      codes "ifa_recommendations_total{severity=\"" ++ esc severity ++ codes "\"} " ++ f.decimal n

  -- `Write`
  unfoldable pub write_lines : ℤ → Registry A → List Text
  unfolding target_families fam esc sort_by count_at seconds
  write_lines now r =
      fam (codes "ifa_build_info") "Build metadata for the running control plane." "gauge"
      ++ build_line r.build
        ∷ counter_family (codes "ifa_uptime_seconds") "Seconds since the control plane started."
            "gauge" (f.fixed 3 (seconds (now -ℤ r.started)))
      ++ target_families (sort_by by_target r.targets)
      ++ counter_family (codes "ifa_store_snapshots") "Telemetry snapshots retained in memory."
          "gauge" (f.decimal r.store_size)
      ++ fam (codes "ifa_recommendations_total")
          "Recommendations produced across all analysis runs, by severity." "counter"
      ++ map (λ s. severity_line s (count_at s r.by_severity))
          (sort_by text_lt (map (λ e. e.0) r.by_severity))
      ++ counter_family (codes "ifa_active_recommendations")
          "Recommendations produced by the most recent analysis run." "gauge" (f.decimal r.active)
      ++ database_families r.database
      ++ alert_families r.alerts
