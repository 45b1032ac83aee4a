-- ===== src/Checks/Collector.antt =====
-- A collector with one target.
use inference_fabric_autopil.Prelude.{
  ℕ, ◌≡◌, refl, true, false, Option, none, some, List, [], ◌∷◌, All, if◌then◌else◌, ◌||◌,
}
use inference_fabric_autopil.Prelude.Int.{pos, leb_ℤ, ◌-ℤ◌}
use inference_fabric_autopil.Prelude.Texts.{Text, codes, text_eq, has_prefix}
use inference_fabric_autopil.Prelude.Maps.{lookup}
use inference_fabric_autopil.Float.Sample.{Num, num, sample, sample-Lawful}
use inference_fabric_autopil.Telemetry.Metric.{Metric, observed_if}
use inference_fabric_autopil.Telemetry.Snapshot.{Snapshot, runtime_vllm}
use inference_fabric_autopil.Alerting.Url.{Url}
use inference_fabric_autopil.Collector.Rates.{rate, forget}
use inference_fabric_autopil.Recommender.Rules.Observability.{seconds}
use inference_fabric_autopil.Collector.Rates.Sequence.{
  Observation, last_seen, after, rate-after, lookup-forget,
}
use inference_fabric_autopil.Collector.Target.{
  Target, validate_target, CollectorOptions, with_defaults, new_collector,
}
use inference_fabric_autopil.Collector.Target.Distinct.{IsDistinct, new_collector_lem}
use inference_fabric_autopil.Runtime.{Reading}
use inference_fabric_autopil.Runtime.Dcgm.{Device}
use inference_fabric_autopil.Collector.Scrape.{ReplicaCounts, max_of, scrape}
use inference_fabric_autopil.Collector.Scrape.Devices.{has_any, Covers, max_of_lem}
use inference_fabric_autopil.Collector.Scrape.Stored.{timed}
use inference_fabric_autopil.Checks.Data.{at_second, busy_at, measured, missing}

abbrev calls : List (Observation Num)
calls =
    record { key = codes "b"; value = num 7; at = at_second 20 }
    ∷ record { key = codes "a"; value = num 100; at = at_second 10 }
    ∷ []

rate-after_example :
    (rate (after calls) (codes "a") (num 300) (at_second 20)).1
    ≡ elim (last_seen (codes "a") calls) [
      | none ↦ none
      | some prev ↦
          let elapsed = seconds (at_second 20 -ℤ prev.at) in
          let change = sample.sub (num 300) prev.value in
          if sample.le elapsed (num 0) || sample.lt change (num 0)
          then none
          else some (sample.div change elapsed)
    ]
rate-after_example = rate-after calls (codes "a") (num 300) (at_second 20)

others_kept : lookup (codes "ml/chat|x") (forget (after calls) (codes "ml/chat")) ≡ (
    if has_prefix (codes "ml/chat") (codes "ml/chat|x")
    then none
    else lookup (codes "ml/chat|x") (after calls))
others_kept = lookup-forget (after calls) (codes "ml/chat") (codes "ml/chat|x")

abbrev target : Target
target = record {
  workload_name = codes "chat";
  namespace = codes "ml";
  runtime = runtime_vllm;
  model_name = codes "m";
  metrics_url = codes "u";
  dcgm_url = [];
  deployment = [];
}

abbrev parse : Text → Option Url
parse raw = some (record { scheme = codes "http"; host = raw; path = [] })

abbrev options : CollectorOptions
options = record {
  has_logger = true;
  interval = pos 0;
  timeout = pos 0;
  max_body_bytes = pos 0;
  concurrency = pos 0;
}

made : new_collector parse true (target ∷ []) options ≡ some (target ∷ [], with_defaults options)
unfolding new_collector text_eq
made = refl

new_collector_lem_example :
    IsDistinct (target ∷ [])
    × All (λ (t : Target). validate_target parse t ≡ true) (target ∷ [])
    × (leb_ℤ (with_defaults options).interval (with_defaults options).timeout ≡ false)
new_collector_lem_example =
    new_collector_lem parse true (target ∷ []) (target ∷ []) options (with_defaults options) made

abbrev device : ℕ → Metric Num → Metric Num → Device Num
device index utilization memory = record {
  index = pos index;
  utilization_pct = utilization;
  mem_copy_util_pct = missing;
  memory_used_mib = missing;
  memory_free_mib = missing;
  memory_used_pct = memory;
  sm_clock_mhz = missing;
  temperature_c = missing;
}

abbrev devices : List (Device Num)
devices = device 0 (measured 40) missing ∷ device 1 (measured 95) (measured 70) ∷ []

largest_device :
    (best : Num) × (max_of (λ d. d.utilization_pct) devices (num 0) false
      ≡ observed_if best (has_any (λ d. d.utilization_pct) devices))
    × Covers sample-Lawful (λ d. d.utilization_pct) best devices
largest_device = max_of_lem sample-Lawful (λ d. d.utilization_pct) devices

abbrev reading : Reading Num
reading = record {
  snapshot = busy_at 0;
  counters = (codes "preemptions", num 4) ∷ [];
  missing = [];
  unparseable_lines = 0;
}

abbrev no_replicas : Text → Text → Option ReplicaCounts
no_replicas namespace name = none

abbrev scraped : Option (Snapshot Num)
scraped =
    (scrape (codes "east") target (some reading) (some devices) no_replicas (at_second 60) []).1

abbrev timed_snapshot : Snapshot Num → Snapshot Num
timed_snapshot = timed (codes "east") target (some devices) no_replicas (at_second 60) [] 12
