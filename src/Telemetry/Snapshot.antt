-- ===== src/Telemetry/Snapshot.antt =====
-- internal/telemetry/types.go: snapshots, severities, evidence and recommendations.
use Prim.Native.String.{String}
use Prim.Native.Nat.{◌/◌, ◌%◌}
use inference_fabric_autopil.Prelude.{ℕ, if◌then◌else◌, List, [], ◌++◌}
use inference_fabric_autopil.Prelude.Int.{ℤ, ◌-ℤ◌, sub_ℕ, pos_part, neg_part}
use inference_fabric_autopil.Prelude.Texts.{Text, codes, text_eq}
use inference_fabric_autopil.Telemetry.Metric.{Metric}

-- `Runtime` is a string type.
abbrev pub runtime_vllm : Text
runtime_vllm = codes "vllm"

abbrev pub runtime_triton : Text
runtime_triton = codes "triton"

-- Instants are nanoseconds since a fixed epoch.
pub record Snapshot (A : Type 0) : Type 0 where
  pub timestamp : ℤ
  pub cluster_name : Text
  pub namespace : Text
  pub workload_name : Text
  pub runtime : Text
  pub model_name : Text
  pub request_rate_per_sec : Metric A
  pub tokens_per_second : Metric A
  pub prompt_tokens_per_sec : Metric A
  pub p50_latency_ms : Metric A
  pub p95_latency_ms : Metric A
  pub p99_latency_ms : Metric A
  pub ttft_p50_ms : Metric A
  pub ttft_p95_ms : Metric A
  pub ttft_p99_ms : Metric A
  pub queue_time_p95_ms : Metric A
  pub requests_running : Metric A
  pub requests_waiting : Metric A
  pub waiting_for_capacity : Metric A
  pub waiting_deferred : Metric A
  pub gpu_utilization_pct : Metric A
  pub gpu_memory_used_pct : Metric A
  pub kv_cache_usage_pct : Metric A
  pub preemptions_per_sec : Metric A
  pub prefix_cache_hit_rate_pct : Metric A
  pub error_rate_pct : Metric A
  pub abort_rate_pct : Metric A
  pub replicas : Metric A
  pub ready_replicas : Metric A
  pub max_replicas : Metric A
  pub scrape_duration_ms : Metric A
  pub metrics_missing : List Text

unfoldable pub age : {A : Type 0} → Snapshot A → ℤ → ℤ
age s now = now -ℤ s.timestamp

-- `Snapshot.Key` and `Target.Key`
unfoldable pub workload_key : Text → Text → Text
workload_key namespace name = if text_eq namespace [] then name else namespace ++ codes "/" ++ name

unfoldable pub key : {A : Type 0} → Snapshot A → Text
unfolding workload_key
key s = workload_key s.namespace s.workload_name

-- `d / time.Second` and `d % time.Second`, both truncated toward zero.
unfoldable pub whole_seconds : ℤ → ℤ
whole_seconds d = sub_ℕ (pos_part d / 1_000_000_000) (neg_part d / 1_000_000_000)

unfoldable pub spare_nanoseconds : ℤ → ℤ
spare_nanoseconds d = sub_ℕ (pos_part d % 1_000_000_000) (neg_part d % 1_000_000_000)

-- `Severity` is a string type; the empty string is "not set".
abbrev pub severity_info : Text
severity_info = codes "info"

abbrev pub severity_warning : Text
severity_warning = codes "warning"

abbrev pub severity_critical : Text
severity_critical = codes "critical"

-- `Severity.Rank`
unfoldable pub rank : Text → ℕ
rank s =
    if text_eq s severity_critical
    then 0
    else if text_eq s severity_warning
    then 1
    else if text_eq s severity_info
    then 2
    else 3

-- The strings of `Evidence.Comparison`.
pub data Comparison : Type 0 where
  greater less at_least context : Comparison

pub record Evidence (A : Type 0) : Type 0 where
  pub metric : String
  pub source : String
  pub observed : A
  pub threshold : A
  pub comparison : Comparison
  pub unit : String

-- A diagnosis, without the text for people (Title, Explanation, SuggestedAction).
pub record Recommendation (A : Type 0) : Type 0 where
  pub id : Text
  pub code : Text
  pub severity : Text
  pub namespace : Text
  pub workload_name : Text
  pub runtime : Text
  pub evidence : List (Evidence A)
  pub observed_at : ℤ
  pub window_seconds : ℤ
