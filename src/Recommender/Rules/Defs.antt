-- ===== src/Recommender/Rules/Defs.antt =====
-- internal/recommender: rules, findings, evidence and the rule codes.
use Prim.Native.String.{String}
use text.Mathlib.Text.{◌==◌ as str_eq}
use inference_fabric_autopil.Prelude.{
  Bool, true, false, ◌||◌, if◌then◌else◌, Option, none, some, List, [],
}
use inference_fabric_autopil.Prelude.Int.{ℤ}
use inference_fabric_autopil.Prelude.Texts.{Text, codes, text_eq}
use inference_fabric_autopil.Float.{Float64}
use inference_fabric_autopil.Telemetry.Snapshot.{
  Evidence, Comparison, context, runtime_vllm, runtime_triton,
}
use inference_fabric_autopil.Recommender.Eval.{Eval, eval_span}

-- An empty severity means the rule's.
pub record Finding (A : Type 0) : Type 0 where
  pub evidence : List (Evidence A)
  pub severity : Text
  pub window : ℤ

pub record Rule (A : Type 0) : Type 0 where
  pub code : Text
  pub severity : Text
  pub runtimes : List Text
  pub supersedes : List Text
  pub eval : Eval A → Option (Finding A)

module _ {A : Type 0} where
  -- A finding over the sustain window, where the rule's condition holds.
  unfoldable pub find_if : Bool → Eval A → List (Evidence A) → Option (Finding A)
  find_if true e evidence =
      some (record { evidence = evidence; severity = []; window = eval_span e })
  find_if false e evidence = none

  -- `evidence`
  unfoldable pub evidence_of : String → String → A → A → Comparison → String → Evidence A
  evidence_of metric source observed threshold comparison unit = record {
    metric = metric;
    source = source;
    observed = observed;
    threshold = threshold;
    comparison = comparison;
    unit = unit;
  }

  -- `observation`, whose threshold is the zero value.
  unfoldable pub observation : ⦃F : Float64 A⦄ → String → String → A → String → Evidence A
  observation ⦃F⦄ metric source observed unit = record {
    metric = metric;
    source = source;
    observed = observed;
    threshold = F.of_nat 0;
    comparison = context;
    unit = unit;
  }

unfoldable vllm_metric : String → String
vllm_metric field =
    if str_eq field "requests_waiting"
    then "vllm:num_requests_waiting"
    else if str_eq field "requests_running"
    then "vllm:num_requests_running"
    else if str_eq field "waiting_for_capacity" || str_eq field "waiting_deferred"
    then "vllm:num_requests_waiting_by_reason"
    else if str_eq field "kv_cache_usage_percent"
    then "vllm:kv_cache_usage_perc"
    else if str_eq field "preemptions_per_sec"
    then "vllm:num_preemptions_total"
    else if str_eq field "ttft_p95_ms" || str_eq field "ttft_p50_ms"
    then "vllm:time_to_first_token_seconds"
    else if str_eq field "p95_latency_ms" || str_eq field "p99_latency_ms"
    then "vllm:e2e_request_latency_seconds"
    else if str_eq field "queue_time_p95_ms"
    then "vllm:request_queue_time_seconds"
    else if str_eq field "tokens_per_second"
    then "vllm:generation_tokens_total"
    else if str_eq field "prefix_cache_hit_rate_percent"
    then "vllm:prefix_cache_hits_total / vllm:prefix_cache_queries_total"
    else ""

unfoldable triton_metric : String → String
triton_metric field =
    if str_eq field "requests_waiting"
    then "nv_inference_pending_request_count"
    else if str_eq field "gpu_utilization_percent"
    then "nv_gpu_utilization"
    else if str_eq field "gpu_memory_used_percent"
    then "nv_gpu_memory_used_bytes / nv_gpu_memory_total_bytes"
    else if str_eq field "error_rate_percent"
    then "nv_inference_request_failure / nv_inference_request_success"
    else if str_eq field "queue_time_p95_ms"
    then "nv_inference_queue_duration_us"
    else ""

-- `sourceMetric`
unfoldable pub source_metric : Text → String → String
unfolding vllm_metric triton_metric
source_metric rt field =
    if text_eq rt runtime_vllm
    then vllm_metric field
    else if text_eq rt runtime_triton
    then triton_metric field
    else ""

abbrev pub code_queue_with_saturated_gpu : Text
code_queue_with_saturated_gpu = codes "IFA-CAP-001"

abbrev pub code_queue_with_idle_gpu : Text
code_queue_with_idle_gpu = codes "IFA-CAP-002"

abbrev pub code_queue_growing : Text
code_queue_growing = codes "IFA-CAP-003"

abbrev pub code_queue_deferred : Text
code_queue_deferred = codes "IFA-CAP-004"

abbrev pub code_kv_preemption : Text
code_kv_preemption = codes "IFA-KV-001"

abbrev pub code_kv_near_capacity : Text
code_kv_near_capacity = codes "IFA-KV-002"

abbrev pub code_ttft_admission_bound : Text
code_ttft_admission_bound = codes "IFA-LAT-001"

abbrev pub code_ttft_prefill_bound : Text
code_ttft_prefill_bound = codes "IFA-LAT-002"

abbrev pub code_e2e_latency_high : Text
code_e2e_latency_high = codes "IFA-LAT-003"

abbrev pub code_tail_latency_gap : Text
code_tail_latency_gap = codes "IFA-LAT-004"

abbrev pub code_prefix_cache_ineffective : Text
code_prefix_cache_ineffective = codes "IFA-EFF-001"

abbrev pub code_low_token_throughput : Text
code_low_token_throughput = codes "IFA-EFF-002"

abbrev pub code_gpu_memory_pressure : Text
code_gpu_memory_pressure = codes "IFA-EFF-003"

abbrev pub code_error_rate_high : Text
code_error_rate_high = codes "IFA-ERR-001"

abbrev pub code_client_aborts : Text
code_client_aborts = codes "IFA-ERR-002"

abbrev pub code_at_replica_ceiling : Text
code_at_replica_ceiling = codes "IFA-SCL-001"

abbrev pub code_replicas_not_ready : Text
code_replicas_not_ready = codes "IFA-SCL-002"

abbrev pub code_telemetry_incomplete : Text
code_telemetry_incomplete = codes "IFA-OBS-001"

abbrev pub code_telemetry_stale : Text
code_telemetry_stale = codes "IFA-OBS-002"
