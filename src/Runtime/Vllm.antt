-- ===== src/Runtime/Vllm.antt =====
-- internal/runtime/vllm/vllm.go: a payload of vLLM as a reading.
pub mod Sound
use inference_fabric_autopil.Prelude.{
  ℕ, Bool, true, false, ◌&&◌, ◌||◌, not, Option, none, some, List, [], ◌∷◌, ◌++◌, ◌⊎◌, inl, inr,
  if◌then◌else◌,
}
use inference_fabric_autopil.Prelude.Texts.{Text, codes, text_eq}
use inference_fabric_autopil.Prelude.Maps.{Map, insert}
use inference_fabric_autopil.Float.{Float64, FloatText}
use inference_fabric_autopil.Telemetry.Metric.{Metric, observed, observed_if, unmeasured}
use inference_fabric_autopil.Telemetry.Snapshot.{Snapshot, runtime_vllm}
use inference_fabric_autopil.Promtext.Labels.{Labels}
use inference_fabric_autopil.Promtext.Sample.{one_of}
use inference_fabric_autopil.Promtext.Families.{MetricFamilies, ParseError, sum, max, parse_string}
use inference_fabric_autopil.Promtext.Quantile.{quantile}
use inference_fabric_autopil.Runtime.{
  Reading, Seen, mark, missing_from, count_if, count_metric, observed_of, snapshot_of, select_model,
}

abbrev pub num_requests_running : Text
num_requests_running = codes "vllm:num_requests_running"

abbrev pub num_requests_waiting : Text
num_requests_waiting = codes "vllm:num_requests_waiting"

abbrev pub num_requests_waiting_by_reason : Text
num_requests_waiting_by_reason = codes "vllm:num_requests_waiting_by_reason"

abbrev pub kv_cache_usage : Text
kv_cache_usage = codes "vllm:kv_cache_usage_perc"

abbrev pub gpu_cache_usage_legacy : Text
gpu_cache_usage_legacy = codes "vllm:gpu_cache_usage_perc"

abbrev pub time_to_first_token : Text
time_to_first_token = codes "vllm:time_to_first_token_seconds"

abbrev pub e2e_latency : Text
e2e_latency = codes "vllm:e2e_request_latency_seconds"

abbrev pub queue_time : Text
queue_time = codes "vllm:request_queue_time_seconds"

abbrev pub prompt_tokens_total : Text
prompt_tokens_total = codes "vllm:prompt_tokens_total"

abbrev pub generation_tokens_total : Text
generation_tokens_total = codes "vllm:generation_tokens_total"

abbrev pub request_success_total : Text
request_success_total = codes "vllm:request_success_total"

abbrev pub preemptions_total : Text
preemptions_total = codes "vllm:num_preemptions_total"

abbrev pub prefix_cache_queries_total : Text
prefix_cache_queries_total = codes "vllm:prefix_cache_queries_total"

abbrev pub prefix_cache_hits_total : Text
prefix_cache_hits_total = codes "vllm:prefix_cache_hits_total"

-- `ExpectedMetrics`
unfoldable pub expected_metrics : List Text
expected_metrics =
    num_requests_running ∷ num_requests_waiting ∷ kv_cache_usage ∷ time_to_first_token ∷ e2e_latency
    ∷ generation_tokens_total ∷ prompt_tokens_total ∷ request_success_total ∷ preemptions_total
    ∷ queue_time ∷ prefix_cache_queries_total ∷ prefix_cache_hits_total
    ∷ num_requests_waiting_by_reason ∷ []

-- `optionalMetrics[name]`
unfoldable pub optional_metric : Text → Bool
optional_metric name = one_of name (
    num_requests_waiting_by_reason ∷ queue_time ∷ prefix_cache_queries_total
    ∷ prefix_cache_hits_total ∷ preemptions_total ∷ [])

-- `cloneWith`
unfoldable pub clone_with : Labels → Text → Text → Labels
clone_with base key value = insert key value base

abbrev pub waiting_capacity : Labels → Labels
waiting_capacity sel = clone_with sel (codes "reason") (codes "capacity")

abbrev pub waiting_deferred_for : Labels → Labels
waiting_deferred_for sel = clone_with sel (codes "reason") (codes "deferred")

abbrev pub finished_aborted : Labels → Labels
finished_aborted sel = clone_with sel (codes "finished_reason") (codes "abort")

module _ {A : Type 0} ⦃F : Float64 A⦄ where
  -- The counters, set in this order where they are measured.
  unfoldable pub counters_of :
      Metric A → Metric A → Metric A → Metric A → Metric A → Metric A → A × Bool → Map A
  counters_of generation prompt preemptions queries hits success aborted =
      let c1 = count_metric (codes "generation_tokens") generation [] in
      let c2 = count_metric (codes "prompt_tokens") prompt c1 in
      let c3 = count_metric (codes "preemptions") preemptions c2 in
      let c4 = count_metric (codes "prefix_cache_queries") queries c3 in
      let c5 = count_metric (codes "prefix_cache_hits") hits c4 in
      let c6 = count_metric (codes "requests_finished") success c5 in
      count_if (codes "requests_aborted") aborted c6

module _ {A : Type 0} ⦃F : Float64 A⦄ ⦃T : FloatText A⦄ where
  -- The local function `sum`.
  unfoldable pub sum_metric : MetricFamilies A → Labels → Text → Seen → Seen × Metric A
  unfolding sum mark observed_if
  sum_metric mf sel name seen =
      let (v, ok) = sum name sel mf in (mark name ok seen, observed_if v ok)

  -- The local function `max`.
  unfoldable pub max_metric : MetricFamilies A → Labels → Text → Seen → Seen × Metric A
  unfolding max mark observed_if
  max_metric mf sel name seen =
      let (v, ok) = max name sel mf in (mark name ok seen, observed_if v ok)

  -- The local function `quantileMs`, of seconds.
  unfoldable pub quantile_ms : MetricFamilies A → Labels → Text → ℕ → Seen → Seen × Metric A
  unfolding quantile mark observed
  quantile_ms mf sel family percent seen =
      elim (quantile family (F.div (F.of_nat percent) (F.of_nat 100)) sel mf) [
        | none ↦ (mark family false seen, unmeasured)
        | some v ↦ (mark family true seen, observed (F.mul v (F.of_nat 1000)))
      ]

  -- The cache usage as a fraction, under the name of V1 or else of V0; it is marked under the first.
  unfoldable pub kv_usage : MetricFamilies A → Labels → Seen → Seen × Metric A
  unfolding max_metric max observed
  kv_usage mf sel seen =
      let (seen, kv) = max_metric mf sel kv_cache_usage seen in
      let (v0, ok0) = max gpu_cache_usage_legacy sel mf in
      if not kv.ok && ok0 then (insert kv_cache_usage true seen, observed v0) else (seen, kv)

  -- `Parse` from the families on.
  unfoldable pub read_families : MetricFamilies A → Text → Reading A
  unfolding sum_metric quantile_ms kv_usage clone_with missing_from expected_metrics sum
  read_families mf model_name =
      let sel = select_model (codes "model_name") model_name in
      let (s1, running) = sum_metric mf sel num_requests_running [] in
      let (s2, waiting) = sum_metric mf sel num_requests_waiting s1 in
      let capacity = sum num_requests_waiting_by_reason (waiting_capacity sel) mf in
      let deferred = sum num_requests_waiting_by_reason (waiting_deferred_for sel) mf in
      let s3 =
        if capacity.1 || deferred.1 then insert num_requests_waiting_by_reason true s2 else s2 in
      let (s4, kv) = kv_usage mf sel s3 in
      let (s5, ttft_50) = quantile_ms mf sel time_to_first_token 50 s4 in
      let (s6, ttft_95) = quantile_ms mf sel time_to_first_token 95 s5 in
      let (s7, ttft_99) = quantile_ms mf sel time_to_first_token 99 s6 in
      let (s8, latency_50) = quantile_ms mf sel e2e_latency 50 s7 in
      let (s9, latency_95) = quantile_ms mf sel e2e_latency 95 s8 in
      let (s10, latency_99) = quantile_ms mf sel e2e_latency 99 s9 in
      let (s11, queue_95) = quantile_ms mf sel queue_time 95 s10 in
      let (s12, generation) = sum_metric mf sel generation_tokens_total s11 in
      let (s13, prompt) = sum_metric mf sel prompt_tokens_total s12 in
      let (s14, preemptions) = sum_metric mf sel preemptions_total s13 in
      let (s15, queries) = sum_metric mf sel prefix_cache_queries_total s14 in
      let (s16, hits) = sum_metric mf sel prefix_cache_hits_total s15 in
      let (s17, success) = sum_metric mf sel request_success_total s16 in
      let aborted = sum request_success_total (finished_aborted sel) mf in
      record {
        snapshot = record (snapshot_of runtime_vllm model_name) {
          requests_running = running;
          requests_waiting = waiting;
          waiting_for_capacity = observed_of capacity;
          waiting_deferred = observed_of deferred;
          kv_cache_usage_pct =
              if kv.ok then observed (F.mul kv.value (F.of_nat 100)) else unmeasured;
          ttft_p50_ms = ttft_50;
          ttft_p95_ms = ttft_95;
          ttft_p99_ms = ttft_99;
          p50_latency_ms = latency_50;
          p95_latency_ms = latency_95;
          p99_latency_ms = latency_99;
          queue_time_p95_ms = queue_95;
        };
        counters = counters_of generation prompt preemptions queries hits success aborted;
        missing = missing_from optional_metric expected_metrics s17;
        unparseable_lines = mf.lines_skipped;
      }

  -- `Parse`
  unfoldable pub read_payload : Text → Text → ParseError ⊎ Reading A
  unfolding read_families parse_string
  read_payload payload model_name = elim (parse_string payload) [
    | inl e ↦ inl e
    | inr mf ↦ inr (read_families mf model_name)
  ]
