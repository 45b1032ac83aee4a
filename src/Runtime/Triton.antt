-- ===== src/Runtime/Triton.antt =====
-- internal/runtime/triton/triton.go: a payload of Triton as a reading, and the models it names.
use inference_fabric_autopil.Prelude.{
  ℕ, Bool, true, ◌&&◌, none, some, List, [], ◌∷◌, ◌⊎◌, inl, inr, map, if◌then◌else◌,
}
use inference_fabric_autopil.Prelude.Texts.{Text, codes, text_lt}
use inference_fabric_autopil.Prelude.Maps.{insert}
use inference_fabric_autopil.Prelude.Sort.{sort_by}
use inference_fabric_autopil.Float.{Float64, FloatText}
use inference_fabric_autopil.Telemetry.Metric.{Metric, observed, unmeasured}
use inference_fabric_autopil.Telemetry.Snapshot.{runtime_triton}
use inference_fabric_autopil.Promtext.Words.{is_empty}
use inference_fabric_autopil.Promtext.Labels.{Labels, value_at}
use inference_fabric_autopil.Promtext.Sample.{Sample, one_of}
use inference_fabric_autopil.Promtext.Families.{
  MetricFamilies, ParseError, select, sum, max, parse_string,
}
use inference_fabric_autopil.Promtext.Quantile.{summary_quantile}
use inference_fabric_autopil.Runtime.{
  Reading, Seen, mark, missing_from, count_if, observed_of, snapshot_of, select_model,
}

abbrev pub request_success : Text
request_success = codes "nv_inference_request_success"

abbrev pub request_failure : Text
request_failure = codes "nv_inference_request_failure"

abbrev pub pending_count : Text
pending_count = codes "nv_inference_pending_request_count"

abbrev pub request_duration_us : Text
request_duration_us = codes "nv_inference_request_duration_us"

abbrev pub queue_duration_us : Text
queue_duration_us = codes "nv_inference_queue_duration_us"

abbrev pub request_summary_us : Text
request_summary_us = codes "nv_inference_request_summary_us"

abbrev pub queue_summary_us : Text
queue_summary_us = codes "nv_inference_queue_summary_us"

abbrev pub gpu_utilization : Text
gpu_utilization = codes "nv_gpu_utilization"

abbrev pub gpu_memory_used : Text
gpu_memory_used = codes "nv_gpu_memory_used_bytes"

abbrev pub gpu_memory_total : Text
gpu_memory_total = codes "nv_gpu_memory_total_bytes"

-- `ExpectedMetrics`
unfoldable pub expected_metrics : List Text
expected_metrics =
    request_success ∷ request_failure ∷ pending_count ∷ request_duration_us ∷ queue_duration_us
    ∷ gpu_utilization ∷ gpu_memory_used ∷ gpu_memory_total ∷ request_summary_us ∷ queue_summary_us
    ∷ []

-- `optionalMetrics[name]`
unfoldable pub optional_metric : Text → Bool
optional_metric name = one_of name (request_summary_us ∷ queue_summary_us ∷ [])

abbrev pub mark_if : Text → Bool → Seen → Seen
mark_if name ok seen = if ok then insert name true seen else seen

module _ {A : Type 0} ⦃F : Float64 A⦄ ⦃T : FloatText A⦄ where
  -- A percentile of a summary family, of microseconds, in milliseconds.
  unfoldable pub summary_ms : MetricFamilies A → Labels → Text → ℕ → Seen → Seen × Metric A
  unfolding summary_quantile observed
  summary_ms mf sel family percent seen =
      elim (summary_quantile family (F.div (F.of_nat percent) (F.of_nat 100)) sel mf) [
        | none ↦ (seen, unmeasured)
        | some v ↦ (insert family true seen, observed (F.div v (F.of_nat 1000)))
      ]

  unfoldable pub gpu_max : MetricFamilies A → Text → A × Bool
  unfolding max
  gpu_max mf name = max name [] mf

  -- `Parse` from the families on.
  unfoldable pub read_families : MetricFamilies A → Text → Reading A
  unfolding sum mark summary_ms gpu_max observed missing_from expected_metrics optional_metric
  read_families mf model_name =
      let sel = select_model (codes "model") model_name in
      let pending = sum pending_count sel mf in
      let s1 = mark pending_count pending.1 [] in
      let success = sum request_success sel mf in
      let s2 = mark request_success success.1 s1 in
      let failure = sum request_failure sel mf in
      let s3 = mark request_failure failure.1 s2 in
      let (s4, latency_50) = summary_ms mf sel request_summary_us 50 s3 in
      let (s5, latency_95) = summary_ms mf sel request_summary_us 95 s4 in
      let (s6, latency_99) = summary_ms mf sel request_summary_us 99 s5 in
      let (s7, queue_95) = summary_ms mf sel queue_summary_us 95 s6 in
      let request_duration = sum request_duration_us sel mf in
      let s8 = mark request_duration_us request_duration.1 s7 in
      let queue_duration = sum queue_duration_us sel mf in
      let s9 = mark queue_duration_us queue_duration.1 s8 in
      let (util, util_ok) = gpu_max mf gpu_utilization in
      let (used, used_ok) = gpu_max mf gpu_memory_used in
      let (total, total_ok) = gpu_max mf gpu_memory_total in
      let s10 =
        insert gpu_memory_total total_ok
          (insert gpu_memory_used used_ok (mark_if gpu_utilization util_ok s9)) in
      record {
        snapshot = record (snapshot_of runtime_triton model_name) {
          requests_waiting = observed_of pending;
          p50_latency_ms = latency_50;
          p95_latency_ms = latency_95;
          p99_latency_ms = latency_99;
          queue_time_p95_ms = queue_95;
          gpu_utilization_pct =
              if util_ok then observed (F.mul util (F.of_nat 100)) else unmeasured;
          gpu_memory_used_pct =
              if used_ok && (total_ok && F.lt (F.of_nat 0) total)
              then observed (F.mul (F.div used total) (F.of_nat 100))
              else unmeasured;
        };
        counters =
            count_if (codes "requests_failed") failure
              (count_if (codes "requests_finished") success []);
        missing = missing_from optional_metric expected_metrics s10;
        unparseable_lines = mf.lines_skipped;
      }

  -- `Parse`
  unfoldable pub read_payload : Text → Text → ParseError ⊎ Reading A
  unfolding read_families parse_string
  read_payload payload model_name = elim (parse_string payload) [
    | inl e ↦ inl e
    | inr mf ↦ inr (read_families mf model_name)
  ]

module _ {A : Type 0} where
  -- The loop of `Models` over the series of one metric; the set is a map to true.
  unfoldable pub add_models : List (Sample A) → Seen → Seen
  unfolding value_at
  add_models [] set = set
  add_models (s ∷ ss) set =
      let m = value_at s.labels (codes "model") in
      add_models ss (if is_empty m then set else insert m true set)

  unfoldable pub models_of : MetricFamilies A → List Text
  unfolding add_models select
  models_of mf = sort_by text_lt (
      map (λ e. e.0)
        (add_models (select request_duration_us [] mf)
          (add_models (select pending_count [] mf) (add_models (select request_success [] mf) []))))

module _ (A : Type 0) ⦃T : FloatText A⦄ where
  -- `Models`
  unfoldable pub models : Text → ParseError ⊎ List Text
  unfolding models_of parse_string
  models payload = elim (parse_string {A = A} payload) [
    | inl e ↦ inl e
    | inr mf ↦ inr (models_of mf)
  ]
