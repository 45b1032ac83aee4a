-- ===== src/Recommender/Rules/Capacity.antt =====
-- internal/recommender/rules.go: capacity.
use inference_fabric_autopil.Prelude.{Bool, not, ◌&&◌, ◌||◌, Option, none, some, [], ◌∷◌}
use inference_fabric_autopil.Float.{Float64}
use inference_fabric_autopil.Telemetry.Metric.{above, below, value_or}
use inference_fabric_autopil.Telemetry.Snapshot.{
  Snapshot, greater, less, severity_warning, severity_critical, runtime_vllm,
}
use inference_fabric_autopil.Recommender.Thresholds.{Thresholds}
use inference_fabric_autopil.Recommender.Eval.{Eval, sustained, trend}
use inference_fabric_autopil.Recommender.Rules.Defs.{
  Finding, Rule, find_if, evidence_of, observation, source_metric, code_queue_with_saturated_gpu,
  code_queue_with_idle_gpu, code_queue_growing, code_queue_deferred, code_e2e_latency_high,
}

module _ {A : Type 0} ⦃F : Float64 A⦄ where
  -- Queueing with a busy GPU.
  unfoldable pub is_saturated : Thresholds A → Snapshot A → Bool
  is_saturated t s =
      above s.requests_waiting t.queue_waiting_requests
      && above s.gpu_utilization_pct t.gpu_util_high_pct

  unfoldable pub eval_queue_with_saturated_gpu : Eval A → Option (Finding A)
  unfolding is_saturated
  eval_queue_with_saturated_gpu e =
      let s = e.latest in
      let t = e.t in
      find_if (sustained e (is_saturated e.t)) e (
        evidence_of "requests_waiting" (source_metric s.runtime "requests_waiting")
          s.requests_waiting.value t.queue_waiting_requests greater "requests"
        ∷ evidence_of "gpu_utilization_percent" (source_metric s.runtime "gpu_utilization_percent")
            s.gpu_utilization_pct.value t.gpu_util_high_pct greater "percent"
        ∷ observation "requests_running" (source_metric s.runtime "requests_running")
            (value_or s.requests_running (F.of_nat 0)) "requests"
        ∷ [])

  unfoldable pub queue_with_saturated_gpu : Rule A
  queue_with_saturated_gpu = record {
    code = code_queue_with_saturated_gpu;
    severity = severity_warning;
    runtimes = [];
    supersedes = code_e2e_latency_high ∷ [];
    eval = eval_queue_with_saturated_gpu;
  }

  -- Queueing with an idle GPU.
  unfoldable pub is_idle_queueing : Thresholds A → Snapshot A → Bool
  is_idle_queueing t s =
      above s.requests_waiting t.queue_waiting_requests
      && below s.gpu_utilization_pct t.gpu_util_low_pct

  unfoldable pub eval_queue_with_idle_gpu : Eval A → Option (Finding A)
  unfolding is_idle_queueing
  eval_queue_with_idle_gpu e =
      let s = e.latest in
      let t = e.t in
      find_if (sustained e (is_idle_queueing e.t)) e (
        evidence_of "requests_waiting" (source_metric s.runtime "requests_waiting")
          s.requests_waiting.value t.queue_waiting_requests greater "requests"
        ∷ evidence_of "gpu_utilization_percent" (source_metric s.runtime "gpu_utilization_percent")
            s.gpu_utilization_pct.value t.gpu_util_low_pct less "percent"
        ∷ observation "kv_cache_usage_percent" (source_metric s.runtime "kv_cache_usage_percent")
            (value_or s.kv_cache_usage_pct (F.of_nat 0)) "percent"
        ∷ [])

  unfoldable pub queue_with_idle_gpu : Rule A
  queue_with_idle_gpu = record {
    code = code_queue_with_idle_gpu;
    severity = severity_warning;
    runtimes = [];
    supersedes = code_e2e_latency_high ∷ [];
    eval = eval_queue_with_idle_gpu;
  }

  unfoldable pub eval_queue_growing : Eval A → Option (Finding A)
  eval_queue_growing e =
      let s = e.latest in
      let t = e.t in
      elim (trend e (λ x. x.requests_waiting)) [
        | none ↦ none
        | some delta ↦
            find_if
              (not (
                not (above s.requests_waiting t.queue_waiting_requests) || F.le delta (F.of_nat 1)))
              e
              (observation "requests_waiting" (source_metric s.runtime "requests_waiting")
                  s.requests_waiting.value "requests"
                ∷ evidence_of "requests_waiting_trend" "" delta (F.of_nat 1) greater
                    "requests per window"
                ∷ [])
      ]

  unfoldable pub queue_growing : Rule A
  queue_growing = record {
    code = code_queue_growing;
    severity = severity_critical;
    runtimes = [];
    supersedes = [];
    eval = eval_queue_growing;
  }

  unfoldable pub eval_queue_deferred : Eval A → Option (Finding A)
  eval_queue_deferred e =
      let s = e.latest in
      let total = F.add s.waiting_deferred.value s.waiting_for_capacity.value in
      find_if
        (not (not s.waiting_deferred.ok || not s.waiting_for_capacity.ok)
          && not (
              F.le total e.t.queue_waiting_requests
              || F.le s.waiting_deferred.value s.waiting_for_capacity.value))
        e
        (observation "waiting_deferred" (source_metric s.runtime "waiting_deferred")
            s.waiting_deferred.value "requests"
          ∷ observation "waiting_for_capacity" (source_metric s.runtime "waiting_for_capacity")
              s.waiting_for_capacity.value "requests"
          ∷ [])

  unfoldable pub queue_deferred : Rule A
  queue_deferred = record {
    code = code_queue_deferred;
    severity = severity_warning;
    runtimes = runtime_vllm ∷ [];
    supersedes = code_queue_with_saturated_gpu ∷ code_queue_with_idle_gpu ∷ [];
    eval = eval_queue_deferred;
  }
