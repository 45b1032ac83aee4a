-- ===== src/Recommender/Rules/Catalogue.antt =====
-- internal/recommender/rules.go: the rule set, in the order of `DefaultRules`.
use inference_fabric_autopil.Prelude.{List, [], ◌∷◌}
use inference_fabric_autopil.Float.{Float64}
use inference_fabric_autopil.Recommender.Rules.Defs.{Rule}
use inference_fabric_autopil.Recommender.Rules.Capacity.{
  queue_with_saturated_gpu, queue_with_idle_gpu, queue_growing, queue_deferred,
}
use inference_fabric_autopil.Recommender.Rules.Cache.{kv_preemption, kv_near_capacity}
use inference_fabric_autopil.Recommender.Rules.Latency.{
  ttft_admission_bound, ttft_prefill_bound, e2e_latency_high, tail_latency_gap,
}
use inference_fabric_autopil.Recommender.Rules.Efficiency.{
  prefix_cache_ineffective, low_token_throughput, gpu_memory_pressure,
}
use inference_fabric_autopil.Recommender.Rules.Errors.{error_rate_high, client_aborts}
use inference_fabric_autopil.Recommender.Rules.Scaling.{at_replica_ceiling, replicas_not_ready}
use inference_fabric_autopil.Recommender.Rules.Observability.{telemetry_incomplete, telemetry_stale}

unfoldable pub default_rules : {A : Type 0} ⦃F : Float64 A⦄ → List (Rule A)
unfolding queue_with_saturated_gpu queue_with_idle_gpu queue_growing queue_deferred kv_preemption
    kv_near_capacity ttft_admission_bound ttft_prefill_bound e2e_latency_high tail_latency_gap
    prefix_cache_ineffective low_token_throughput gpu_memory_pressure error_rate_high client_aborts
    at_replica_ceiling replicas_not_ready telemetry_incomplete telemetry_stale
default_rules =
    queue_with_saturated_gpu ∷ queue_with_idle_gpu ∷ queue_growing ∷ queue_deferred ∷ kv_preemption
    ∷ kv_near_capacity ∷ ttft_admission_bound ∷ ttft_prefill_bound ∷ e2e_latency_high
    ∷ tail_latency_gap ∷ prefix_cache_ineffective ∷ low_token_throughput ∷ gpu_memory_pressure
    ∷ error_rate_high ∷ client_aborts ∷ at_replica_ceiling ∷ replicas_not_ready
    ∷ telemetry_incomplete ∷ telemetry_stale ∷ []
