-- ===== src/Recommender/Rules/Dormant.antt =====
-- No rule fires on data that was not measured.
use inference_fabric_autopil.Prelude.{
  true, ◌≡◌, refl, some, List, [], ◌∷◌, map, Elem, All, All-elem, arith,
}
use inference_fabric_autopil.Float.{Float64}
use inference_fabric_autopil.Telemetry.Metric.{Metric, above, below}
use inference_fabric_autopil.Telemetry.Snapshot.{Snapshot}
use inference_fabric_autopil.Recommender.Eval.{Eval}
use inference_fabric_autopil.Recommender.Eval.Current.{IsCurrent, sustained-latest}
use inference_fabric_autopil.Recommender.Rules.Defs.{Finding, Rule, find_if}
use inference_fabric_autopil.Recommender.Rules.Catalogue.{default_rules}
use inference_fabric_autopil.Recommender.Rules.Capacity.{
  queue_with_saturated_gpu, queue_with_idle_gpu, queue_growing, queue_deferred,
  eval_queue_with_saturated_gpu, eval_queue_with_idle_gpu, eval_queue_growing, eval_queue_deferred,
  is_saturated, is_idle_queueing,
}
use inference_fabric_autopil.Recommender.Rules.Cache.{
  kv_preemption, kv_near_capacity, eval_kv_preemption, eval_kv_near_capacity, is_near_capacity,
}
use inference_fabric_autopil.Recommender.Rules.Latency.{
  ttft_admission_bound, ttft_prefill_bound, e2e_latency_high, tail_latency_gap,
  eval_ttft_admission_bound, eval_ttft_prefill_bound, eval_e2e_latency_high, eval_tail_latency_gap,
  is_slow, queue_share_of_ttft,
}
use inference_fabric_autopil.Recommender.Rules.Efficiency.{
  prefix_cache_ineffective, low_token_throughput, gpu_memory_pressure,
  eval_prefix_cache_ineffective, eval_low_token_throughput, eval_gpu_memory_pressure,
  is_memory_full,
}
use inference_fabric_autopil.Recommender.Rules.Errors.{
  error_rate_high, client_aborts, eval_error_rate_high, eval_client_aborts, is_failing,
  is_abandoned,
}
use inference_fabric_autopil.Recommender.Rules.Scaling.{
  at_replica_ceiling, replicas_not_ready, eval_at_replica_ceiling, eval_replicas_not_ready,
  is_queueing,
}
use inference_fabric_autopil.Recommender.Rules.Observability.{telemetry_incomplete, telemetry_stale}

module _ {A : Type 0} ⦃F : Float64 A⦄ where
  -- The metrics of the latest snapshot without which a rule cannot fire.
  abbrev pub rule_needs : List (Rule A × List (Snapshot A → Metric A))
  rule_needs =
      (queue_with_saturated_gpu, (λ s. s.requests_waiting) ∷ (λ s. s.gpu_utilization_pct) ∷ [])
      ∷ (queue_with_idle_gpu, (λ s. s.requests_waiting) ∷ (λ s. s.gpu_utilization_pct) ∷ [])
      ∷ (queue_growing, (λ s. s.requests_waiting) ∷ [])
      ∷ (queue_deferred, (λ s. s.waiting_deferred) ∷ (λ s. s.waiting_for_capacity) ∷ [])
      ∷ (kv_preemption, (λ s. s.preemptions_per_sec) ∷ [])
      ∷ (kv_near_capacity, (λ s. s.kv_cache_usage_pct) ∷ [])
      ∷ (ttft_admission_bound, (λ s. s.ttft_p95_ms) ∷ (λ s. s.queue_time_p95_ms) ∷ [])
      ∷ (ttft_prefill_bound, (λ s. s.ttft_p95_ms) ∷ (λ s. s.queue_time_p95_ms) ∷ [])
      ∷ (e2e_latency_high, (λ s. s.p95_latency_ms) ∷ [])
      ∷ (tail_latency_gap, (λ s. s.p95_latency_ms) ∷ (λ s. s.p99_latency_ms) ∷ [])
      ∷ (
        prefix_cache_ineffective,
        (λ s. s.prefix_cache_hit_rate_pct) ∷ (λ s. s.prompt_tokens_per_sec) ∷ [],
      )
      ∷ (low_token_throughput, (λ s. s.gpu_utilization_pct) ∷ (λ s. s.tokens_per_second) ∷ [])
      ∷ (gpu_memory_pressure, (λ s. s.gpu_memory_used_pct) ∷ [])
      ∷ (error_rate_high, (λ s. s.error_rate_pct) ∷ [])
      ∷ (client_aborts, (λ s. s.abort_rate_pct) ∷ [])
      ∷ (
        at_replica_ceiling,
        (λ s. s.replicas) ∷ (λ s. s.max_replicas) ∷ (λ s. s.requests_waiting) ∷ [],
      )
      ∷ (
        replicas_not_ready,
        (λ s. s.replicas) ∷ (λ s. s.ready_replicas) ∷ (λ s. s.requests_waiting) ∷ [],
      )
      ∷ (telemetry_incomplete, [])
      ∷ (telemetry_stale, [])
      ∷ []

  abbrev pub NeedsMeasured : Rule A × List (Snapshot A → Metric A) → Type 0
  NeedsMeasured (r, ms) =
      (e : Eval A) (f : Finding A)
      → IsCurrent e
      → r.eval e ≡ some f
      → All (λ m. (m e.latest).ok ≡ true) ms

  queue_with_saturated_gpu-NeedsMeasured :
      NeedsMeasured
        (queue_with_saturated_gpu, (λ s. s.requests_waiting) ∷ (λ s. s.gpu_utilization_pct) ∷ [])
  unfolding eval_queue_with_saturated_gpu queue_with_saturated_gpu find_if above below is_saturated
  queue_with_saturated_gpu-NeedsMeasured e f c h =
      ground (arith, sustained-latest e (is_saturated e.t) c)

  queue_with_idle_gpu-NeedsMeasured :
      NeedsMeasured
        (queue_with_idle_gpu, (λ s. s.requests_waiting) ∷ (λ s. s.gpu_utilization_pct) ∷ [])
  unfolding eval_queue_with_idle_gpu queue_with_idle_gpu find_if above below is_idle_queueing
  queue_with_idle_gpu-NeedsMeasured e f c h =
      ground (arith, sustained-latest e (is_idle_queueing e.t) c)

  queue_growing-NeedsMeasured : NeedsMeasured (queue_growing, (λ s. s.requests_waiting) ∷ [])
  unfolding eval_queue_growing queue_growing find_if above below
  queue_growing-NeedsMeasured e f c h = ground arith

  queue_deferred-NeedsMeasured :
      NeedsMeasured (queue_deferred, (λ s. s.waiting_deferred) ∷ (λ s. s.waiting_for_capacity) ∷ [])
  unfolding eval_queue_deferred queue_deferred find_if above below
  queue_deferred-NeedsMeasured e f c h = ground arith

  kv_preemption-NeedsMeasured : NeedsMeasured (kv_preemption, (λ s. s.preemptions_per_sec) ∷ [])
  unfolding eval_kv_preemption kv_preemption find_if above below
  kv_preemption-NeedsMeasured e f c h = ground arith

  kv_near_capacity-NeedsMeasured :
      NeedsMeasured (kv_near_capacity, (λ s. s.kv_cache_usage_pct) ∷ [])
  unfolding eval_kv_near_capacity kv_near_capacity find_if above below is_near_capacity
  kv_near_capacity-NeedsMeasured e f c h =
      ground (arith, sustained-latest e (is_near_capacity e.t) c)

  ttft_admission_bound-NeedsMeasured :
      NeedsMeasured (ttft_admission_bound, (λ s. s.ttft_p95_ms) ∷ (λ s. s.queue_time_p95_ms) ∷ [])
  unfolding eval_ttft_admission_bound ttft_admission_bound find_if above below queue_share_of_ttft
  ttft_admission_bound-NeedsMeasured e f c h = ground arith

  ttft_prefill_bound-NeedsMeasured :
      NeedsMeasured (ttft_prefill_bound, (λ s. s.ttft_p95_ms) ∷ (λ s. s.queue_time_p95_ms) ∷ [])
  unfolding eval_ttft_prefill_bound ttft_prefill_bound find_if above below queue_share_of_ttft
  ttft_prefill_bound-NeedsMeasured e f c h = ground arith

  e2e_latency_high-NeedsMeasured : NeedsMeasured (e2e_latency_high, (λ s. s.p95_latency_ms) ∷ [])
  unfolding eval_e2e_latency_high e2e_latency_high find_if above below is_slow
  e2e_latency_high-NeedsMeasured e f c h = ground (arith, sustained-latest e (is_slow e.t) c)

  tail_latency_gap-NeedsMeasured :
      NeedsMeasured (tail_latency_gap, (λ s. s.p95_latency_ms) ∷ (λ s. s.p99_latency_ms) ∷ [])
  unfolding eval_tail_latency_gap tail_latency_gap find_if above below
  tail_latency_gap-NeedsMeasured e f c h = ground arith

  prefix_cache_ineffective-NeedsMeasured : NeedsMeasured (
    prefix_cache_ineffective,
    (λ s. s.prefix_cache_hit_rate_pct) ∷ (λ s. s.prompt_tokens_per_sec) ∷ [],
  )
  unfolding eval_prefix_cache_ineffective prefix_cache_ineffective find_if above below
  prefix_cache_ineffective-NeedsMeasured e f c h = ground arith

  low_token_throughput-NeedsMeasured :
      NeedsMeasured
        (low_token_throughput, (λ s. s.gpu_utilization_pct) ∷ (λ s. s.tokens_per_second) ∷ [])
  unfolding eval_low_token_throughput low_token_throughput find_if above below
  low_token_throughput-NeedsMeasured e f c h = ground arith

  gpu_memory_pressure-NeedsMeasured :
      NeedsMeasured (gpu_memory_pressure, (λ s. s.gpu_memory_used_pct) ∷ [])
  unfolding eval_gpu_memory_pressure gpu_memory_pressure find_if above below is_memory_full
  gpu_memory_pressure-NeedsMeasured e f c h =
      ground (arith, sustained-latest e (is_memory_full e.t) c)

  error_rate_high-NeedsMeasured : NeedsMeasured (error_rate_high, (λ s. s.error_rate_pct) ∷ [])
  unfolding eval_error_rate_high error_rate_high find_if above below is_failing
  error_rate_high-NeedsMeasured e f c h = ground (arith, sustained-latest e (is_failing e.t) c)

  client_aborts-NeedsMeasured : NeedsMeasured (client_aborts, (λ s. s.abort_rate_pct) ∷ [])
  unfolding eval_client_aborts client_aborts find_if above below is_abandoned
  client_aborts-NeedsMeasured e f c h = ground (arith, sustained-latest e (is_abandoned e.t) c)

  at_replica_ceiling-NeedsMeasured : NeedsMeasured (
    at_replica_ceiling,
    (λ s. s.replicas) ∷ (λ s. s.max_replicas) ∷ (λ s. s.requests_waiting) ∷ [],
  )
  unfolding eval_at_replica_ceiling at_replica_ceiling find_if above below is_queueing
  at_replica_ceiling-NeedsMeasured e f c h = ground (arith, sustained-latest e (is_queueing e.t) c)

  replicas_not_ready-NeedsMeasured : NeedsMeasured (
    replicas_not_ready,
    (λ s. s.replicas) ∷ (λ s. s.ready_replicas) ∷ (λ s. s.requests_waiting) ∷ [],
  )
  unfolding eval_replicas_not_ready replicas_not_ready find_if above below
  replicas_not_ready-NeedsMeasured e f c h = ground arith

  rule_needs-NeedsMeasured : All NeedsMeasured rule_needs
  rule_needs-NeedsMeasured = (
    queue_with_saturated_gpu-NeedsMeasured,
    (
      queue_with_idle_gpu-NeedsMeasured,
      (
        queue_growing-NeedsMeasured,
        (
          queue_deferred-NeedsMeasured,
          (
            kv_preemption-NeedsMeasured,
            (
              kv_near_capacity-NeedsMeasured,
              (
                ttft_admission_bound-NeedsMeasured,
                (
                  ttft_prefill_bound-NeedsMeasured,
                  (
                    e2e_latency_high-NeedsMeasured,
                    (
                      tail_latency_gap-NeedsMeasured,
                      (
                        prefix_cache_ineffective-NeedsMeasured,
                        (
                          low_token_throughput-NeedsMeasured,
                          (
                            gpu_memory_pressure-NeedsMeasured,
                            (
                              error_rate_high-NeedsMeasured,
                              (
                                client_aborts-NeedsMeasured,
                                (
                                  at_replica_ceiling-NeedsMeasured,
                                  (
                                    replicas_not_ready-NeedsMeasured,
                                    ((λ e f c h. tt), ((λ e f c h. tt), tt)),
                                  ),
                                ),
                              ),
                            ),
                          ),
                        ),
                      ),
                    ),
                  ),
                ),
              ),
            ),
          ),
        ),
      ),
    ),
  )

  -- `rule_needs` lists each default rule, in order, with its metrics. Where the latest snapshot ends
  -- the history, a default rule that fires was given every one of those metrics as measured in
  -- the latest snapshot.
  pub rule_needs_measured :
      (p : Rule A × List (Snapshot A → Metric A)) (e : Eval A) (f : Finding A)
      → Elem p rule_needs
      → IsCurrent e
      → p.0.eval e ≡ some f
      → (map (λ q. q.0) rule_needs ≡ default_rules) × All (λ m. (m e.latest).ok ≡ true) p.1
  unfolding default_rules
  rule_needs_measured p e f m c h =
      (refl, All-elem NeedsMeasured rule_needs rule_needs-NeedsMeasured m e f c h)
