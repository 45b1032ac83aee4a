-- ===== src/Recommender/Rules/Truthful.antt =====
-- The evidence of a finding is true of the numbers that it shows.
use inference_fabric_autopil.Prelude.{
  Bool, false, ◌≡◌, refl, some, List, [], ◌∷◌, ◌++◌, Elem, All, All-elem, arith,
}
use inference_fabric_autopil.Float.{Float64}
use inference_fabric_autopil.Telemetry.Metric.{above, below}
use inference_fabric_autopil.Telemetry.Snapshot.{
  Evidence, Comparison, greater, less, at_least, context,
}
use inference_fabric_autopil.Float.Laws.{Lawful}
use inference_fabric_autopil.Recommender.Eval.{Eval}
use inference_fabric_autopil.Recommender.Eval.Current.{IsCurrent, sustained-latest}
use inference_fabric_autopil.Recommender.Rules.Defs.{
  Finding, Rule, find_if, evidence_of, observation,
}
use inference_fabric_autopil.Recommender.Rules.Catalogue.{default_rules}
use inference_fabric_autopil.Recommender.Rules.Capacity.{
  queue_with_saturated_gpu, queue_with_idle_gpu, queue_growing, queue_deferred,
  eval_queue_with_saturated_gpu, eval_queue_with_idle_gpu, eval_queue_growing, eval_queue_deferred,
  is_saturated, is_idle_queueing,
}
use inference_fabric_autopil.Recommender.Rules.Cache.{
  kv_preemption, kv_near_capacity, eval_kv_preemption, kv_evidence, eval_kv_near_capacity,
  is_near_capacity,
}
use inference_fabric_autopil.Recommender.Rules.Latency.{
  ttft_admission_bound, ttft_prefill_bound, e2e_latency_high, tail_latency_gap,
  eval_ttft_admission_bound, eval_ttft_prefill_bound, prefix_evidence, eval_e2e_latency_high,
  eval_tail_latency_gap, is_slow,
}
use inference_fabric_autopil.Recommender.Rules.Efficiency.{
  prefix_cache_ineffective, low_token_throughput, gpu_memory_pressure,
  eval_prefix_cache_ineffective, eval_low_token_throughput, prompt_evidence,
  eval_gpu_memory_pressure, is_memory_full,
}
use inference_fabric_autopil.Recommender.Rules.Errors.{
  error_rate_high, client_aborts, eval_error_rate_high, eval_client_aborts, ttft_evidence,
  is_failing, is_abandoned,
}
use inference_fabric_autopil.Recommender.Rules.Scaling.{
  at_replica_ceiling, replicas_not_ready, eval_at_replica_ceiling, eval_replicas_not_ready,
  is_queueing,
}
use inference_fabric_autopil.Recommender.Rules.Observability.{
  telemetry_incomplete, telemetry_stale, eval_telemetry_incomplete,
}

module _ {A : Type 0} ⦃F : Float64 A⦄ where
  -- The contrary of the comparison does not hold of the two numbers; a number shown for context
  -- claims nothing.
  abbrev pub is_refuted : Comparison → A → A → Bool
  is_refuted greater observed threshold = F.le observed threshold
  is_refuted less observed threshold = F.le threshold observed
  is_refuted at_least observed threshold = F.lt observed threshold
  is_refuted context observed threshold = false

  abbrev pub IsTrue : Evidence A → Type 0
  IsTrue v = is_refuted v.comparison v.observed v.threshold ≡ false

  -- The default rules but the last, `telemetry_stale`, which compares durations and shows rounded
  -- seconds.
  abbrev pub measured_rules : List (Rule A)
  measured_rules =
      queue_with_saturated_gpu ∷ queue_with_idle_gpu ∷ queue_growing ∷ queue_deferred
      ∷ kv_preemption ∷ kv_near_capacity ∷ ttft_admission_bound ∷ ttft_prefill_bound
      ∷ e2e_latency_high ∷ tail_latency_gap ∷ prefix_cache_ineffective ∷ low_token_throughput
      ∷ gpu_memory_pressure ∷ error_rate_high ∷ client_aborts ∷ at_replica_ceiling
      ∷ replicas_not_ready ∷ telemetry_incomplete ∷ []

  pub default_rules-measured : default_rules ≡ measured_rules ++ telemetry_stale ∷ []
  unfolding default_rules
  default_rules-measured = refl

module _ {A : Type 0} ⦃F : Float64 A⦄ (laws : Lawful F) where
  abbrev TellsTruth : Rule A → Type 0
  TellsTruth r =
      (e : Eval A) (f : Finding A) → IsCurrent e → r.eval e ≡ some f → All IsTrue f.evidence

  queue_with_saturated_gpu-TellsTruth : TellsTruth queue_with_saturated_gpu
  unfolding queue_with_saturated_gpu eval_queue_with_saturated_gpu find_if evidence_of observation
      above below is_saturated
  queue_with_saturated_gpu-TellsTruth e f c h = ground (
    arith,
    sustained-latest e (is_saturated e.t) c,
    laws.not_le_of_lt e.t.queue_waiting_requests e.latest.requests_waiting.value,
    laws.not_le_of_lt e.t.gpu_util_high_pct e.latest.gpu_utilization_pct.value,
  )

  queue_with_idle_gpu-TellsTruth : TellsTruth queue_with_idle_gpu
  unfolding queue_with_idle_gpu eval_queue_with_idle_gpu find_if evidence_of observation above below
      is_idle_queueing
  queue_with_idle_gpu-TellsTruth e f c h = ground (
    arith,
    sustained-latest e (is_idle_queueing e.t) c,
    laws.not_le_of_lt e.t.queue_waiting_requests e.latest.requests_waiting.value,
    laws.not_le_of_lt e.latest.gpu_utilization_pct.value e.t.gpu_util_low_pct,
  )

  queue_growing-TellsTruth : TellsTruth queue_growing
  unfolding queue_growing eval_queue_growing find_if evidence_of observation above below
  queue_growing-TellsTruth e f c h = ground (arith)

  queue_deferred-TellsTruth : TellsTruth queue_deferred
  unfolding queue_deferred eval_queue_deferred find_if evidence_of observation above below
  queue_deferred-TellsTruth e f c h = ground (arith)

  kv_preemption-TellsTruth : TellsTruth kv_preemption
  unfolding kv_preemption eval_kv_preemption find_if evidence_of observation above below kv_evidence
  kv_preemption-TellsTruth e f c h =
      ground (arith, laws.not_le_of_lt e.t.preemptions_per_sec e.latest.preemptions_per_sec.value)

  kv_near_capacity-TellsTruth : TellsTruth kv_near_capacity
  unfolding kv_near_capacity eval_kv_near_capacity find_if evidence_of observation above below
      is_near_capacity
  kv_near_capacity-TellsTruth e f c h = ground (
    arith,
    sustained-latest e (is_near_capacity e.t) c,
    laws.not_le_of_lt e.t.kv_cache_high_pct e.latest.kv_cache_usage_pct.value,
  )

  ttft_admission_bound-TellsTruth : TellsTruth ttft_admission_bound
  unfolding ttft_admission_bound eval_ttft_admission_bound find_if evidence_of observation above
      below
  ttft_admission_bound-TellsTruth e f c h =
      ground (arith, laws.not_le_of_lt e.t.ttft_p95_ms e.latest.ttft_p95_ms.value)

  ttft_prefill_bound-TellsTruth : TellsTruth ttft_prefill_bound
  unfolding ttft_prefill_bound eval_ttft_prefill_bound find_if evidence_of observation above below
      prefix_evidence
  ttft_prefill_bound-TellsTruth e f c h =
      ground (arith, laws.not_le_of_lt e.t.ttft_p95_ms e.latest.ttft_p95_ms.value)

  e2e_latency_high-TellsTruth : TellsTruth e2e_latency_high
  unfolding e2e_latency_high eval_e2e_latency_high find_if evidence_of observation above below
      is_slow
  e2e_latency_high-TellsTruth e f c h = ground (
    arith,
    sustained-latest e (is_slow e.t) c,
    laws.not_le_of_lt e.t.e2e_p95_ms e.latest.p95_latency_ms.value,
  )

  tail_latency_gap-TellsTruth : TellsTruth tail_latency_gap
  unfolding tail_latency_gap eval_tail_latency_gap find_if evidence_of observation above below
  tail_latency_gap-TellsTruth e f c h = ground (arith)

  prefix_cache_ineffective-TellsTruth : TellsTruth prefix_cache_ineffective
  unfolding prefix_cache_ineffective eval_prefix_cache_ineffective find_if evidence_of observation
      above below
  prefix_cache_ineffective-TellsTruth e f c h = ground (arith)

  low_token_throughput-TellsTruth : TellsTruth low_token_throughput
  unfolding low_token_throughput eval_low_token_throughput find_if evidence_of observation above
      below prompt_evidence
  low_token_throughput-TellsTruth e f c h =
      ground (arith, laws.not_le_of_lt e.t.gpu_util_high_pct e.latest.gpu_utilization_pct.value)

  gpu_memory_pressure-TellsTruth : TellsTruth gpu_memory_pressure
  unfolding gpu_memory_pressure eval_gpu_memory_pressure find_if evidence_of observation above below
      is_memory_full
  gpu_memory_pressure-TellsTruth e f c h = ground (
    arith,
    sustained-latest e (is_memory_full e.t) c,
    laws.not_le_of_lt e.t.gpu_memory_high_pct e.latest.gpu_memory_used_pct.value,
  )

  error_rate_high-TellsTruth : TellsTruth error_rate_high
  unfolding error_rate_high eval_error_rate_high find_if evidence_of observation above below
      is_failing
  error_rate_high-TellsTruth e f c h = ground (
    arith,
    sustained-latest e (is_failing e.t) c,
    laws.not_le_of_lt e.t.error_rate_pct e.latest.error_rate_pct.value,
  )

  client_aborts-TellsTruth : TellsTruth client_aborts
  unfolding client_aborts eval_client_aborts find_if evidence_of observation above below
      is_abandoned ttft_evidence
  client_aborts-TellsTruth e f c h = ground (
    arith,
    sustained-latest e (is_abandoned e.t) c,
    laws.not_le_of_lt e.t.abort_rate_pct e.latest.abort_rate_pct.value,
  )

  at_replica_ceiling-TellsTruth : TellsTruth at_replica_ceiling
  unfolding at_replica_ceiling eval_at_replica_ceiling find_if evidence_of observation above below
      is_queueing
  at_replica_ceiling-TellsTruth e f c h = ground (
    arith,
    sustained-latest e (is_queueing e.t) c,
    laws.not_le_of_lt e.t.queue_waiting_requests e.latest.requests_waiting.value,
  )

  replicas_not_ready-TellsTruth : TellsTruth replicas_not_ready
  unfolding replicas_not_ready eval_replicas_not_ready find_if evidence_of observation above below
  replicas_not_ready-TellsTruth e f c h =
      ground (arith, laws.not_le_of_lt e.t.queue_waiting_requests e.latest.requests_waiting.value)

  telemetry_incomplete-TellsTruth : TellsTruth telemetry_incomplete
  unfolding telemetry_incomplete eval_telemetry_incomplete find_if evidence_of observation above
      below
  telemetry_incomplete-TellsTruth e f c h = ground (arith)

  measured_rules-TellsTruth : All TellsTruth measured_rules
  measured_rules-TellsTruth = (
    queue_with_saturated_gpu-TellsTruth,
    (
      queue_with_idle_gpu-TellsTruth,
      (
        queue_growing-TellsTruth,
        (
          queue_deferred-TellsTruth,
          (
            kv_preemption-TellsTruth,
            (
              kv_near_capacity-TellsTruth,
              (
                ttft_admission_bound-TellsTruth,
                (
                  ttft_prefill_bound-TellsTruth,
                  (
                    e2e_latency_high-TellsTruth,
                    (
                      tail_latency_gap-TellsTruth,
                      (
                        prefix_cache_ineffective-TellsTruth,
                        (
                          low_token_throughput-TellsTruth,
                          (
                            gpu_memory_pressure-TellsTruth,
                            (
                              error_rate_high-TellsTruth,
                              (
                                client_aborts-TellsTruth,
                                (
                                  at_replica_ceiling-TellsTruth,
                                  (
                                    replicas_not_ready-TellsTruth,
                                    (telemetry_incomplete-TellsTruth, tt),
                                  ),
                                ),
                              ),
                            ),
                          ),
                        ),
                      ),
                    ),
                  ),
                ),
              ),
            ),
          ),
        ),
      ),
    ),
  )

  -- Where the latest snapshot ends the history, each comparison that the evidence of a finding
  -- shows, of any default rule but `telemetry_stale`, is not contradicted by the two numbers beside
  -- it.
  pub finding_evidence :
      (r : Rule A) (e : Eval A) (f : Finding A)
      → Elem r measured_rules
      → IsCurrent e
      → r.eval e ≡ some f
      → All IsTrue f.evidence
  finding_evidence r e f m c h =
      All-elem TellsTruth measured_rules measured_rules-TellsTruth m e f c h
