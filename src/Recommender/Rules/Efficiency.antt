-- ===== src/Recommender/Rules/Efficiency.antt =====
-- internal/recommender/rules.go: efficiency.
use inference_fabric_autopil.Prelude.{Bool, not, ◌&&◌, ◌||◌, if◌then◌else◌, Option, List, [], ◌∷◌}
use inference_fabric_autopil.Float.{Float64}
use inference_fabric_autopil.Telemetry.Metric.{above}
use inference_fabric_autopil.Telemetry.Snapshot.{
  Snapshot, Evidence, greater, less, severity_info, severity_warning, runtime_vllm,
}
use inference_fabric_autopil.Recommender.Thresholds.{Thresholds}
use inference_fabric_autopil.Recommender.Eval.{Eval, sustained}
use inference_fabric_autopil.Recommender.Rules.Defs.{
  Finding, Rule, find_if, evidence_of, observation, source_metric, code_prefix_cache_ineffective,
  code_low_token_throughput, code_gpu_memory_pressure,
}

module _ {A : Type 0} ⦃F : Float64 A⦄ where
  unfoldable pub eval_prefix_cache_ineffective : Eval A → Option (Finding A)
  eval_prefix_cache_ineffective e =
      let s = e.latest in
      let t = e.t in
      find_if
        (not (not s.prefix_cache_hit_rate_pct.ok || not s.prompt_tokens_per_sec.ok)
          && not (F.lt s.prompt_tokens_per_sec.value (F.of_nat 50))
          && not (F.le t.prefix_cache_hit_low_pct s.prefix_cache_hit_rate_pct.value))
        e
        (evidence_of "prefix_cache_hit_rate_percent"
            (source_metric s.runtime "prefix_cache_hit_rate_percent")
            s.prefix_cache_hit_rate_pct.value t.prefix_cache_hit_low_pct less "percent"
          ∷ observation "prompt_tokens_per_sec" "vllm:prompt_tokens_total"
              s.prompt_tokens_per_sec.value "tokens per second"
          ∷ [])

  unfoldable pub prefix_cache_ineffective : Rule A
  prefix_cache_ineffective = record {
    code = code_prefix_cache_ineffective;
    severity = severity_info;
    runtimes = runtime_vllm ∷ [];
    supersedes = [];
    eval = eval_prefix_cache_ineffective;
  }

  unfoldable pub prompt_evidence : Snapshot A → List (Evidence A)
  prompt_evidence s =
      if s.prompt_tokens_per_sec.ok
      then observation "prompt_tokens_per_sec" "vllm:prompt_tokens_total"
          s.prompt_tokens_per_sec.value "tokens per second"
        ∷ []
      else []

  unfoldable pub eval_low_token_throughput : Eval A → Option (Finding A)
  unfolding prompt_evidence
  eval_low_token_throughput e =
      let s = e.latest in
      let t = e.t in
      find_if
        (not (
          not (above s.gpu_utilization_pct t.gpu_util_high_pct)
          || not s.tokens_per_second.ok
          || F.le t.tokens_per_second_low s.tokens_per_second.value))
        e
        (evidence_of "gpu_utilization_percent" (source_metric s.runtime "gpu_utilization_percent")
            s.gpu_utilization_pct.value t.gpu_util_high_pct greater "percent"
          ∷ evidence_of "tokens_per_second" (source_metric s.runtime "tokens_per_second")
              s.tokens_per_second.value t.tokens_per_second_low less "tokens per second"
          ∷ prompt_evidence s)

  unfoldable pub low_token_throughput : Rule A
  low_token_throughput = record {
    code = code_low_token_throughput;
    severity = severity_info;
    runtimes = [];
    supersedes = [];
    eval = eval_low_token_throughput;
  }

  -- Full device memory.
  unfoldable pub is_memory_full : Thresholds A → Snapshot A → Bool
  is_memory_full t s = above s.gpu_memory_used_pct t.gpu_memory_high_pct

  unfoldable pub eval_gpu_memory_pressure : Eval A → Option (Finding A)
  unfolding is_memory_full
  eval_gpu_memory_pressure e =
      let s = e.latest in
      let t = e.t in
      find_if (sustained e (is_memory_full e.t)) e (
        evidence_of "gpu_memory_used_percent" (source_metric s.runtime "gpu_memory_used_percent")
          s.gpu_memory_used_pct.value t.gpu_memory_high_pct greater "percent"
        ∷ [])

  unfoldable pub gpu_memory_pressure : Rule A
  gpu_memory_pressure = record {
    code = code_gpu_memory_pressure;
    severity = severity_warning;
    runtimes = [];
    supersedes = [];
    eval = eval_gpu_memory_pressure;
  }
