-- ===== src/Recommender/Rules/Cache.antt =====
-- internal/recommender/rules.go: the KV cache.
use inference_fabric_autopil.Prelude.{Bool, if◌then◌else◌, Option, List, [], ◌∷◌}
use inference_fabric_autopil.Float.{Float64}
use inference_fabric_autopil.Telemetry.Metric.{above}
use inference_fabric_autopil.Telemetry.Snapshot.{
  Snapshot, Evidence, greater, severity_warning, severity_critical,
}
use inference_fabric_autopil.Recommender.Thresholds.{Thresholds}
use inference_fabric_autopil.Recommender.Eval.{Eval, sustained}
use inference_fabric_autopil.Recommender.Rules.Defs.{
  Finding, Rule, find_if, evidence_of, observation, source_metric, code_kv_preemption,
  code_kv_near_capacity,
}

module _ {A : Type 0} ⦃F : Float64 A⦄ where
  -- Evidence that is added where its metric is measured.
  unfoldable pub kv_evidence : Snapshot A → List (Evidence A)
  kv_evidence s =
      if s.kv_cache_usage_pct.ok
      then observation "kv_cache_usage_percent" (source_metric s.runtime "kv_cache_usage_percent")
          s.kv_cache_usage_pct.value "percent"
        ∷ []
      else []

  unfoldable pub eval_kv_preemption : Eval A → Option (Finding A)
  unfolding kv_evidence
  eval_kv_preemption e =
      let s = e.latest in
      let t = e.t in
      find_if (above s.preemptions_per_sec t.preemptions_per_sec) e (
        evidence_of "preemptions_per_sec" (source_metric s.runtime "preemptions_per_sec")
          s.preemptions_per_sec.value t.preemptions_per_sec greater "per second"
        ∷ kv_evidence s)

  unfoldable pub kv_preemption : Rule A
  kv_preemption = record {
    code = code_kv_preemption;
    severity = severity_critical;
    runtimes = [];
    supersedes = code_kv_near_capacity ∷ [];
    eval = eval_kv_preemption;
  }

  -- A full KV cache.
  unfoldable pub is_near_capacity : Thresholds A → Snapshot A → Bool
  is_near_capacity t s = above s.kv_cache_usage_pct t.kv_cache_high_pct

  unfoldable pub eval_kv_near_capacity : Eval A → Option (Finding A)
  unfolding is_near_capacity
  eval_kv_near_capacity e =
      let s = e.latest in
      let t = e.t in
      find_if (sustained e (is_near_capacity e.t)) e (
        evidence_of "kv_cache_usage_percent" (source_metric s.runtime "kv_cache_usage_percent")
          s.kv_cache_usage_pct.value t.kv_cache_high_pct greater "percent"
        ∷ [])

  unfoldable pub kv_near_capacity : Rule A
  kv_near_capacity = record {
    code = code_kv_near_capacity;
    severity = severity_warning;
    runtimes = [];
    supersedes = [];
    eval = eval_kv_near_capacity;
  }
