-- ===== src/Recommender/Rules/Errors.antt =====
-- internal/recommender/rules.go: errors.
use inference_fabric_autopil.Prelude.{Bool, if◌then◌else◌, Option, List, [], ◌∷◌}
use inference_fabric_autopil.Float.{Float64}
use inference_fabric_autopil.Telemetry.Metric.{above}
use inference_fabric_autopil.Telemetry.Snapshot.{
  Snapshot, Evidence, greater, severity_warning, severity_critical,
}
use inference_fabric_autopil.Recommender.Thresholds.{Thresholds}
use inference_fabric_autopil.Recommender.Eval.{Eval, sustained}
use inference_fabric_autopil.Recommender.Rules.Defs.{
  Finding, Rule, find_if, evidence_of, observation, source_metric, code_error_rate_high,
  code_client_aborts,
}

module _ {A : Type 0} ⦃F : Float64 A⦄ where
  -- Failing requests.
  unfoldable pub is_failing : Thresholds A → Snapshot A → Bool
  is_failing t s = above s.error_rate_pct t.error_rate_pct

  unfoldable pub eval_error_rate_high : Eval A → Option (Finding A)
  unfolding is_failing
  eval_error_rate_high e =
      let s = e.latest in
      let t = e.t in
      find_if (sustained e (is_failing e.t)) e (
        evidence_of "error_rate_percent" (source_metric s.runtime "error_rate_percent")
          s.error_rate_pct.value t.error_rate_pct greater "percent"
        ∷ [])

  unfoldable pub error_rate_high : Rule A
  error_rate_high = record {
    code = code_error_rate_high;
    severity = severity_critical;
    runtimes = [];
    supersedes = [];
    eval = eval_error_rate_high;
  }

  unfoldable pub ttft_evidence : Snapshot A → List (Evidence A)
  ttft_evidence s =
      if s.ttft_p95_ms.ok
      then observation "ttft_p95_ms" (source_metric s.runtime "ttft_p95_ms") s.ttft_p95_ms.value
          "ms"
        ∷ []
      else []

  -- Abandoned requests.
  unfoldable pub is_abandoned : Thresholds A → Snapshot A → Bool
  is_abandoned t s = above s.abort_rate_pct t.abort_rate_pct

  unfoldable pub eval_client_aborts : Eval A → Option (Finding A)
  unfolding is_abandoned ttft_evidence
  eval_client_aborts e =
      let s = e.latest in
      let t = e.t in
      find_if (sustained e (is_abandoned e.t)) e (
        evidence_of "abort_rate_percent" "vllm:request_success_total{finished_reason=\"abort\"}"
          s.abort_rate_pct.value t.abort_rate_pct greater "percent"
        ∷ ttft_evidence s)

  unfoldable pub client_aborts : Rule A
  client_aborts = record {
    code = code_client_aborts;
    severity = severity_warning;
    runtimes = [];
    supersedes = [];
    eval = eval_client_aborts;
  }
