-- ===== src/Recommender/Rules/Latency.antt =====
-- internal/recommender/rules.go: latency.
use inference_fabric_autopil.Prelude.{
  Bool, not, ◌&&◌, ◌||◌, if◌then◌else◌, Option, none, some, List, [], ◌∷◌,
}
use inference_fabric_autopil.Float.{Float64}
use inference_fabric_autopil.Telemetry.Metric.{above, value_or}
use inference_fabric_autopil.Telemetry.Snapshot.{
  Snapshot, Evidence, greater, less, at_least, severity_info, severity_warning,
}
use inference_fabric_autopil.Recommender.Thresholds.{Thresholds}
use inference_fabric_autopil.Recommender.Eval.{Eval, sustained}
use inference_fabric_autopil.Recommender.Rules.Defs.{
  Finding, Rule, find_if, evidence_of, observation, source_metric, code_ttft_admission_bound,
  code_ttft_prefill_bound, code_e2e_latency_high, code_tail_latency_gap,
}

module _ {A : Type 0} ⦃F : Float64 A⦄ where
  unfoldable pub queue_share_of_ttft : Snapshot A → Option A
  queue_share_of_ttft s =
      let share = F.mul (F.div s.queue_time_p95_ms.value s.ttft_p95_ms.value) (F.of_nat 100) in
      if not s.ttft_p95_ms.ok || not s.queue_time_p95_ms.ok || F.le s.ttft_p95_ms.value (F.of_nat 0)
      then none
      else some (if F.lt (F.of_nat 100) share then F.of_nat 100 else share)

  unfoldable pub eval_ttft_admission_bound : Eval A → Option (Finding A)
  unfolding queue_share_of_ttft
  eval_ttft_admission_bound e =
      let s = e.latest in
      let t = e.t in
      elim (queue_share_of_ttft s) [
        | none ↦ none
        | some share ↦
            find_if
              (not
                (not (above s.ttft_p95_ms t.ttft_p95_ms) || F.lt share t.queue_share_of_ttft_pct))
              e
              (evidence_of "ttft_p95_ms" (source_metric s.runtime "ttft_p95_ms") s.ttft_p95_ms.value
                  t.ttft_p95_ms greater "ms"
                ∷ evidence_of "queue_time_share_of_ttft" "" share t.queue_share_of_ttft_pct at_least
                    "percent"
                ∷ observation "queue_time_p95_ms" (source_metric s.runtime "queue_time_p95_ms")
                    s.queue_time_p95_ms.value "ms"
                ∷ [])
      ]

  unfoldable pub ttft_admission_bound : Rule A
  ttft_admission_bound = record {
    code = code_ttft_admission_bound;
    severity = severity_warning;
    runtimes = [];
    supersedes = code_e2e_latency_high ∷ [];
    eval = eval_ttft_admission_bound;
  }

  unfoldable pub prefix_evidence : Snapshot A → List (Evidence A)
  prefix_evidence s =
      if s.prefix_cache_hit_rate_pct.ok
      then observation "prefix_cache_hit_rate_percent"
          (source_metric s.runtime "prefix_cache_hit_rate_percent")
          s.prefix_cache_hit_rate_pct.value "percent"
        ∷ []
      else []

  unfoldable pub eval_ttft_prefill_bound : Eval A → Option (Finding A)
  unfolding queue_share_of_ttft prefix_evidence
  eval_ttft_prefill_bound e =
      let s = e.latest in
      let t = e.t in
      elim (queue_share_of_ttft s) [
        | none ↦ none
        | some share ↦
            find_if
              (not
                (not (above s.ttft_p95_ms t.ttft_p95_ms) || F.le t.queue_share_of_ttft_pct share))
              e
              (evidence_of "ttft_p95_ms" (source_metric s.runtime "ttft_p95_ms") s.ttft_p95_ms.value
                  t.ttft_p95_ms greater "ms"
                ∷ evidence_of "queue_time_share_of_ttft" "" share t.queue_share_of_ttft_pct less
                    "percent"
                ∷ prefix_evidence s)
      ]

  unfoldable pub ttft_prefill_bound : Rule A
  ttft_prefill_bound = record {
    code = code_ttft_prefill_bound;
    severity = severity_warning;
    runtimes = [];
    supersedes = code_e2e_latency_high ∷ [];
    eval = eval_ttft_prefill_bound;
  }

  -- A slow p95.
  unfoldable pub is_slow : Thresholds A → Snapshot A → Bool
  is_slow t s = above s.p95_latency_ms t.e2e_p95_ms

  unfoldable pub eval_e2e_latency_high : Eval A → Option (Finding A)
  unfolding is_slow
  eval_e2e_latency_high e =
      let s = e.latest in
      let t = e.t in
      find_if (sustained e (is_slow e.t)) e (
        evidence_of "p95_latency_ms" (source_metric s.runtime "p95_latency_ms")
          s.p95_latency_ms.value t.e2e_p95_ms greater "ms"
        ∷ observation "tokens_per_second" (source_metric s.runtime "tokens_per_second")
            (value_or s.tokens_per_second (F.of_nat 0)) "tokens per second"
        ∷ [])

  unfoldable pub e2e_latency_high : Rule A
  e2e_latency_high = record {
    code = code_e2e_latency_high;
    severity = severity_warning;
    runtimes = [];
    supersedes = [];
    eval = eval_e2e_latency_high;
  }

  unfoldable pub eval_tail_latency_gap : Eval A → Option (Finding A)
  eval_tail_latency_gap e =
      let s = e.latest in
      let t = e.t in
      let ratio = F.div s.p99_latency_ms.value s.p95_latency_ms.value in
      find_if
        (not (
            not s.p95_latency_ms.ok
            || not s.p99_latency_ms.ok
            || F.le s.p95_latency_ms.value (F.of_nat 0))
          && not (F.le ratio t.tail_ratio_p99_p95))
        e
        (evidence_of "p99_over_p95_ratio" "" ratio t.tail_ratio_p99_p95 greater "ratio"
          ∷ observation "p95_latency_ms" (source_metric s.runtime "p95_latency_ms")
              s.p95_latency_ms.value "ms"
          ∷ observation "p99_latency_ms" (source_metric s.runtime "p99_latency_ms")
              s.p99_latency_ms.value "ms"
          ∷ [])

  unfoldable pub tail_latency_gap : Rule A
  tail_latency_gap = record {
    code = code_tail_latency_gap;
    severity = severity_info;
    runtimes = [];
    supersedes = [];
    eval = eval_tail_latency_gap;
  }
