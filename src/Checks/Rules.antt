-- ===== src/Checks/Rules.antt =====
-- The rules on a busy workload.
use inference_fabric_autopil.Prelude.{
  ◌≡◌, refl, true, ◌&&◌, not, is_some, none, some, List, [], ◌∷◌, ◌⊎◌, inl, all, All, map, arith,
}
use inference_fabric_autopil.Prelude.Int.{ltb_ℤ, ◌-ℤ◌}
use inference_fabric_autopil.Float.Sample.{Num, sample, sample-Lawful}
use inference_fabric_autopil.Telemetry.Metric.{Metric, above}
use inference_fabric_autopil.Telemetry.Snapshot.{Snapshot}
use inference_fabric_autopil.Telemetry.Store.Series.{InOrder}
use inference_fabric_autopil.Recommender.Thresholds.{validate}
use inference_fabric_autopil.Recommender.Eval.{Eval, span, sustained}
use inference_fabric_autopil.Recommender.Eval.Recent.{tail_from, sustained_lem}
use inference_fabric_autopil.Recommender.Rules.Defs.{Finding, Rule, find_if}
use inference_fabric_autopil.Recommender.Rules.Catalogue.{default_rules}
use inference_fabric_autopil.Recommender.Rules.Capacity.{
  queue_with_saturated_gpu, eval_queue_with_saturated_gpu, eval_queue_with_idle_gpu, is_saturated,
}
use inference_fabric_autopil.Recommender.Rules.Latency.{
  eval_ttft_admission_bound, eval_ttft_prefill_bound,
}
use inference_fabric_autopil.Recommender.Rules.Dormant.{rule_needs, rule_needs_measured}
use inference_fabric_autopil.Recommender.Rules.Truthful.{IsTrue, finding_evidence}
use inference_fabric_autopil.Recommender.Rules.Exclusive.{
  saturated_or_idle, ttft_diagnosis, share_measured, waited_share,
}
use inference_fabric_autopil.Checks.Data.{busy, busy_at, at_second, limits}

limits-valid : validate limits ≡ true
unfolding validate
limits-valid = refl

busy-found : (f : Finding Num) × (queue_with_saturated_gpu.eval busy ≡ some f)
unfolding queue_with_saturated_gpu eval_queue_with_saturated_gpu find_if sustained ◌-ℤ◌ above
busy-found = (_, refl)

busy-InOrder : InOrder busy.window
busy-InOrder = (((omega arith, (omega arith, tt))), ((omega arith, tt), (tt, tt)))

sustained_lem_example : sustained busy (is_saturated limits) ≡ (
    not (ltb_ℤ (span busy.window) busy.t.sustain_for)
    && all (is_saturated limits) (tail_from busy.window busy.t.sustain_for))
sustained_lem_example = sustained_lem busy (is_saturated limits) refl busy-InOrder

saturated_or_idle_example :
    (eval_queue_with_saturated_gpu busy ≡ none) ⊎ (eval_queue_with_idle_gpu busy ≡ none)
saturated_or_idle_example = saturated_or_idle sample-Lawful busy limits-valid refl

ttft_diagnosis_example :
    (is_some (eval_ttft_admission_bound busy) ≡ (
      share_measured busy.latest
      && sample.lt limits.ttft_p95_ms busy.latest.ttft_p95_ms.value
      && sample.le limits.queue_share_of_ttft_pct (waited_share busy.latest)))
    × (is_some (eval_ttft_prefill_bound busy) ≡ (
        share_measured busy.latest
        && sample.lt limits.ttft_p95_ms busy.latest.ttft_p95_ms.value
        && not (sample.le limits.queue_share_of_ttft_pct (waited_share busy.latest))))
ttft_diagnosis_example = ttft_diagnosis sample-Lawful busy refl refl

-- A history of two samples that are a minute apart, and a sustain window of 45 seconds.
abbrev sparse : Eval Num
sparse = record busy {
  window = busy_at 0 ∷ busy_at 60 ∷ [];
  t = record limits { sustain_for = at_second 45 };
}

sparse_fires : sustained sparse (is_saturated limits) ≡ true
unfolding sustained is_saturated above ◌-ℤ◌
sparse_fires = refl

rule_needs_measured_example :
    (map (λ (q : Rule Num × List (Snapshot Num → Metric Num)). q.0) rule_needs ≡ default_rules)
    × All
        (λ (m : Snapshot Num → Metric Num). (m busy.latest).ok ≡ true)
        ((λ s. s.requests_waiting) ∷ (λ s. s.gpu_utilization_pct) ∷ [])
rule_needs_measured_example =
    rule_needs_measured
      (queue_with_saturated_gpu, (λ s. s.requests_waiting) ∷ (λ s. s.gpu_utilization_pct) ∷ []) busy
      busy-found.0 (inl refl) refl busy-found.1

finding_evidence_example : All IsTrue busy-found.0.evidence
finding_evidence_example =
    finding_evidence sample-Lawful queue_with_saturated_gpu busy busy-found.0 (inl refl) refl
      busy-found.1
