-- ===== src/Checks/Engine.antt =====
-- The engine with the default rules on a busy workload.
use mathlib.Core.List.Permᴰ
use inference_fabric_autopil.Prelude.{◌≡◌, refl, some, ◌↔◌, inl, Elem}
use inference_fabric_autopil.Prelude.Int.{◌-ℤ◌}
use inference_fabric_autopil.Prelude.Sort.{IsSorted}
use inference_fabric_autopil.Float.Sample.{Num, sample}
use inference_fabric_autopil.Telemetry.Metric.{above}
use inference_fabric_autopil.Telemetry.Snapshot.{Recommendation}
use inference_fabric_autopil.Recommender.Eval.{sustained}
use inference_fabric_autopil.Recommender.Rules.Defs.{Finding, find_if}
use inference_fabric_autopil.Recommender.Rules.Catalogue.{default_rules}
use inference_fabric_autopil.Recommender.Rules.Capacity.{
  queue_with_saturated_gpu, eval_queue_with_saturated_gpu,
}
use inference_fabric_autopil.Recommender.Engine.{
  Engine, finding_of, applies_to, recommend, analyze_workload, by_rank, sorted_rules,
  evaluate_rules, no_outcome, report,
}
use inference_fabric_autopil.Recommender.Engine.Report.{
  IsReported, context_of, analyze_workload_lem,
}
use inference_fabric_autopil.Recommender.Engine.Coverage.{
  default_engine, default_rules-NodupCodes, default_rules_report,
}
use inference_fabric_autopil.Recommender.Engine.Order.{report-perm}
use inference_fabric_autopil.Checks.Data.{busy, busy_at, busy_history, limits, at_second}

abbrev engine : Engine Num
engine = default_engine limits

busy-fires :
    (f : Finding Num) × (finding_of queue_with_saturated_gpu
        (context_of engine (busy_at 60) busy_history (at_second 61))
      ≡ some f)
unfolding finding_of applies_to queue_with_saturated_gpu eval_queue_with_saturated_gpu find_if
    sustained ◌-ℤ◌ above
busy-fires = (_, refl)

analyze_workload_lem_example :
    (Elem
        (recommend queue_with_saturated_gpu busy-fires.0 (busy_at 60))
        (analyze_workload engine (busy_at 60) busy_history (at_second 61))
      ↔ IsReported engine.rules
          (context_of engine (busy_at 60) busy_history (at_second 61))
          (recommend queue_with_saturated_gpu busy-fires.0 (busy_at 60)))
    × IsSorted by_rank (analyze_workload engine (busy_at 60) busy_history (at_second 61))
analyze_workload_lem_example =
    analyze_workload_lem engine (busy_at 60) busy_history (at_second 61)
      (recommend queue_with_saturated_gpu busy-fires.0 (busy_at 60)) (default_rules-NodupCodes Num)

default_rules_report_example :
    (x : Recommendation Num) × Elem x
      (analyze_workload engine (busy_at 60) busy_history (at_second 61))
unfolding default_rules
default_rules_report_example =
    default_rules_report limits (busy_at 60) busy_history (at_second 61) queue_with_saturated_gpu
      busy-fires.0 (inl refl, busy-fires.1)

report-perm_example :
    report (record {
      fired = (evaluate_rules (sorted_rules engine) busy no_outcome).fired;
      superseded = (evaluate_rules (sorted_rules engine) busy no_outcome).superseded;
    })
    ≡ report (evaluate_rules (sorted_rules engine) busy no_outcome)
report-perm_example =
    report-perm engine busy (evaluate_rules (sorted_rules engine) busy no_outcome).fired
      (Permᴰ.refl _)
