-- ===== src/Checks/Fleet.antt =====
-- `Analyze` on a store with one workload that is slow to answer.
use inference_fabric_autopil.Prelude.{
  ◌≡◌, refl, false, some, List, [], ◌∷◌, All, Elem, get_last?, inl,
}
use inference_fabric_autopil.Prelude.Int.{pos, ◌-ℤ◌, ◌*ℤ◌, to_int64}
use inference_fabric_autopil.Prelude.Texts.{text_eq, text_lt}
use inference_fabric_autopil.Float.Sample.{Num, sample, sample-Lawful}
use inference_fabric_autopil.Telemetry.Snapshot.{Snapshot, Recommendation, key, age, rank}
use inference_fabric_autopil.Telemetry.Store.{
  Store, new_store, with_retention, add, retain, latest, history,
}
use inference_fabric_autopil.Telemetry.Store.Retention.{
  IsValid, Op, run, step, adds, run-new_store-IsValid,
}
use inference_fabric_autopil.Recommender.Rules.Capacity.{
  eval_queue_with_saturated_gpu, eval_queue_with_idle_gpu, eval_queue_growing, eval_queue_deferred,
}
use inference_fabric_autopil.Recommender.Rules.Cache.{eval_kv_preemption, eval_kv_near_capacity}
use inference_fabric_autopil.Recommender.Rules.Latency.{
  eval_ttft_admission_bound, eval_ttft_prefill_bound, eval_e2e_latency_high, eval_tail_latency_gap,
}
use inference_fabric_autopil.Recommender.Rules.Efficiency.{
  eval_prefix_cache_ineffective, eval_low_token_throughput, eval_gpu_memory_pressure,
}
use inference_fabric_autopil.Recommender.Rules.Errors.{eval_error_rate_high, eval_client_aborts}
use inference_fabric_autopil.Recommender.Rules.Scaling.{
  eval_at_replica_ceiling, eval_replicas_not_ready,
}
use inference_fabric_autopil.Recommender.Rules.Observability.{
  eval_telemetry_incomplete, eval_telemetry_stale,
}
use inference_fabric_autopil.Prelude.Sort.{sort_by}
use inference_fabric_autopil.Prelude.Maps.{insert, lookup}
use inference_fabric_autopil.Telemetry.Metric.{above, below}
use inference_fabric_autopil.Recommender.Eval.{sustained, trend}
use inference_fabric_autopil.Recommender.Rules.Defs.{find_if, code_telemetry_stale}
use inference_fabric_autopil.Recommender.Rules.Catalogue.{default_rules}
use inference_fabric_autopil.Recommender.Rules.Truthful.{IsTrue}
use inference_fabric_autopil.Recommender.Engine.{analyze}
use inference_fabric_autopil.Recommender.Engine.Report.{IsReported, context_of}
use inference_fabric_autopil.Recommender.Engine.Coverage.{default_engine}
use inference_fabric_autopil.Recommender.Engine.Fleet.{analyze-store}
use inference_fabric_autopil.Checks.Data.{busy_at, at_second, limits}

abbrev samples : List (Op Num)
samples = adds (at_second 0) (busy_at 0) ∷ adds (at_second 60) (busy_at 60) ∷ []

abbrev fleet : Store Num
fleet = run (with_retention (pos 120) (at_second 900) new_store) samples

fleet-IsValid : IsValid fleet
fleet-IsValid = run-new_store-IsValid (pos 120) (at_second 900) samples

reported :
    (x : Recommendation Num) × Elem x
      (analyze (default_engine limits) (latest fleet) (history fleet) (at_second 61))
    × (text_eq x.code code_telemetry_stale ≡ false)
unfolding analyze latest history run step sort_by add insert with_retention new_store text_eq
    text_lt key retain lookup ◌-ℤ◌ ◌*ℤ◌ to_int64 default_rules find_if sustained trend above below
    age rank eval_queue_with_saturated_gpu eval_queue_with_idle_gpu eval_queue_growing
    eval_queue_deferred eval_kv_preemption eval_kv_near_capacity eval_ttft_admission_bound
    eval_ttft_prefill_bound eval_e2e_latency_high eval_tail_latency_gap
    eval_prefix_cache_ineffective eval_low_token_throughput eval_gpu_memory_pressure
    eval_error_rate_high eval_client_aborts eval_at_replica_ceiling eval_replicas_not_ready
    eval_telemetry_incomplete eval_telemetry_stale
reported = (_, inl refl, refl)

analyze-store_example :
    (snap : Snapshot Num) × (get_last? (history fleet (key snap)) ≡ some snap)
    × IsReported default_rules
        (context_of (default_engine limits) snap (history fleet (key snap)) (at_second 61))
        reported.0
    × All IsTrue reported.0.evidence
analyze-store_example =
    analyze-store sample-Lawful limits fleet (at_second 61) reported.0 fleet-IsValid reported.1
      reported.2
