-- ===== src/Recommender/Rules/Scaling.antt =====
-- internal/recommender/rules.go: scaling.
use inference_fabric_autopil.Prelude.{Bool, not, ◌&&◌, ◌||◌, Option, [], ◌∷◌}
use inference_fabric_autopil.Float.{Float64}
use inference_fabric_autopil.Telemetry.Metric.{above}
use inference_fabric_autopil.Telemetry.Snapshot.{Snapshot, greater, severity_critical}
use inference_fabric_autopil.Recommender.Thresholds.{Thresholds}
use inference_fabric_autopil.Recommender.Eval.{Eval, sustained}
use inference_fabric_autopil.Recommender.Rules.Defs.{
  Finding, Rule, find_if, evidence_of, observation, source_metric, code_at_replica_ceiling,
  code_replicas_not_ready, code_queue_with_saturated_gpu,
}

module _ {A : Type 0} ⦃F : Float64 A⦄ where
  -- A deep queue.
  unfoldable pub is_queueing : Thresholds A → Snapshot A → Bool
  is_queueing t s = above s.requests_waiting t.queue_waiting_requests

  unfoldable pub eval_at_replica_ceiling : Eval A → Option (Finding A)
  unfolding is_queueing
  eval_at_replica_ceiling e =
      let s = e.latest in
      let t = e.t in
      find_if
        (not (not s.replicas.ok || not s.max_replicas.ok || F.le s.max_replicas.value (F.of_nat 0))
          && not (F.lt s.replicas.value s.max_replicas.value)
          && sustained e (is_queueing e.t))
        e
        (observation "replicas" "" s.replicas.value "replicas"
          ∷ observation "max_replicas" "" s.max_replicas.value "replicas"
          ∷ evidence_of "requests_waiting" (source_metric s.runtime "requests_waiting")
              s.requests_waiting.value t.queue_waiting_requests greater "requests"
          ∷ [])

  unfoldable pub at_replica_ceiling : Rule A
  at_replica_ceiling = record {
    code = code_at_replica_ceiling;
    severity = severity_critical;
    runtimes = [];
    supersedes = code_queue_with_saturated_gpu ∷ [];
    eval = eval_at_replica_ceiling;
  }

  unfoldable pub eval_replicas_not_ready : Eval A → Option (Finding A)
  eval_replicas_not_ready e =
      let s = e.latest in
      let t = e.t in
      let missing = F.sub s.replicas.value s.ready_replicas.value in
      find_if
        (not (not s.replicas.ok || not s.ready_replicas.ok)
          && not (F.lt missing (F.of_nat 1))
          && above s.requests_waiting t.queue_waiting_requests)
        e
        (observation "replicas" "" s.replicas.value "replicas"
          ∷ observation "ready_replicas" "" s.ready_replicas.value "replicas"
          ∷ evidence_of "requests_waiting" (source_metric s.runtime "requests_waiting")
              s.requests_waiting.value t.queue_waiting_requests greater "requests"
          ∷ [])

  unfoldable pub replicas_not_ready : Rule A
  replicas_not_ready = record {
    code = code_replicas_not_ready;
    severity = severity_critical;
    runtimes = [];
    supersedes = [];
    eval = eval_replicas_not_ready;
  }
