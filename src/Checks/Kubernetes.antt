-- ===== src/Checks/Kubernetes.antt =====
-- A deployment with two pods and an autoscaler.
use inference_fabric_autopil.Prelude.{◌≡◌, refl, none, some, List, [], ◌∷◌, ◌&&◌, if◌then◌else◌}
use inference_fabric_autopil.Prelude.Int.{ℤ, pos, negsuc, ◌+ℤ◌}
use inference_fabric_autopil.Prelude.Texts.{Text, codes, text_eq}
use inference_fabric_autopil.Prelude.Maps.{lookup}
use inference_fabric_autopil.Float.Sample.{sample}
use inference_fabric_autopil.Telemetry.Metric.{observed}
use inference_fabric_autopil.Telemetry.Snapshot.{runtime_vllm}
use inference_fabric_autopil.Collector.Target.{Target}
use inference_fabric_autopil.Collector.Scrape.{apply_workload_context}
use inference_fabric_autopil.Kubernetes.{
  Deployment, Pod, Caches, to_int32, restarts_for, replica_counts, gpu_request, add_pods,
  add_counts, workload_for, max_replicas_for, limit_for,
}
use inference_fabric_autopil.Kubernetes.Restarts.{sum_pods, restarts_for_lem}
use inference_fabric_autopil.Kubernetes.Ceiling.{HasCeiling, deployment_name, max_replicas-from}
use inference_fabric_autopil.Checks.Data.{busy_at, at_second}

abbrev chat : Deployment Text
chat = record {
  name = codes "chat";
  namespace = codes "ml";
  labels = [];
  annotations = [];
  wanted_replicas = none;
  status_replicas = pos 2;
  ready_replicas = pos 1;
  selector = some (codes "app=chat");
  containers =
      record { requests = []; limits = [] }
      ∷ record { requests = []; limits = (codes "nvidia.com/gpu", codes "1") ∷ [] }
      ∷ [];
}

abbrev pods : List Pod
pods =
    record { restart_counts = pos 2_147_483_647 ∷ pos 3 ∷ [] }
    ∷ record { restart_counts = pos 1 ∷ [] }
    ∷ []

abbrev caches : Caches Text Text
caches = record {
  deployments = some (chat ∷ []);
  deployment = λ namespace name.
      (if text_eq namespace (codes "ml") && text_eq name (codes "chat") then some chat else none);
  as_selector = λ l. some l;
  pods = λ namespace s. some pods;
  autoscalers = λ namespace.
      (some (
        record { target_kind = codes "StatefulSet"; target_name = codes "chat"; limit = pos 9 }
        ∷ record { target_kind = codes "Deployment"; target_name = codes "chat"; limit = pos 4 }
        ∷ []));
}

abbrev target : Target
target = record {
  workload_name = codes "chat";
  namespace = codes "ml";
  runtime = runtime_vllm;
  model_name = codes "m";
  metrics_url = codes "u";
  dcgm_url = [];
  deployment = [];
}

-- The first container asks for nothing.
gpu_of_second : gpu_request chat.containers ≡ codes "1"
unfolding gpu_request lookup text_eq
gpu_of_second = refl

-- The sum of the restarts is 2^31 + 3.
restarts_wrapped : restarts_for caches chat ≡ negsuc 2_147_483_644
unfolding restarts_for add_pods add_counts to_int32 ◌+ℤ◌
restarts_wrapped = refl

restarts_for_lem_example : restarts_for caches chat ≡ to_int32 (pos (sum_pods pods))
restarts_for_lem_example =
    restarts_for_lem caches chat (codes "app=chat") (codes "app=chat") pods refl refl refl
      ((refl, (refl, tt)), ((refl, tt), tt))

max_replicas-from_example :
    (d : Deployment Text) × (limit : ℤ) × (caches.deployment (codes "ml") (deployment_name target)
      ≡ some d)
    × HasCeiling caches d limit
    × ((apply_workload_context
          (replica_counts caches (at_second 9))
          target
          (busy_at 9)).max_replicas
        ≡ observed (sample.of_int limit))
unfolding apply_workload_context replica_counts workload_for max_replicas_for limit_for text_eq
    observed
max_replicas-from_example = max_replicas-from caches (at_second 9) target (busy_at 9) refl refl
