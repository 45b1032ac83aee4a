-- ===== src/Kubernetes.antt =====
-- internal/k8s/watcher.go: what the watcher reads from its caches. The caches of client-go are
-- arguments; building the client, the informers and `Start` are left out.
pub mod Restarts
pub mod Ceiling
use inference_fabric_autopil.Prelude.{
  ℕ, ◌+◌, ◌-◌, ltb, Bool, true, false, ◌&&◌, Option, none, some, List, [], ◌∷◌, map, if◌then◌else◌,
}
use inference_fabric_autopil.Prelude.Int.{ℤ, pos, negsuc, pos_part, neg_part, ◌+ℤ◌}
use Prim.Native.Nat.{◌%◌}
use inference_fabric_autopil.Prelude.Texts.{Text, codes, text_eq}
use inference_fabric_autopil.Prelude.Maps.{Map, lookup}
use inference_fabric_autopil.Collector.Scrape.{ReplicaCounts}

-- The resources of a container, with each quantity as `String` prints it.
pub record Container : Type 0 where
  pub requests : Map Text
  pub limits : Map Text

-- The fields of a Deployment that the watcher reads; `L` is the type of label selectors.
pub record Deployment (L : Type 0) : Type 0 where
  pub name : Text
  pub namespace : Text
  pub labels : Map Text
  pub annotations : Map Text
  pub wanted_replicas : Option ℤ
  pub status_replicas : ℤ
  pub ready_replicas : ℤ
  pub selector : Option L
  pub containers : List Container

-- The restart counts of a pod's containers.
pub record Pod : Type 0 where
  pub restart_counts : List ℤ

pub record Autoscaler : Type 0 where
  pub target_kind : Text
  pub target_name : Text
  pub limit : ℤ

-- The listers of the caches, and the conversion of a selector; `none` is an error.
pub record Caches (L S : Type 0) : Type 0 where
  pub deployments : Option (List (Deployment L))
  pub deployment : Text → Text → Option (Deployment L)
  pub as_selector : L → Option S
  pub pods : Text → S → Option (List Pod)
  pub autoscalers : Text → Option (List Autoscaler)

-- `Workload`
pub record Workload : Type 0 where
  pub name : Text
  pub namespace : Text
  pub runtime : Text
  pub model_name : Text
  pub replicas : ℤ
  pub ready_replicas : ℤ
  pub max_replicas : ℤ
  pub restart_count : ℤ
  pub gpu_request : Text
  pub labels : Map Text
  pub last_updated : ℤ

-- The integer of 32 bits that is congruent.
unfoldable pub to_int32 : ℤ → ℤ
to_int32 z =
    let u = (pos_part z + (4_294_967_296 - neg_part z % 4_294_967_296)) % 4_294_967_296 in
    if ltb u 2_147_483_648 then pos u else negsuc (4_294_967_295 - u)

-- `m[k]` of a map of strings.
abbrev pub text_at : Text → Map Text → Text
text_at k m = elim (lookup k m) [ none ↦ [] | some v ↦ v ]

-- `gpuRequest`
unfoldable pub gpu_request : List Container → Text
gpu_request [] = []
gpu_request (c ∷ cs) =
    let rest = gpu_request cs in
    elim (lookup (codes "nvidia.com/gpu") c.requests) [
      | some q ↦ q
      | none ↦ elim (lookup (codes "nvidia.com/gpu") c.limits) [ some q ↦ q | none ↦ rest ]
    ]

-- The inner loop of `restartsFor`.
unfoldable pub add_counts : List ℤ → ℤ → ℤ
unfolding to_int32
add_counts [] total = total
add_counts (n ∷ ns) total = add_counts ns (to_int32 (total +ℤ n))

-- The outer loop.
unfoldable pub add_pods : List Pod → ℤ → ℤ
unfolding add_counts
add_pods [] total = total
add_pods (p ∷ ps) total = add_pods ps (add_counts p.restart_counts total)

-- The loop of `maxReplicasFor`.
unfoldable pub limit_for : Text → List Autoscaler → ℤ
limit_for name [] = pos 0
limit_for name (h ∷ hs) =
    let rest = limit_for name hs in
    if text_eq h.target_kind (codes "Deployment") && text_eq h.target_name name
    then h.limit
    else rest

module _ {L S : Type 0} (c : Caches L S) where
  -- `restartsFor`
  unfoldable pub restarts_for : Deployment L → ℤ
  unfolding add_pods
  restarts_for d = elim d.selector [
    | none ↦ pos 0
    | some l ↦ elim (c.as_selector l) [
      | none ↦ pos 0
      | some s ↦ elim (c.pods d.namespace s) [ none ↦ pos 0 | some ps ↦ add_pods ps (pos 0) ]
    ]
  ]

  -- `maxReplicasFor`
  unfoldable pub max_replicas_for : Deployment L → ℤ
  unfolding limit_for
  max_replicas_for d = elim (c.autoscalers d.namespace) [
    | none ↦ pos 0
    | some hs ↦ limit_for d.name hs
  ]

  -- `workloadFor`
  unfoldable pub workload_for : ℤ → Deployment L → Workload
  unfolding gpu_request restarts_for max_replicas_for
  workload_for now d = record {
    name = d.name;
    namespace = d.namespace;
    runtime = text_at (codes "inference.io/runtime") d.labels;
    model_name = text_at (codes "inference.io/model") d.annotations;
    replicas = elim d.wanted_replicas [ none ↦ d.status_replicas | some n ↦ n ];
    ready_replicas = d.ready_replicas;
    max_replicas = max_replicas_for d;
    restart_count = restarts_for d;
    gpu_request = gpu_request d.containers;
    labels = d.labels;
    last_updated = now;
  }

  -- `All`; it returns nil where the cache cannot be listed.
  unfoldable pub all_workloads : ℤ → List Workload
  unfolding workload_for
  all_workloads now = elim c.deployments [ none ↦ [] | some ds ↦ map (workload_for now) ds ]

  -- `Replicas`, the lookup that the collector is given.
  unfoldable pub replica_counts : ℤ → Text → Text → Option ReplicaCounts
  unfolding workload_for
  replica_counts now namespace name = elim (c.deployment namespace name) [
    | none ↦ none
    | some d ↦
        let w = workload_for now d in
        some (record { desired = w.replicas; ready = w.ready_replicas; limit = w.max_replicas })
  ]
