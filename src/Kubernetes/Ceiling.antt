-- ===== src/Kubernetes/Ceiling.antt =====
-- Where the replica ceiling of a snapshot comes from.
use inference_fabric_autopil.Prelude.{
  ◌≡◌, refl, sym, ap, ◌∙◌, true, false, ◌&&◌, none, some, List, [], ◌∷◌, Elem, arith, inl, inr,
  if◌then◌else◌, Bool-cases, Option-cases,
}
use inference_fabric_autopil.Prelude.Int.{ℤ, pos, ltb_ℤ}
use inference_fabric_autopil.Prelude.Texts.{Text, codes, text_eq, text_eq→eq}
use inference_fabric_autopil.Float.{Float64}
use inference_fabric_autopil.Telemetry.Metric.{observed}
use inference_fabric_autopil.Telemetry.Snapshot.{Snapshot}
use inference_fabric_autopil.Collector.Target.{Target}
use inference_fabric_autopil.Collector.Scrape.{apply_workload_context}
use inference_fabric_autopil.Kubernetes.{
  Caches, Deployment, Autoscaler, limit_for, max_replicas_for, workload_for, replica_counts,
}

-- The autoscaler scales the deployment of that name.
abbrev pub Scales : Text → Autoscaler → Type 0
Scales name h = (h.target_kind ≡ codes "Deployment") × (h.target_name ≡ name)

limit_for-from :
    (name : Text) (hs : List Autoscaler)
    → ltb_ℤ (pos 0) (limit_for name hs) ≡ true
    → (h : Autoscaler) × Elem h hs × Scales name h × (limit_for name hs ≡ h.limit)
unfolding limit_for
limit_for-from name [] p = cc
limit_for-from name (h ∷ hs) p =
    elim (Bool-cases (text_eq h.target_kind (codes "Deployment") && text_eq h.target_name name)) [
      | inl t ↦ (
        h,
        inl refl,
        (
          text_eq→eq h.target_kind (codes "Deployment") (ground arith),
          text_eq→eq h.target_name name (ground arith),
        ),
        rw t refl,
      )
      | inr f ↦
          let p' = rw f at p in
          let (g, m, scales, e) = limit_for-from name hs p' in (g, inr m, scales, rw f e)
    ]

-- The autoscaler of a deployment, in its namespace, with the limit.
abbrev pub HasCeiling : {L S : Type 0} → Caches L S → Deployment L → ℤ → Type 0
HasCeiling c d limit =
    (hs : List Autoscaler) × (h : Autoscaler) × (c.autoscalers d.namespace ≡ some hs)
    × Elem h hs
    × Scales d.name h
    × (limit ≡ h.limit)

-- The name under which the collector looks for the deployment of a target.
abbrev pub deployment_name : Target → Text
deployment_name t = if text_eq t.deployment [] then t.workload_name else t.deployment

module _ {L S : Type 0} (c : Caches L S) where
  limit-of_list :
      (d : Deployment L) (hs : List Autoscaler)
      → c.autoscalers d.namespace ≡ some hs
      → max_replicas_for c d ≡ limit_for d.name hs
  unfolding max_replicas_for
  limit-of_list d hs e = ground arith

  max_replicas_for-from :
      (d : Deployment L)
      → ltb_ℤ (pos 0) (max_replicas_for c d) ≡ true
      → HasCeiling c d (max_replicas_for c d)
  unfolding max_replicas_for
  max_replicas_for-from d p = elim (Option-cases (c.autoscalers d.namespace)) [
    | inl n ↦ absurd (ground arith)
    | inr (hs, e) ↦
        let same = limit-of_list d hs e in
        let (h, m, scales, l) = limit_for-from d.name hs (ap (ltb_ℤ (pos 0)) (sym same) ∙ p) in
        (hs, h, e, m, scales, same ∙ l)
  ]

  module _ {A : Type 0} ⦃F : Float64 A⦄ (now : ℤ) (t : Target) (snap : Snapshot A) where
    -- No deployment leaves the ceiling as it is.
    ceiling-none :
        c.deployment t.namespace (deployment_name t) ≡ none
        → (apply_workload_context (replica_counts c now) t snap).max_replicas ≡ snap.max_replicas
    unfolding apply_workload_context replica_counts
    ceiling-none n = cc

    ceiling-some :
        (d : Deployment L)
        → c.deployment t.namespace (deployment_name t) ≡ some d
        → (apply_workload_context (replica_counts c now) t snap).max_replicas ≡ (
            if ltb_ℤ (pos 0) (max_replicas_for c d)
            then observed (F.of_int (max_replicas_for c d))
            else snap.max_replicas)
    unfolding apply_workload_context replica_counts workload_for
    ceiling-some d e = cc

    -- A snapshot of a scrape that did not know the replica ceiling has one afterwards only where the
    -- watcher has cached a deployment under the target's namespace and name, and an autoscaler of
    -- that deployment; the ceiling is the limit of this autoscaler.
    pub max_replicas-from :
        snap.max_replicas.ok ≡ false
        → (apply_workload_context (replica_counts c now) t snap).max_replicas.ok ≡ true
        → (d : Deployment L) × (limit : ℤ) × (c.deployment t.namespace (deployment_name t) ≡ some d)
          × HasCeiling c d limit
          × ((apply_workload_context (replica_counts c now) t snap).max_replicas
              ≡ observed (F.of_int limit))
    max_replicas-from unknown p =
        elim (Option-cases (c.deployment t.namespace (deployment_name t))) [
          | inl n ↦ absurd (let e = ceiling-none n in ground arith)
          | inr (d, e) ↦
              let same = ceiling-some d e in
              elim (Bool-cases (ltb_ℤ (pos 0) (max_replicas_for c d))) [
                | inr f ↦ absurd (let same' = rw f at same in ground arith)
                | inl q ↦ (d, max_replicas_for c d, e, max_replicas_for-from d q, same ∙ rw q refl)
              ]
        ]
