-- ===== src/Collector/Scrape.antt =====
-- internal/collector/collector.go: the scrape of one target. The adapter's reading, the devices that
-- the DCGM package finds, and the replica counts of the cluster are arguments.
pub mod Stored
pub mod Devices
use inference_fabric_autopil.Prelude.{
  ℕ, Bool, true, false, ◌&&◌, ◌||◌, not, Option, none, some, List, [], ◌∷◌, ◌++◌, if◌then◌else◌,
  is_some,
}
use inference_fabric_autopil.Prelude.Int.{ℤ, pos, ltb_ℤ, ◌-ℤ◌}
use inference_fabric_autopil.Prelude.Texts.{Text, codes, text_eq}
use inference_fabric_autopil.Prelude.Maps.{Map, lookup}
use inference_fabric_autopil.Float.{Float64}
use inference_fabric_autopil.Telemetry.Metric.{Metric, observed, observed_if}
use inference_fabric_autopil.Telemetry.Snapshot.{Snapshot}
use inference_fabric_autopil.Telemetry.Store.{Store, add}
use inference_fabric_autopil.Runtime.{Reading}
use inference_fabric_autopil.Runtime.Dcgm.{Device}
use inference_fabric_autopil.Collector.Rates.{RateEntry, rate}
use inference_fabric_autopil.Collector.Target.{Target, target_key, has_adapter}

-- `Replicas` of the watcher.
pub record ReplicaCounts : Type 0 where
  pub desired : ℤ
  pub ready : ℤ
  pub limit : ℤ

module _ {A : Type 0} ⦃F : Float64 A⦄ where
  -- The local function `rate` of `applyRates`.
  unfoldable pub rate_named :
      Text → Map A → ℤ → Text → Map (RateEntry A) → Map (RateEntry A) × Option A
  unfolding rate
  rate_named key counters now name entries = elim (lookup name counters) [
    | none ↦ (entries, none)
    | some v ↦ rate entries (key ++ codes "|" ++ name) v now
  ]

  -- `if v, ok := …; ok { field = Observed(v) }`
  abbrev pub observe_some : Option A → Metric A → Metric A
  observe_some none m = m
  observe_some (some v) m = observed v

  -- The share of one rate in a total that is more than zero, in percent.
  abbrev pub observe_share : Option A → Option A → Metric A → Metric A
  observe_share (some part) (some total) m =
      if F.lt (F.of_nat 0) total then observed (F.mul (F.div part total) (F.of_nat 100)) else m
  observe_share _ _ m = m

  abbrev pub sum_of : Option A → Option A → Option A
  sum_of (some a) (some b) = some (F.add a b)
  sum_of _ _ = none

  -- `applyRates`
  unfoldable pub apply_rates :
      Text → Map A → ℤ → Snapshot A → Map (RateEntry A) → Map (RateEntry A) × Snapshot A
  unfolding rate_named
  apply_rates key counters now snap e0 =
      let next = rate_named key counters now in
      let (e1, generation) = next (codes "generation_tokens") e0 in
      let (e2, prompt) = next (codes "prompt_tokens") e1 in
      let (e3, preempted) = next (codes "preemptions") e2 in
      let (e4, finished) = next (codes "requests_finished") e3 in
      let (e5, failed) = next (codes "requests_failed") e4 in
      let (e6, aborted) = next (codes "requests_aborted") e5 in
      let (e7, queries) = next (codes "prefix_cache_queries") e6 in
      let (e8, hits) = next (codes "prefix_cache_hits") e7 in
      (
        e8,
        record snap {
          tokens_per_second = observe_some generation snap.tokens_per_second;
          prompt_tokens_per_sec = observe_some prompt snap.prompt_tokens_per_sec;
          preemptions_per_sec = observe_some preempted snap.preemptions_per_sec;
          request_rate_per_sec = observe_some finished snap.request_rate_per_sec;
          error_rate_pct = observe_share failed (sum_of finished failed) snap.error_rate_pct;
          abort_rate_pct = observe_share aborted finished snap.abort_rate_pct;
          prefix_cache_hit_rate_pct = observe_share hits queries snap.prefix_cache_hit_rate_pct;
        },
      )

  -- The loop of `applyGPU` for one of the two metrics.
  unfoldable pub max_of : (Device A → Metric A) → List (Device A) → A → Bool → Metric A
  unfolding observed_if
  max_of pick [] best have = observed_if best have
  max_of pick (d ∷ ds) best have =
      let m = pick d in
      let taken = m.ok && (not have || F.lt best m.value) in
      max_of pick ds (if taken then m.value else best) (have || taken)

  -- `applyGPU`; `none` is a fetch that failed, a payload that does not parse, or no DCGM endpoint.
  unfoldable pub apply_gpu : Option (List (Device A)) → Snapshot A → Snapshot A
  unfolding max_of
  apply_gpu none snap = snap
  apply_gpu (some []) snap = snap
  apply_gpu (some (d ∷ ds)) snap = record snap {
    gpu_utilization_pct = max_of (λ g. g.utilization_pct) (d ∷ ds) (F.of_nat 0) false;
    gpu_memory_used_pct = max_of (λ g. g.memory_used_pct) (d ∷ ds) (F.of_nat 0) false;
  }

  -- `applyWorkloadContext`; `replicas` is the lookup of the watcher.
  unfoldable pub apply_workload_context :
      (Text → Text → Option ReplicaCounts) → Target → Snapshot A → Snapshot A
  unfolding observed
  apply_workload_context replicas t snap =
      let name = if text_eq t.deployment [] then t.workload_name else t.deployment in
      elim (replicas t.namespace name) [
        | none ↦ snap
        | some c ↦ record snap {
          replicas = observed (F.of_int c.desired);
          ready_replicas = observed (F.of_int c.ready);
          max_replicas =
              if ltb_ℤ (pos 0) c.limit then observed (F.of_int c.limit) else snap.max_replicas;
        }
      ]

  -- `Scrape`; `none` as the reading is a fetch or a parse that failed.
  unfoldable pub scrape :
      Text
      → Target
      → Option (Reading A)
      → Option (List (Device A))
      → (Text → Text → Option ReplicaCounts)
      → ℤ
      → Map (RateEntry A)
      → Map (RateEntry A) × Option (Snapshot A)
  unfolding apply_rates apply_gpu apply_workload_context
  scrape cluster t none devices replicas now entries = (entries, none)
  scrape cluster t (some reading) devices replicas now entries =
      if not (has_adapter t.runtime)
      then (entries, none)
      else let (entries', rated) =
          apply_rates (target_key t) reading.counters now
            (record reading.snapshot {
              timestamp = now;
              cluster_name = cluster;
              namespace = t.namespace;
              workload_name = t.workload_name;
              runtime = t.runtime;
              model_name =
                  if text_eq reading.snapshot.model_name []
                  then t.model_name
                  else reading.snapshot.model_name;
              metrics_missing = reading.missing;
            })
            entries in
        (entries', some (apply_workload_context replicas t (apply_gpu devices rated)))

  -- What `scrapeOne` does to the store with the result of `Scrape`; the store's clock reads `at`.
  unfoldable pub keep_scrape : Option (Snapshot A) → ℕ → ℤ → Store A → Store A
  unfolding observed add
  keep_scrape none elapsed_ms at s = s
  keep_scrape (some snap) elapsed_ms at s =
      (add s at (record snap { scrape_duration_ms = observed (F.of_nat elapsed_ms) })).0
