-- ===== src/Runtime.antt =====
-- internal/runtime: what an adapter reads from one scrape, and the steps that the adapters for vLLM
-- and Triton share. A metric that is read is marked as seen where some series had a value.
pub mod Vllm
pub mod Triton
pub mod Dcgm
pub mod Missing
use inference_fabric_autopil.Prelude.{
  ℕ, Bool, true, false, ◌||◌, Option, none, some, List, [], ◌∷◌, if◌then◌else◌,
}
use inference_fabric_autopil.Prelude.Int.{pos}
use inference_fabric_autopil.Prelude.Texts.{Text, text_lt}
use inference_fabric_autopil.Prelude.Maps.{Map, lookup, insert}
use inference_fabric_autopil.Prelude.Sort.{sort_by}
use inference_fabric_autopil.Float.{Float64, FloatText}
use inference_fabric_autopil.Telemetry.Metric.{Metric, observed_if, unmeasured}
use inference_fabric_autopil.Telemetry.Snapshot.{Snapshot}
use inference_fabric_autopil.Promtext.Labels.{Labels}
use inference_fabric_autopil.Promtext.Families.{MetricFamilies, sum, max}
use inference_fabric_autopil.Promtext.Quantile.{quantile}

-- `Reading`
pub record Reading (A : Type 0) : Type 0 where
  pub snapshot : Snapshot A
  pub counters : Map A
  pub missing : List Text
  pub unparseable_lines : ℕ

-- The map `seen` of an adapter.
abbrev pub Seen : Type 0
Seen = Map Bool

unfoldable pub is_seen : Text → Seen → Bool
is_seen name seen = elim (lookup name seen) [ none ↦ false | some b ↦ b ]

-- `seen[name] = seen[name] || ok`
unfoldable pub mark : Text → Bool → Seen → Seen
unfolding is_seen
mark name ok seen = insert name (is_seen name seen || ok) seen

-- The loop of `missingFrom`.
unfoldable pub unseen : (Text → Bool) → List Text → Seen → List Text
unfolding is_seen
unseen optional [] seen = []
unseen optional (name ∷ names) seen =
    let rest = unseen optional names seen in
    if optional name || is_seen name seen then rest else name ∷ rest

-- `missingFrom`
unfoldable pub missing_from : (Text → Bool) → List Text → Seen → List Text
unfolding unseen
missing_from optional expected seen = sort_by text_lt (unseen optional expected seen)

module _ {A : Type 0} ⦃F : Float64 A⦄ where
  -- `if v, ok := …; ok { r.Counters[…] = v }`
  abbrev pub count_if : Text → A × Bool → Map A → Map A
  count_if counter (v, ok) counters = if ok then insert counter v counters else counters

  -- The metric of a value that a query gave.
  abbrev pub observed_of : A × Bool → Metric A
  observed_of (v, ok) = observed_if v ok

  -- `if v := sum(…); v.OK { r.Counters[…] = v.Value }`
  abbrev pub count_metric : Text → Metric A → Map A → Map A
  count_metric counter m counters = if m.ok then insert counter m.value counters else counters

  -- `Snapshot{}` with a runtime and a model; the collector sets the other fields that are not
  -- metrics.
  abbrev pub snapshot_of : Text → Text → Snapshot A
  snapshot_of runtime model_name = record {
    timestamp = pos 0;
    cluster_name = [];
    namespace = [];
    workload_name = [];
    runtime = runtime;
    model_name = model_name;
    request_rate_per_sec = unmeasured;
    tokens_per_second = unmeasured;
    prompt_tokens_per_sec = unmeasured;
    p50_latency_ms = unmeasured;
    p95_latency_ms = unmeasured;
    p99_latency_ms = unmeasured;
    ttft_p50_ms = unmeasured;
    ttft_p95_ms = unmeasured;
    ttft_p99_ms = unmeasured;
    queue_time_p95_ms = unmeasured;
    requests_running = unmeasured;
    requests_waiting = unmeasured;
    waiting_for_capacity = unmeasured;
    waiting_deferred = unmeasured;
    gpu_utilization_pct = unmeasured;
    gpu_memory_used_pct = unmeasured;
    kv_cache_usage_pct = unmeasured;
    preemptions_per_sec = unmeasured;
    prefix_cache_hit_rate_pct = unmeasured;
    error_rate_pct = unmeasured;
    abort_rate_pct = unmeasured;
    replicas = unmeasured;
    ready_replicas = unmeasured;
    max_replicas = unmeasured;
    scrape_duration_ms = unmeasured;
    metrics_missing = [];
  }

-- The labels that select a model, none for the empty name.
abbrev pub select_model : Text → Text → Labels
select_model label [] = []
select_model label (c ∷ model) = (label, c ∷ model) ∷ []
