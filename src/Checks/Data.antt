-- ===== src/Checks/Data.antt =====
-- Snapshots, thresholds and findings for the examples.
use inference_fabric_autopil.Prelude.{ℕ, ◌*◌, true, false, List, [], ◌∷◌}
use inference_fabric_autopil.Prelude.Int.{ℤ, pos}
use inference_fabric_autopil.Prelude.Texts.{Text, codes}
use inference_fabric_autopil.Float.Sample.{Num, num, sample}
use inference_fabric_autopil.Telemetry.Metric.{Metric}
use inference_fabric_autopil.Telemetry.Snapshot.{
  Snapshot, Recommendation, runtime_vllm, severity_warning, severity_critical,
}
use inference_fabric_autopil.Recommender.Thresholds.{Thresholds}
use inference_fabric_autopil.Recommender.Eval.{Eval}

abbrev pub at_second : ℕ → ℤ
at_second n = pos (n * 1_000_000_000)

abbrev pub measured : ℕ → Metric Num
measured n = record { value = num n; ok = true }

abbrev pub missing : Metric Num
missing = record { value = num 0; ok = false }

-- A vLLM workload with a queue of 20 on a GPU at 95 percent.
abbrev pub busy_at : ℕ → Snapshot Num
busy_at t = record {
  timestamp = at_second t;
  cluster_name = codes "east";
  namespace = codes "ml";
  workload_name = codes "chat";
  runtime = runtime_vllm;
  model_name = codes "m";
  request_rate_per_sec = missing;
  tokens_per_second = measured 900;
  prompt_tokens_per_sec = missing;
  p50_latency_ms = missing;
  p95_latency_ms = measured 12000;
  p99_latency_ms = missing;
  ttft_p50_ms = missing;
  ttft_p95_ms = measured 2000;
  ttft_p99_ms = missing;
  queue_time_p95_ms = measured 2000;
  requests_running = measured 4;
  requests_waiting = measured 20;
  waiting_for_capacity = missing;
  waiting_deferred = missing;
  gpu_utilization_pct = measured 95;
  gpu_memory_used_pct = missing;
  kv_cache_usage_pct = missing;
  preemptions_per_sec = missing;
  prefix_cache_hit_rate_pct = missing;
  error_rate_pct = missing;
  abort_rate_pct = missing;
  replicas = missing;
  ready_replicas = missing;
  max_replicas = missing;
  scrape_duration_ms = measured 5;
  metrics_missing = [];
}

abbrev pub limits : Thresholds Num
limits = record {
  sustain_for = at_second 45;
  stale_after = at_second 120;
  queue_waiting_requests = num 8;
  gpu_util_high_pct = num 85;
  gpu_util_low_pct = num 35;
  gpu_memory_high_pct = num 90;
  kv_cache_high_pct = num 90;
  preemptions_per_sec = num 0;
  ttft_p95_ms = num 1000;
  e2e_p95_ms = num 10000;
  queue_share_of_ttft_pct = num 50;
  tail_ratio_p99_p95 = num 3;
  tokens_per_second_low = num 200;
  prefix_cache_hit_low_pct = num 10;
  error_rate_pct = num 2;
  abort_rate_pct = num 5;
}

abbrev pub busy_history : List (Snapshot Num)
busy_history = busy_at 0 ∷ busy_at 30 ∷ busy_at 60 ∷ []

abbrev pub busy : Eval Num
busy = record { latest = busy_at 60; window = busy_history; t = limits; now = at_second 61 }

abbrev pub alert : Text → Text → Recommendation Num
alert id severity = record {
  id = id;
  code = codes "IFA-CAP-001";
  severity = severity;
  namespace = codes "ml";
  workload_name = codes "chat";
  runtime = runtime_vllm;
  evidence = [];
  observed_at = at_second 60;
  window_seconds = pos 60;
}

abbrev pub findings : List (Recommendation Num)
findings = alert (codes "a") severity_warning ∷ alert (codes "b") severity_critical ∷ []
