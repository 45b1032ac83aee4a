-- ===== src/Config.antt =====
-- internal/config/config.go: the configuration, its defaults, the environment overrides and its
-- validation. Durations are nanoseconds. The decoded file and url.Parse are arguments.
pub mod Validation
pub mod Loading
pub mod Passed
pub mod Accepted
pub mod Dsn
use inference_fabric_autopil.Prelude.{
  ℕ, suc, Bool, true, false, ◌&&◌, ◌||◌, not, Option, none, some, List, [], ◌∷◌, ◌++◌, ◌⊎◌, inl,
  inr, if◌then◌else◌,
}
use inference_fabric_autopil.Prelude.Int.{ℤ, pos, leb_ℤ, ltb_ℤ, ◌*ℤ◌}
use inference_fabric_autopil.Prelude.Texts.{Text, codes, text_eq}
use inference_fabric_autopil.Float.{Float64}
use inference_fabric_autopil.Telemetry.Snapshot.{severity_warning}
use inference_fabric_autopil.Promtext.Words.{is_empty, to_lower}
use inference_fabric_autopil.Promtext.Sample.{one_of}
use inference_fabric_autopil.Recommender.Engine.{contains}
use inference_fabric_autopil.Recommender.Eval.{trend_window}
use inference_fabric_autopil.Recommender.Thresholds.{Thresholds, default_thresholds}
use inference_fabric_autopil.Recommender.Thresholds
use inference_fabric_autopil.Alerting.Url.{Url, validate_url}
use inference_fabric_autopil.Alerting.Sender.{Options, valid_severity, default_timeout}
use inference_fabric_autopil.Collector.Target.{Target, CollectorOptions, validate_target}

pub record ServerConfig : Type 0 where
  pub address : Text
  pub read_header_timeout : ℤ
  pub read_timeout : ℤ
  pub write_timeout : ℤ
  pub idle_timeout : ℤ
  pub shutdown_timeout : ℤ

pub record LoggingConfig : Type 0 where
  pub level : Text
  pub format : Text

pub record TargetConfig : Type 0 where
  pub name : Text
  pub namespace : Text
  pub runtime : Text
  pub model_name : Text
  pub metrics_url : Text
  pub dcgm_url : Text
  pub deployment : Text

pub record CollectorConfig : Type 0 where
  pub interval : ℤ
  pub timeout : ℤ
  pub concurrency : ℤ
  pub max_body_bytes : ℤ
  pub targets : List TargetConfig

pub record TelemetryConfig : Type 0 where
  pub retention_samples : ℤ
  pub retention_period : ℤ

pub record KubernetesConfig : Type 0 where
  pub enabled : Bool
  pub namespace : Text
  pub label_selector : Text
  pub resync_period : ℤ

pub record DatabaseConfig : Type 0 where
  pub enabled : Bool
  pub dsn : Text
  pub queue_size : ℤ

pub record AlertingConfig : Type 0 where
  pub enabled : Bool
  pub webhook_url : Text
  pub min_severity : Text
  pub timeout : ℤ
  pub queue_size : ℤ

pub record ThresholdConfig (A : Type 0) : Type 0 where
  pub sustain_for : ℤ
  pub stale_after : ℤ
  pub queue_waiting_requests : A
  pub gpu_util_high_pct : A
  pub gpu_util_low_pct : A
  pub gpu_memory_high_pct : A
  pub kv_cache_high_pct : A
  pub preemptions_per_sec : A
  pub ttft_p95_ms : A
  pub e2e_p95_ms : A
  pub queue_share_of_ttft_pct : A
  pub tail_ratio_p99_p95 : A
  pub tokens_per_second_low : A
  pub prefix_cache_hit_low_pct : A
  pub error_rate_pct : A
  pub abort_rate_pct : A

pub record Config (A : Type 0) : Type 0 where
  pub cluster_name : Text
  pub server : ServerConfig
  pub logging : LoggingConfig
  pub collector : CollectorConfig
  pub telemetry : TelemetryConfig
  pub kubernetes : KubernetesConfig
  pub database : DatabaseConfig
  pub alerting : AlertingConfig
  -- `Recommender.Thresholds`
  pub thresholds : ThresholdConfig A

module _ {A : Type 0} where
  -- The conversion of the threshold block, either way.
  abbrev pub to_thresholds : ThresholdConfig A → Thresholds A
  to_thresholds t = record {
    sustain_for = t.sustain_for;
    stale_after = t.stale_after;
    queue_waiting_requests = t.queue_waiting_requests;
    gpu_util_high_pct = t.gpu_util_high_pct;
    gpu_util_low_pct = t.gpu_util_low_pct;
    gpu_memory_high_pct = t.gpu_memory_high_pct;
    kv_cache_high_pct = t.kv_cache_high_pct;
    preemptions_per_sec = t.preemptions_per_sec;
    ttft_p95_ms = t.ttft_p95_ms;
    e2e_p95_ms = t.e2e_p95_ms;
    queue_share_of_ttft_pct = t.queue_share_of_ttft_pct;
    tail_ratio_p99_p95 = t.tail_ratio_p99_p95;
    tokens_per_second_low = t.tokens_per_second_low;
    prefix_cache_hit_low_pct = t.prefix_cache_hit_low_pct;
    error_rate_pct = t.error_rate_pct;
    abort_rate_pct = t.abort_rate_pct;
  }

  abbrev pub of_thresholds : Thresholds A → ThresholdConfig A
  of_thresholds t = record {
    sustain_for = t.sustain_for;
    stale_after = t.stale_after;
    queue_waiting_requests = t.queue_waiting_requests;
    gpu_util_high_pct = t.gpu_util_high_pct;
    gpu_util_low_pct = t.gpu_util_low_pct;
    gpu_memory_high_pct = t.gpu_memory_high_pct;
    kv_cache_high_pct = t.kv_cache_high_pct;
    preemptions_per_sec = t.preemptions_per_sec;
    ttft_p95_ms = t.ttft_p95_ms;
    e2e_p95_ms = t.e2e_p95_ms;
    queue_share_of_ttft_pct = t.queue_share_of_ttft_pct;
    tail_ratio_p99_p95 = t.tail_ratio_p99_p95;
    tokens_per_second_low = t.tokens_per_second_low;
    prefix_cache_hit_low_pct = t.prefix_cache_hit_low_pct;
    error_rate_pct = t.error_rate_pct;
    abort_rate_pct = t.abort_rate_pct;
  }

-- `toCollectorTarget`, without its check.
abbrev pub collector_target : TargetConfig → Target
collector_target t = record {
  workload_name = t.name;
  namespace = t.namespace;
  runtime = to_lower t.runtime;
  model_name = t.model_name;
  metrics_url = t.metrics_url;
  dcgm_url = t.dcgm_url;
  deployment = t.deployment;
}

-- The value of a variable, where it is set and not empty.
abbrev pub or_env : Text → Text → Text
or_env v old = if is_empty v then old else v

module _ {A : Type 0} where
  -- `applyEnv`; an unset variable is empty.
  unfoldable pub apply_env : (Text → Text) → Config A → Config A
  apply_env env c = record c {
    database = record c.database { dsn = or_env (env (codes "IFA_DATABASE_DSN")) c.database.dsn };
    alerting = record c.alerting {
      webhook_url = or_env (env (codes "IFA_ALERTING_WEBHOOK_URL")) c.alerting.webhook_url;
    };
    logging = record {
      level = or_env (env (codes "IFA_LOG_LEVEL")) c.logging.level;
      format = or_env (env (codes "IFA_LOG_FORMAT")) c.logging.format;
    };
    server = record c.server { address = or_env (env (codes "IFA_ADDRESS")) c.server.address };
    cluster_name = or_env (env (codes "IFA_CLUSTER_NAME")) c.cluster_name;
  }

  -- `AlertingOptions`; the caller supplies the logger, and the backoff is left to its default.
  unfoldable pub alerting_options : Bool → Config A → Options
  unfolding to_lower
  alerting_options has_logger c = record {
    has_logger = has_logger;
    url = c.alerting.webhook_url;
    min_severity = to_lower c.alerting.min_severity;
    cluster = c.cluster_name;
    timeout = c.alerting.timeout;
    queue_size = c.alerting.queue_size;
    backoff = pos 0;
  }

  -- The options that cmd/control-plane makes of the configuration for the collector.
  unfoldable pub collector_options : Config A → CollectorOptions
  collector_options c = record {
    has_logger = true;
    interval = c.collector.interval;
    timeout = c.collector.timeout;
    max_body_bytes = c.collector.max_body_bytes;
    concurrency = c.collector.concurrency;
  }
