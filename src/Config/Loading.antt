-- ===== src/Config/Loading.antt =====
-- internal/config/config.go: the built-in configuration, and `Load`.
use inference_fabric_autopil.Prelude.{
  Bool, false, Option, none, some, [], ◌⊎◌, inl, inr, if◌then◌else◌,
}
use inference_fabric_autopil.Prelude.Int.{pos}
use inference_fabric_autopil.Prelude.Texts.{Text, codes}
use inference_fabric_autopil.Float.{Float64}
use inference_fabric_autopil.Telemetry.Snapshot.{severity_warning}
use inference_fabric_autopil.Recommender.Thresholds.{default_thresholds}
use inference_fabric_autopil.Alerting.Url.{Url}
use inference_fabric_autopil.Alerting.Sender.{default_timeout}
use inference_fabric_autopil.Config.{Config, of_thresholds, apply_env}
use inference_fabric_autopil.Config.Validation.{ConfigError, validate_config}

-- What reading and decoding the file over the defaults gives.
pub data FileResult (A : Type 0) : Type 0 where
  decoded : Config A → FileResult A
  undecodable : FileResult A
  not_found : FileResult A
  unreadable : FileResult A

pub data LoadError : Type 0 where
  parsing_failed : LoadError
  reading_failed : LoadError
  invalid : ConfigError → LoadError

module _ {A : Type 0} ⦃F : Float64 A⦄ where
  -- `Default`
  unfoldable pub default_config : Config A
  unfolding default_thresholds
  default_config = record {
    cluster_name = codes "default";
    server = record {
      address = codes ":8080";
      read_header_timeout = pos 5_000_000_000;
      read_timeout = pos 15_000_000_000;
      write_timeout = pos 30_000_000_000;
      idle_timeout = pos 60_000_000_000;
      shutdown_timeout = pos 10_000_000_000;
    };
    logging = record { level = codes "info"; format = codes "json" };
    collector = record {
      interval = pos 15_000_000_000;
      timeout = pos 10_000_000_000;
      concurrency = pos 8;
      max_body_bytes = pos 8_388_608;
      targets = [];
    };
    telemetry = record { retention_samples = pos 120; retention_period = pos 900_000_000_000 };
    kubernetes = record {
      enabled = false;
      namespace = codes "inference";
      label_selector = [];
      resync_period = pos 600_000_000_000;
    };
    database = record { enabled = false; dsn = []; queue_size = pos 1024 };
    alerting = record {
      enabled = false;
      webhook_url = [];
      min_severity = severity_warning;
      timeout = default_timeout;
      queue_size = pos 256;
    };
    thresholds = of_thresholds default_thresholds;
  }

  -- The end of `Load`.
  unfoldable pub checked : (Text → Option Url) → (Text → Text) → Config A → LoadError ⊎ Config A
  unfolding apply_env validate_config
  checked parse env c = elim (validate_config parse (apply_env env c)) [
    | some error ↦ inl (invalid error)
    | none ↦ inr (apply_env env c)
  ]

  -- `Load`
  unfoldable pub load :
      (Text → Option Url) → (Text → Text) → Bool → FileResult A → LoadError ⊎ Config A
  unfolding checked default_config
  load parse env required (decoded c) = checked parse env c
  load parse env required undecodable = inl parsing_failed
  load parse env required not_found =
      if required then inl reading_failed else checked parse env default_config
  load parse env required unreadable = inl reading_failed
