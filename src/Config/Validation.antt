-- ===== src/Config/Validation.antt =====
-- internal/config/config.go: the validation of a configuration.
use inference_fabric_autopil.Prelude.{
  ℕ, suc, Bool, ◌&&◌, not, Option, none, some, List, [], ◌∷◌, ◌++◌, if◌then◌else◌,
}
use inference_fabric_autopil.Prelude.Int.{pos, leb_ℤ, ltb_ℤ, ◌*ℤ◌, to_int64}
use inference_fabric_autopil.Prelude.Texts.{Text, codes}
use inference_fabric_autopil.Float.{Float64}
use inference_fabric_autopil.Promtext.Words.{is_empty, to_lower}
use inference_fabric_autopil.Promtext.Sample.{one_of}
use inference_fabric_autopil.Recommender.Engine.{contains}
use inference_fabric_autopil.Recommender.Eval.{trend_window}
use inference_fabric_autopil.Recommender.Thresholds.{Thresholds, default_thresholds}
use inference_fabric_autopil.Recommender.Thresholds
use inference_fabric_autopil.Alerting.Url.{Url, validate_url}
use inference_fabric_autopil.Alerting.Sender.{valid_severity}
use inference_fabric_autopil.Collector.Target.{Target, validate_target}
use inference_fabric_autopil.Config.{TargetConfig, Config, to_thresholds, collector_target}

-- What is wrong with a configuration; a target is named by its index.
pub data ConfigError : Type 0 where
  address_empty : ConfigError
  read_header_timeout_not_positive : ConfigError
  unknown_level : ConfigError
  unknown_format : ConfigError
  interval_not_positive : ConfigError
  timeout_not_positive : ConfigError
  timeout_not_shorter : ConfigError
  target_unnamed : ℕ → ConfigError
  target_duplicate : ℕ → ConfigError
  target_invalid : ℕ → ConfigError
  too_few_samples : ConfigError
  period_not_positive : ConfigError
  thresholds_invalid : ConfigError
  period_too_short : ConfigError
  dsn_missing : ConfigError
  resync_not_positive : ConfigError
  unknown_severity : ConfigError
  webhook_missing : ConfigError
  webhook_invalid : ConfigError
  alerting_timeout_not_positive : ConfigError
  alerting_timeout_not_shorter : ConfigError
  queue_not_positive : ConfigError

-- `if failed { return err }`, before the checks that follow.
abbrev pub refuse : Bool → ConfigError → Option ConfigError → Option ConfigError
refuse failed error rest = if failed then some error else rest

-- The key of the map `names`.
abbrev pub config_key : TargetConfig → Text
config_key t = t.namespace ++ codes "/" ++ t.name

module _ (parse : Text → Option Url) where
  -- `toCollectorTarget`
  unfoldable pub to_collector_target : TargetConfig → Option Target
  unfolding validate_target
  to_collector_target t =
      if validate_target parse (collector_target t) then some (collector_target t) else none

  -- The loop of `Targets`; `none` is an error.
  unfoldable pub targets_of : List TargetConfig → Option (List Target)
  unfolding to_collector_target
  targets_of [] = some []
  targets_of (t ∷ ts) = elim (to_collector_target t) [
    | none ↦ none
    | some ct ↦ elim (targets_of ts) [ none ↦ none | some cts ↦ some (ct ∷ cts) ]
  ]

  -- The loop of `Validate` over the targets, from an index, with the keys that it has met.
  unfoldable pub validate_targets : ℕ → List Text → List TargetConfig → Option ConfigError
  unfolding validate_target contains
  validate_targets i names [] = none
  validate_targets i names (t ∷ ts) =
      let rest = validate_targets (suc i) (config_key t ∷ names) ts in
      refuse (is_empty t.name) (target_unnamed i) (
        refuse (contains (config_key t) names) (target_duplicate i)
          (refuse (not (validate_target parse (collector_target t))) (target_invalid i) rest))

  module _ {A : Type 0} where
    unfoldable pub validate_alerting : Config A → Option ConfigError
    unfolding validate_url valid_severity
    validate_alerting c =
        let a = c.alerting in
        refuse (not (valid_severity (to_lower a.min_severity))) unknown_severity (
          if not a.enabled
          then none
          else refuse (is_empty a.webhook_url) webhook_missing (
              refuse (not (validate_url parse a.webhook_url)) webhook_invalid (
                refuse (leb_ℤ a.timeout (pos 0)) alerting_timeout_not_positive (
                  refuse (leb_ℤ c.collector.interval a.timeout) alerting_timeout_not_shorter
                    (refuse (leb_ℤ a.queue_size (pos 0)) queue_not_positive none)))))

  module _ {A : Type 0} ⦃F : Float64 A⦄ where
    -- The checks of `Validate` after those of the targets.
    unfoldable pub validate_rest : Config A → Option ConfigError
    unfolding validate_alerting
    validate_rest c =
        let t = to_thresholds c.thresholds in
        refuse (leb_ℤ c.telemetry.retention_samples (pos 1)) too_few_samples (
          refuse (leb_ℤ c.telemetry.retention_period (pos 0)) period_not_positive (
            refuse (not (Thresholds.validate t)) thresholds_invalid (
              refuse (ltb_ℤ c.telemetry.retention_period (to_int64 (t.sustain_for *ℤ trend_window)))
                period_too_short
                (refuse (c.database.enabled && is_empty c.database.dsn) dsn_missing (
                  refuse (c.kubernetes.enabled && leb_ℤ c.kubernetes.resync_period (pos 0))
                    resync_not_positive (validate_alerting c))))))

    -- `Validate`; `none` is no error. A later check decides where no earlier one fails.
    unfoldable pub validate_config : Config A → Option ConfigError
    unfolding validate_targets validate_rest to_lower
    validate_config c = refuse (is_empty c.server.address) address_empty (
        refuse (leb_ℤ c.server.read_header_timeout (pos 0)) read_header_timeout_not_positive (
          refuse
            (not (
              one_of (to_lower c.logging.level)
                (codes "debug" ∷ codes "info" ∷ codes "warn" ∷ codes "error" ∷ [])))
            unknown_level
            (refuse (not (one_of (to_lower c.logging.format) (codes "json" ∷ codes "text" ∷ [])))
              unknown_format
              (refuse (leb_ℤ c.collector.interval (pos 0)) interval_not_positive (
                refuse (leb_ℤ c.collector.timeout (pos 0)) timeout_not_positive (
                  refuse (leb_ℤ c.collector.interval c.collector.timeout) timeout_not_shorter
                    (elim (validate_targets 0 [] c.collector.targets) [
                      | some error ↦ some error
                      | none ↦ validate_rest c
                    ])))))))
