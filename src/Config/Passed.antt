-- ===== src/Config/Passed.antt =====
-- What the checks of the validation come to, where none fails.
use inference_fabric_autopil.Prelude.{
  ℕ, suc, ◌≡◌, refl, Bool, true, false, ◌&&◌, ◌||◌, not, Option, none, some, List, [], ◌∷◌, arith,
  if◌then◌else◌,
}
use inference_fabric_autopil.Prelude.Int.{pos, leb_ℤ, ltb_ℤ, ◌*ℤ◌, to_int64}
use inference_fabric_autopil.Prelude.Texts.{Text}
use inference_fabric_autopil.Float.{Float64}
use inference_fabric_autopil.Promtext.Words.{is_empty, to_lower}
use inference_fabric_autopil.Recommender.Engine.{contains}
use inference_fabric_autopil.Recommender.Eval.{trend_window}
use inference_fabric_autopil.Recommender.Thresholds
use inference_fabric_autopil.Alerting.Url.{Url, validate_url}
use inference_fabric_autopil.Alerting.Sender.{valid_severity}
use inference_fabric_autopil.Collector.Target.{validate_target}
use inference_fabric_autopil.Config.{TargetConfig, Config, to_thresholds, collector_target}
use inference_fabric_autopil.Config.Validation.{
  ConfigError, webhook_missing, webhook_invalid, unknown_severity, too_few_samples,
  period_not_positive, thresholds_invalid, period_too_short, dsn_missing, resync_not_positive,
  address_empty, read_header_timeout_not_positive, unknown_level, unknown_format,
  interval_not_positive, timeout_not_positive, timeout_not_shorter, target_unnamed,
  target_duplicate, target_invalid, refuse, config_key, validate_targets, validate_alerting,
  validate_rest, validate_config,
}

pub refuse-none :
    (failed : Bool) (error : ConfigError) (rest : Option ConfigError)
    → refuse failed error rest ≡ none
    → (failed ≡ false) × (rest ≡ none)
refuse-none failed error rest h = ground arith

pub from_not : (b : Bool) → not b ≡ false → b ≡ true
from_not b h = ground arith

module _ (parse : Text → Option Url) where
  -- The three checks of one target, and those of the later ones.
  pub validate_targets-cons :
      (i : ℕ) (names : List Text) (t : TargetConfig) (ts : List TargetConfig)
      → validate_targets parse i names (t ∷ ts) ≡ none
      → (contains (config_key t) names ≡ false)
        × (validate_target parse (collector_target t) ≡ true)
        × (validate_targets parse (suc i) (config_key t ∷ names) ts ≡ none)
  unfolding validate_targets
  validate_targets-cons i names t ts h =
      let a = refuse-none (is_empty t.name) (target_unnamed i) _ h in
      let b = refuse-none (contains (config_key t) names) (target_duplicate i) _ a.1 in
      let d =
        refuse-none (not (validate_target parse (collector_target t))) (target_invalid i) _ b.1 in
      (b.0, ground arith, d.1)

  after_targets :
      (o rest : Option ConfigError)
      → elim o [ some error ↦ some error | none ↦ rest ] ≡ none
      → (o ≡ none) × (rest ≡ none)
  after_targets none rest h = (refl, h)
  after_targets (some e) rest h = cc

  webhook-valid :
      (enabled : Bool) (url : Text) (rest : Option ConfigError)
      → (if not enabled
          then none
          else refuse
              (is_empty url)
              webhook_missing
              (refuse (not (validate_url parse url)) webhook_invalid rest))
        ≡ none
      → (not enabled || validate_url parse url) ≡ true
  webhook-valid false url rest h = refl
  webhook-valid true url rest h =
      let a = refuse-none (is_empty url) webhook_missing _ h in
      let b = refuse-none (not (validate_url parse url)) webhook_invalid rest a.1 in ground arith

  -- What the checks of the alerting block come to.
  pub validate_alerting-facts :
      {A : Type 0} (c : Config A)
      → validate_alerting parse c ≡ none
      → (valid_severity (to_lower c.alerting.min_severity) ≡ true)
        × ((not c.alerting.enabled || validate_url parse c.alerting.webhook_url) ≡ true)
  unfolding validate_alerting
  validate_alerting-facts c h =
      let a =
        refuse-none (not (valid_severity (to_lower c.alerting.min_severity))) unknown_severity _
          h in
      (
        from_not (valid_severity (to_lower c.alerting.min_severity)) a.0,
        webhook-valid c.alerting.enabled c.alerting.webhook_url _ a.1,
      )

  module _ {A : Type 0} ⦃F : Float64 A⦄ where
    pub validate_rest-facts :
        (c : Config A)
        → validate_rest parse c ≡ none
        → (Thresholds.validate (to_thresholds c.thresholds) ≡ true)
          × (ltb_ℤ c.telemetry.retention_period
                (to_int64 (c.thresholds.sustain_for *ℤ trend_window))
              ≡ false)
          × (validate_alerting parse c ≡ none)
    unfolding validate_rest
    validate_rest-facts c h =
        let t = to_thresholds c.thresholds in
        let a = refuse-none (leb_ℤ c.telemetry.retention_samples (pos 1)) too_few_samples _ h in
        let b =
          refuse-none (leb_ℤ c.telemetry.retention_period (pos 0)) period_not_positive _ a.1 in
        let d = refuse-none (not (Thresholds.validate t)) thresholds_invalid _ b.1 in
        let e =
          refuse-none
            (ltb_ℤ c.telemetry.retention_period (to_int64 (t.sustain_for *ℤ trend_window)))
            period_too_short _ d.1 in
        let f = refuse-none (c.database.enabled && is_empty c.database.dsn) dsn_missing _ e.1 in
        let g =
          refuse-none (c.kubernetes.enabled && leb_ℤ c.kubernetes.resync_period (pos 0))
            resync_not_positive _ f.1 in
        (from_not (Thresholds.validate t) d.0, e.0, g.1)

    pub validate_config-facts :
        (c : Config A)
        → validate_config parse c ≡ none
        → (leb_ℤ c.collector.interval (pos 0) ≡ false)
          × (leb_ℤ c.collector.timeout (pos 0) ≡ false)
          × (leb_ℤ c.collector.interval c.collector.timeout ≡ false)
          × (validate_targets parse 0 [] c.collector.targets ≡ none)
          × (validate_rest parse c ≡ none)
    unfolding validate_config
    validate_config-facts c h =
        let a = refuse-none _ address_empty _ h in
        let b = refuse-none _ read_header_timeout_not_positive _ a.1 in
        let d = refuse-none _ unknown_level _ b.1 in
        let e = refuse-none _ unknown_format _ d.1 in
        let f = refuse-none (leb_ℤ c.collector.interval (pos 0)) interval_not_positive _ e.1 in
        let g = refuse-none (leb_ℤ c.collector.timeout (pos 0)) timeout_not_positive _ f.1 in
        let k =
          refuse-none (leb_ℤ c.collector.interval c.collector.timeout) timeout_not_shorter _ g.1 in
        let m =
          after_targets (validate_targets parse 0 [] c.collector.targets) (validate_rest parse c)
            k.1 in
        (f.0, g.0, k.0, m.0, m.1)
