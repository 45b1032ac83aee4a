-- ===== src/Checks/Config.antt =====
-- Configurations that are accepted, and connection strings.
use inference_fabric_autopil.Prelude.{
  ◌≡◌, refl, ◌⊎◌, true, false, ◌||◌, not, Option, none, some, List, [], ◌∷◌, ◌++◌, map, is_some,
}
use inference_fabric_autopil.Prelude.Int.{pos, ltb_ℤ, ◌*ℤ◌, to_int64, max_int64}
use inference_fabric_autopil.Prelude.Texts.{Text, codes, text_eq}
use inference_fabric_autopil.Float.Sample.{Num, sample}
use inference_fabric_autopil.Promtext.Words.{to_lower}
use inference_fabric_autopil.Recommender.Eval.{trend_window}
use inference_fabric_autopil.Recommender.Thresholds
use inference_fabric_autopil.Recommender.Thresholds.{default_thresholds}
use inference_fabric_autopil.Alerting.Url.{Url, validate_url}
use inference_fabric_autopil.Alerting.Sender.{new_sender}
use inference_fabric_autopil.Collector.Target.{new_collector, with_defaults}
use inference_fabric_autopil.Config.{
  TargetConfig, Config, to_thresholds, collector_target, alerting_options, collector_options,
}
use inference_fabric_autopil.Config.Validation.{targets_of, validate_config}
use inference_fabric_autopil.Config.Loading.{default_config}
use inference_fabric_autopil.Config.Accepted.{validate_config-accepted}
use inference_fabric_autopil.Config.Dsn.{redact_dsn, redact_dsn_lem}

-- Every text is a URL of one host.
abbrev parse_host : Text → Option Url
parse_host raw = some (record { scheme = codes "http"; host = codes "h"; path = [] })

abbrev target : Text → Text → TargetConfig
target namespace name = record {
  name = name;
  namespace = namespace;
  runtime = codes "vLLM";
  model_name = [];
  metrics_url = codes "http://h/metrics";
  dcgm_url = [];
  deployment = [];
}

abbrev with_targets : List TargetConfig → Config Num
with_targets ts = record (default_config {A = Num}) {
  alerting = record (default_config {A = Num}).alerting {
    enabled = true;
    webhook_url = codes "http://h/hook";
  };
  collector = record (default_config {A = Num}).collector { targets = ts };
}

abbrev two_targets : List TargetConfig
two_targets = target (codes "ml") (codes "chat") ∷ target (codes "ml") (codes "embed") ∷ []

-- Without a namespace, a name with a slash passes the check of the configuration and collides in
-- the collector.
abbrev colliding : List TargetConfig
colliding = target [] (codes "ml/chat") ∷ target (codes "ml") (codes "chat") ∷ []

colliding_accepted : validate_config parse_host (with_targets colliding) ≡ none
unfolding validate_config default_config text_eq default_thresholds Thresholds.validate ◌*ℤ◌
    to_int64
colliding_accepted = refl

colliding_refused :
    new_collector parse_host true
      (map collector_target colliding)
      (collector_options (with_targets colliding))
    ≡ none
unfolding new_collector collector_options default_config text_eq to_lower
colliding_refused = refl

-- A sustain window of a million hours beside a retention of 15 minutes: three times the window
-- is negative as an integer of 64 bits.
abbrev endless : Config Num
endless = record (with_targets two_targets) {
  thresholds = record (with_targets two_targets).thresholds {
    sustain_for = pos 3_600_000_000_000_000_000;
  };
}

endless_accepted : validate_config parse_host endless ≡ none
unfolding validate_config default_config text_eq default_thresholds Thresholds.validate ◌*ℤ◌
    to_int64
endless_accepted = refl

-- A password that stands among the parameters of a connection string is shown.
parameter_shown :
    redact_dsn (codes "postgres://ifa@db/ifa?password=secret")
    ≡ codes "postgres://ifa@db/ifa?password=secret"
unfolding redact_dsn
parameter_shown = refl

validate_config-accepted_example :
    (targets_of parse_host two_targets ≡ some (map collector_target two_targets))
    × (new_collector parse_host true
          (map collector_target two_targets)
          (collector_options (with_targets two_targets))
        ≡ some (
          map collector_target two_targets,
          with_defaults (collector_options (with_targets two_targets)),
        ))
    × ((not true
          || is_some (
              new_sender {A = Num}
                (validate_url parse_host)
                (alerting_options true (with_targets two_targets))))
        ≡ true)
    × (Thresholds.validate (to_thresholds (with_targets two_targets).thresholds) ≡ true)
    × ((ltb_ℤ
            (with_targets two_targets).telemetry.retention_period
            ((with_targets two_targets).thresholds.sustain_for *ℤ trend_window)
          ≡ false)
        ⊎ (ltb_ℤ max_int64 ((with_targets two_targets).thresholds.sustain_for *ℤ trend_window)
            ≡ true))
unfolding validate_config default_config text_eq default_thresholds Thresholds.validate ◌*ℤ◌
    to_int64
validate_config-accepted_example =
    validate_config-accepted parse_host (with_targets two_targets) refl (refl, (refl, tt))

redact_dsn_lem_example :
    redact_dsn (
      (codes "postgres" ++ (codes "://" ++ (codes "ifa" ++ 58 ∷ codes "p@ss:w/rd")))
      ++ 64 ∷ codes "db:5432/ifa")
    ≡ (codes "postgres" ++ codes "://" ++ (codes "ifa" ++ codes ":****"))
      ++ 64 ∷ codes "db:5432/ifa"
redact_dsn_lem_example =
    redact_dsn_lem (codes "postgres") (codes "ifa") (codes "p@ss:w/rd") (codes "db:5432/ifa") refl
      refl refl
