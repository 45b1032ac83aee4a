-- ===== src/Recommender/Rules/Observability.antt =====
-- internal/recommender/rules.go: the observability of the workload itself.
use inference_fabric_autopil.Prelude.{if◌then◌else◌, Option, none, some, [], ◌∷◌, length, ◌==◌}
use inference_fabric_autopil.Prelude.Int.{ℤ, leb_ℤ, pos}
use inference_fabric_autopil.Float.{Float64}
use inference_fabric_autopil.Telemetry.Snapshot.{
  greater, severity_info, severity_warning, age, whole_seconds, spare_nanoseconds,
}
use inference_fabric_autopil.Recommender.Eval.{Eval}
use inference_fabric_autopil.Recommender.Rules.Defs.{
  Finding, Rule, evidence_of, observation, code_telemetry_incomplete, code_telemetry_stale,
}

module _ {A : Type 0} ⦃F : Float64 A⦄ where
  unfoldable pub eval_telemetry_incomplete : Eval A → Option (Finding A)
  eval_telemetry_incomplete e =
      let missing = length e.latest.metrics_missing in
      if missing == 0
      then none
      else some (record {
        evidence = observation "metrics_missing" "" (F.of_nat missing) "metrics" ∷ [];
        severity = [];
        window = pos 0;
      })

  unfoldable pub telemetry_incomplete : Rule A
  telemetry_incomplete = record {
    code = code_telemetry_incomplete;
    severity = severity_info;
    runtimes = [];
    supersedes = [];
    eval = eval_telemetry_incomplete;
  }

  -- `Duration.Seconds`
  unfoldable pub seconds : ℤ → A
  seconds d =
      F.add (F.of_int (whole_seconds d))
        (F.div (F.of_int (spare_nanoseconds d)) (F.of_nat 1_000_000_000))

  unfoldable pub eval_telemetry_stale : Eval A → Option (Finding A)
  unfolding age seconds
  eval_telemetry_stale e =
      if leb_ℤ (age e.latest e.now) e.t.stale_after
      then none
      else some (record {
        evidence =
            evidence_of "telemetry_age_seconds" "" (seconds (age e.latest e.now))
              (seconds e.t.stale_after) greater "seconds"
            ∷ [];
        severity = [];
        window = pos 0;
      })

  unfoldable pub telemetry_stale : Rule A
  telemetry_stale = record {
    code = code_telemetry_stale;
    severity = severity_warning;
    runtimes = [];
    supersedes = [];
    eval = eval_telemetry_stale;
  }
