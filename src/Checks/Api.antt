-- ===== src/Checks/Api.antt =====
-- A request for the critical findings of one workload.
use inference_fabric_autopil.Prelude.{◌≡◌, refl, none, List, [], ◌∷◌, if◌then◌else◌}
use inference_fabric_autopil.Prelude.Int.{pos}
use inference_fabric_autopil.Prelude.Texts.{Text, codes, text_eq}
use inference_fabric_autopil.Float.Sample.{Num, sample}
use inference_fabric_autopil.Promtext.Words.{to_lower}
use inference_fabric_autopil.Telemetry.Snapshot.{Recommendation}
use inference_fabric_autopil.Telemetry.Store.{Store, new_store}
use inference_fabric_autopil.Telemetry.Store.Retention.{adds, run}
use inference_fabric_autopil.Recommender.Engine.Coverage.{default_engine}
use inference_fabric_autopil.Metrics.Registry.{Registry, new_registry}
use inference_fabric_autopil.Api.{Filter, parse_filter}
use inference_fabric_autopil.Api.Answers.{found}
use inference_fabric_autopil.Checks.Data.{busy_at, at_second, limits}

abbrev query : Text → Text
query k =
    if text_eq k (codes "severity")
    then codes "Critical"
    else if text_eq k (codes "code")
    then codes "ifa-cap-001"
    else []

abbrev wanted : Filter
wanted = record {
  namespace = [];
  workload = [];
  runtime = [];
  severity = codes "critical";
  code = codes "IFA-CAP-001";
}

abbrev fleet : Store Num
fleet = run new_store (adds (at_second 0) (busy_at 0) ∷ adds (at_second 60) (busy_at 60) ∷ [])

abbrev fresh : Registry Num
unfolding new_registry
fresh = new_registry (record { version = []; commit = []; go_version = [] }) (pos 0)

-- A severity that does not exist is refused.
unknown_refused : parse_filter (λ k. codes "urgent") ≡ none
unfolding parse_filter text_eq to_lower
unknown_refused = refl

-- All findings over the store.
abbrev all_found : List (Recommendation Num)
all_found =
    found (codes "GET") query (default_engine limits) fleet (at_second 61) fresh (at_second 62)
