-- ===== src/Api/Answers.antt =====
-- What the recommendations endpoint answers and records.
use inference_fabric_autopil.Prelude.{List}
use inference_fabric_autopil.Prelude.Int.{ℤ}
use inference_fabric_autopil.Prelude.Texts.{Text}
use inference_fabric_autopil.Float.{Float64}
use inference_fabric_autopil.Telemetry.Snapshot.{Recommendation}
use inference_fabric_autopil.Telemetry.Store.{Store, latest, history}
use inference_fabric_autopil.Recommender.Engine.{Engine, analyze}
use inference_fabric_autopil.Metrics.Registry.{Registry}

module _ {A : Type 0} ⦃F : Float64 A⦄ (method : Text) (get : Text → Text) (g : Engine A)
    (s : Store A) (now : ℤ) (r : Registry A) (at : ℤ) where
  -- All findings of the engine over the store.
  abbrev pub found : List (Recommendation A)
  found = analyze g (latest s) (history s) now
