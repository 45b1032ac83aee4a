-- ===== src/Collector/Scrape/Stored.antt =====
-- What a scrape leaves in the store.
use inference_fabric_autopil.Prelude.{ℕ, Option, List}
use inference_fabric_autopil.Prelude.Int.{ℤ}
use inference_fabric_autopil.Prelude.Texts.{Text}
use inference_fabric_autopil.Prelude.Maps.{Map}
use inference_fabric_autopil.Float.{Float64}
use inference_fabric_autopil.Telemetry.Metric.{observed}
use inference_fabric_autopil.Telemetry.Snapshot.{Snapshot}
use inference_fabric_autopil.Telemetry.Store.{Store}
use inference_fabric_autopil.Collector.Rates.{RateEntry}
use inference_fabric_autopil.Collector.Target.{Target}
use inference_fabric_autopil.Runtime.Dcgm.{Device}
use inference_fabric_autopil.Collector.Scrape.{ReplicaCounts}

module _ {A : Type 0} ⦃F : Float64 A⦄ where
  module _ (cluster : Text) (t : Target) (devices : Option (List (Device A)))
      (replicas : Text → Text → Option ReplicaCounts) (now : ℤ) (entries : Map (RateEntry A)) where
    -- The snapshot as it is stored.
    abbrev pub timed : ℕ → Snapshot A → Snapshot A
    timed elapsed_ms snap = record snap { scrape_duration_ms = observed (F.of_nat elapsed_ms) }
