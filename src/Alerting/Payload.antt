-- ===== src/Alerting/Payload.antt =====
-- internal/alerting/payload.go: the wire format, without the text for people (Title, Explanation,
-- SuggestedAction) and the JSON encoding.
use Prim.Native.String.{String}
use inference_fabric_autopil.Prelude.{ℕ, List, [], ◌∷◌}
use inference_fabric_autopil.Prelude.Int.{ℤ, pos}
use inference_fabric_autopil.Prelude.Texts.{Text}
use inference_fabric_autopil.Telemetry.Snapshot.{
  Recommendation, Evidence, Comparison, severity_info,
}

abbrev pub schema_version : ℕ
schema_version = 1

pub data Event : Type 0 where
  firing escalated resolved : Event

-- `Evidence` mirrors the one of telemetry field for field.
pub record SentEvidence (A : Type 0) : Type 0 where
  pub metric : String
  pub source : String
  pub observed : A
  pub threshold : A
  pub comparison : Comparison
  pub unit : String

-- The zero `time.Time` is `zero_time`.
pub record Payload (A : Type 0) : Type 0 where
  pub version : ℕ
  pub event : Event
  pub id : Text
  pub code : Text
  pub severity : Text
  pub previous_severity : Text
  pub cluster : Text
  pub namespace : Text
  pub workload : Text
  pub runtime : Text
  pub evidence : List (SentEvidence A)
  pub observed_at : ℤ
  pub sent_at : ℤ
  pub window_seconds : ℤ

abbrev pub zero_time : ℤ
zero_time = pos 0

-- The identity kept for a finding that was sent and not resolved.
pub record OpenAlert : Type 0 where
  pub id : Text
  pub code : Text
  pub severity : Text
  pub namespace : Text
  pub workload : Text
  pub runtime : Text

module _ {A : Type 0} where
  unfoldable pub copy_evidence : List (Evidence A) → List (SentEvidence A)
  copy_evidence [] = []
  copy_evidence (e ∷ es) =
      record {
        metric = e.metric;
        source = e.source;
        observed = e.observed;
        threshold = e.threshold;
        comparison = e.comparison;
        unit = e.unit;
      }
      ∷ copy_evidence es

  unfoldable pub firing_payload : Recommendation A → Event → Text → Text → ℤ → Payload A
  unfolding copy_evidence
  firing_payload rec event previous cluster now = record {
    version = schema_version;
    event = event;
    id = rec.id;
    code = rec.code;
    severity = rec.severity;
    previous_severity = elim event [ firing ↦ [] | escalated ↦ previous | resolved ↦ [] ];
    cluster = cluster;
    namespace = rec.namespace;
    workload = rec.workload_name;
    runtime = rec.runtime;
    evidence = copy_evidence rec.evidence;
    observed_at = rec.observed_at;
    sent_at = now;
    window_seconds = rec.window_seconds;
  }

  unfoldable pub resolved_payload : OpenAlert → Text → ℤ → Payload A
  resolved_payload a cluster now = record {
    version = schema_version;
    event = resolved;
    id = a.id;
    code = a.code;
    severity = severity_info;
    previous_severity = a.severity;
    cluster = cluster;
    namespace = a.namespace;
    workload = a.workload;
    runtime = a.runtime;
    evidence = [];
    observed_at = zero_time;
    sent_at = now;
    window_seconds = pos 0;
  }

  unfoldable pub new_open_alert : Recommendation A → OpenAlert
  new_open_alert rec = record {
    id = rec.id;
    code = rec.code;
    severity = rec.severity;
    namespace = rec.namespace;
    workload = rec.workload_name;
    runtime = rec.runtime;
  }
