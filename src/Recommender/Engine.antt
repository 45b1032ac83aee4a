-- ===== src/Recommender/Engine.antt =====
-- internal/recommender/recommender.go, the engine: it runs every rule on every workload, drops the
-- findings that a more specific one supersedes, and orders the rest. The map of the findings is
-- an association list; `Report` shows that its order does not matter.
pub mod Findings
pub mod Report
pub mod Coverage
pub mod Order
pub mod Fleet
use inference_fabric_autopil.Prelude.{
  ℕ, Bool, true, false, not, if◌then◌else◌, Option, none, some, List, [], ◌∷◌, ◌++◌, map, ltb, ◌==◌,
}
use inference_fabric_autopil.Prelude.Int.{ℤ}
use inference_fabric_autopil.Prelude.Texts.{Text, codes, text_eq, text_lt}
use inference_fabric_autopil.Prelude.Maps.{Map, insert}
use inference_fabric_autopil.Prelude.Sort.{sort_by}
use inference_fabric_autopil.Telemetry.Snapshot.{Snapshot, Recommendation, key, rank, whole_seconds}
use inference_fabric_autopil.Recommender.Thresholds.{Thresholds}
use inference_fabric_autopil.Recommender.Eval.{Eval}
use inference_fabric_autopil.Recommender.Rules.Defs.{Rule, Finding}

-- Whether a text is in a list.
unfoldable pub contains : Text → List Text → Bool
contains c [] = false
contains c (d ∷ ds) = if text_eq d c then true else contains c ds

pub record Engine (A : Type 0) : Type 0 where
  pub rules : List (Rule A)
  pub t : Thresholds A

-- The two maps of `analyzeWorkload`.
pub record Outcome (A : Type 0) : Type 0 where
  pub fired : Map (Recommendation A)
  pub superseded : List Text

module _ {A : Type 0} where
  -- `Rule.appliesTo`
  unfoldable pub applies_to : Rule A → Text → Bool
  unfolding contains
  applies_to r rt = elim r.runtimes [ [] ↦ true | x ∷ xs ↦ contains rt r.runtimes ]

  abbrev pub by_code : Rule A → Rule A → Bool
  by_code a b = text_lt a.code b.code

  -- `Engine.Rules`
  unfoldable pub sorted_rules : Engine A → List (Rule A)
  sorted_rules e = sort_by by_code e.rules

  unfoldable pub recommendation_id : Text → Snapshot A → Text
  recommendation_id code snap = code ++ codes ":" ++ key snap

  unfoldable pub recommend : Rule A → Finding A → Snapshot A → Recommendation A
  unfolding recommendation_id
  recommend r f snap = record {
    id = recommendation_id r.code snap;
    code = r.code;
    severity = if text_eq f.severity [] then r.severity else f.severity;
    namespace = snap.namespace;
    workload_name = snap.workload_name;
    runtime = snap.runtime;
    evidence = f.evidence;
    observed_at = snap.timestamp;
    window_seconds = whole_seconds f.window;
  }

  -- What a rule finds in a workload, if it applies to the workload's runtime.
  unfoldable pub finding_of : Rule A → Eval A → Option (Finding A)
  unfolding applies_to
  finding_of r e = if applies_to r e.latest.runtime then r.eval e else none

  -- One round of the loop over the rules.
  unfoldable pub evaluate_rule : Rule A → Eval A → Outcome A → Outcome A
  unfolding finding_of recommend
  evaluate_rule r e o = elim (finding_of r e) [
    | none ↦ o
    | some f ↦ record {
      fired = insert r.code (recommend r f e.latest) o.fired;
      superseded = o.superseded ++ r.supersedes;
    }
  ]

  unfoldable pub evaluate_rules : List (Rule A) → Eval A → Outcome A → Outcome A
  unfolding evaluate_rule
  evaluate_rules [] e o = o
  evaluate_rules (r ∷ rs) e o = evaluate_rules rs e (evaluate_rule r e o)

  -- The loop over the fired findings.
  unfoldable pub not_superseded : List Text → Map (Recommendation A) → List (Recommendation A)
  not_superseded cs [] = []
  not_superseded cs ((c, x) ∷ m) =
      let rest = not_superseded cs m in if contains c cs then rest else x ∷ rest

  abbrev pub by_rank : Recommendation A → Recommendation A → Bool
  by_rank a b =
      if not (rank a.severity == rank b.severity)
      then ltb (rank a.severity) (rank b.severity)
      else text_lt a.code b.code

  unfoldable pub report : Outcome A → List (Recommendation A)
  unfolding not_superseded
  report o = sort_by by_rank (not_superseded o.superseded o.fired)

  abbrev pub no_outcome : Outcome A
  no_outcome = record { fired = []; superseded = [] }

  -- `analyzeWorkload`
  unfoldable pub analyze_workload :
      Engine A → Snapshot A → List (Snapshot A) → ℤ → List (Recommendation A)
  unfolding evaluate_rules report sorted_rules
  analyze_workload g snap hist now =
      let e : Eval A = record { latest = snap; window = hist; t = g.t; now = now } in
      report (evaluate_rules (sorted_rules g) e no_outcome)

  -- Without a history the snapshot stands alone.
  unfoldable pub or_alone : Snapshot A → List (Snapshot A) → List (Snapshot A)
  or_alone snap [] = snap ∷ []
  or_alone snap (x ∷ xs) = x ∷ xs

  unfoldable pub analyze_each :
      Engine A → List (Snapshot A) → (Text → List (Snapshot A)) → ℤ → List (Recommendation A)
  unfolding analyze_workload or_alone
  analyze_each g [] window now = []
  analyze_each g (snap ∷ snaps) window now =
      analyze_workload g snap (or_alone snap (window (key snap))) now
      ++ analyze_each g snaps window now

  -- `Analyze`; a nil WindowFunc is one that knows no history.
  unfoldable pub analyze :
      Engine A → List (Snapshot A) → (Text → List (Snapshot A)) → ℤ → List (Recommendation A)
  unfolding analyze_each
  analyze g latest window now =
      analyze_each g (sort_by (λ a b. text_lt (key a) (key b)) latest) window now
