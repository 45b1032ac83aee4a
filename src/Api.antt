-- ===== src/Api.antt =====
-- internal/api/server.go: the handlers with their filters and statuses. The query of the URL, as
-- `Get` reads it, is an argument; letters outside ASCII are not treated.
pub mod Answers
use inference_fabric_autopil.Prelude.{
  ℕ, ◌-◌, leb, Bool, true, false, ◌&&◌, ◌||◌, not, Option, none, some, List, [], ◌∷◌, map, length,
  if◌then◌else◌,
}
use inference_fabric_autopil.Prelude.Int.{ℤ}
use inference_fabric_autopil.Prelude.Texts.{Text, codes, text_eq, text_lt}
use inference_fabric_autopil.Prelude.Maps.{Map}
use inference_fabric_autopil.Prelude.Sort.{sort_by}
use inference_fabric_autopil.Float.{Float64}
use inference_fabric_autopil.Promtext.Words.{to_lower}
use inference_fabric_autopil.Telemetry.Snapshot.{
  Snapshot, Recommendation, severity_info, severity_warning, severity_critical,
}
use inference_fabric_autopil.Telemetry.Store.{Store, latest, history}
use inference_fabric_autopil.Recommender.Rules.Defs.{Rule}
use inference_fabric_autopil.Recommender.Engine.{Engine, analyze}
use inference_fabric_autopil.Metrics.Registry.{Registry, record_analysis}

-- `filter`; the empty string is "not set".
pub record Filter : Type 0 where
  pub namespace : Text
  pub workload : Text
  pub runtime : Text
  pub severity : Text
  pub code : Text

abbrev pub valid_severity_name : Text → Bool
valid_severity_name s =
    text_eq s severity_info || text_eq s severity_warning || text_eq s severity_critical

-- `strings.ToUpper`
unfoldable pub to_upper : Text → Text
to_upper [] = []
to_upper (c ∷ s) = (if leb 97 c && leb c 122 then c - 32 else c) ∷ to_upper s

-- The parameters of the query with a severity that was tested.
abbrev pub filter_with : (Text → Text) → Text → Filter
filter_with get severity = record {
  namespace = get (codes "namespace");
  workload = get (codes "workload");
  runtime = get (codes "runtime");
  severity = severity;
  code = to_upper (get (codes "code"));
}

-- `parseFilter`; `none` is the error.
unfoldable pub parse_filter : (Text → Text) → Option Filter
unfolding to_upper to_lower
parse_filter get =
    let raw = get (codes "severity") in
    let sev = to_lower raw in
    if text_eq raw []
    then some (filter_with get [])
    else if not (valid_severity_name sev)
    then none
    else some (filter_with get sev)

-- A case of the two `match` methods: the parameter is set and the value is another.
abbrev pub differs : Text → Text → Bool
differs wanted value = not (text_eq wanted []) && not (text_eq value wanted)

-- `getOnly` lets these methods through.
abbrev pub is_read : Text → Bool
is_read method = text_eq method (codes "GET") || text_eq method (codes "HEAD")

-- What a handler writes: an error with its status and code, or a payload with its status.
pub data Reply (P : Type 0) : Type 0 where
  failed : ℕ → Text → Reply P
  answered : ℕ → P → Reply P

-- `envelope`
pub record Envelope (P : Type 0) : Type 0 where
  pub items : List P
  pub count : ℕ
  pub generated_at : ℤ

module _ {P : Type 0} where
  abbrev pub envelope : ℤ → List P → Envelope P
  envelope now items = record { items = items; count = length items; generated_at = now }

  abbrev pub not_allowed : Reply P
  not_allowed = failed 405 (codes "method_not_allowed")

  abbrev pub invalid_parameter : Reply P
  invalid_parameter = failed 400 (codes "invalid_parameter")

  -- The loops over what a filter keeps.
  unfoldable pub kept_by : (P → Bool) → List P → List P
  kept_by test [] = []
  kept_by test (x ∷ xs) = let rest = kept_by test xs in if test x then x ∷ rest else rest

-- `handleReadyz`; the payload is the status.
unfoldable pub handle_readyz : Text → Bool → Reply Text
handle_readyz method ready =
    if not (is_read method)
    then not_allowed
    else if not ready
    then answered 503 (codes "starting")
    else answered 200 (codes "ready")

-- `handleNotFound`
unfoldable pub handle_not_found : {P : Type 0} → Reply P
handle_not_found = failed 404 (codes "not_found")

-- `Workload` of the API.
pub record ApiWorkload : Type 0 where
  pub name : Text
  pub namespace : Text
  pub runtime : Text
  pub model_name : Text
  pub replicas : ℤ
  pub ready_replicas : ℤ
  pub restart_count : ℤ
  pub gpu_request : Text
  pub labels : Map Text
  pub last_updated : ℤ

-- The order of `workloads`.
abbrev pub by_name : ApiWorkload → ApiWorkload → Bool
by_name a b =
    if text_eq a.namespace b.namespace
    then text_lt a.name b.name
    else text_lt a.namespace b.namespace

-- `workloads`; the source is the list that `All` returns, `none` where there is no source.
unfoldable pub listed_workloads : Option (List ApiWorkload) → List ApiWorkload
unfolding sort_by
listed_workloads none = []
listed_workloads (some items) = sort_by by_name items

unfoldable pub handle_workloads :
    Text → Option (List ApiWorkload) → ℤ → Reply (Envelope ApiWorkload)
unfolding listed_workloads
handle_workloads method source now =
    if not (is_read method)
    then not_allowed
    else answered 200 (envelope now (listed_workloads source))

module _ {A : Type 0} ⦃F : Float64 A⦄ where
  unfoldable pub matches_snapshot : Filter → Snapshot A → Bool
  matches_snapshot f s =
      if differs f.namespace s.namespace
      then false
      else if differs f.workload s.workload_name
      then false
      else if differs f.runtime s.runtime
      then false
      else true

  unfoldable pub matches_recommendation : Filter → Recommendation A → Bool
  matches_recommendation f r =
      if differs f.namespace r.namespace
      then false
      else if differs f.workload r.workload_name
      then false
      else if differs f.runtime r.runtime
      then false
      else if differs f.severity r.severity
      then false
      else if differs f.code r.code
      then false
      else true

  -- `filteredTelemetry`
  unfoldable pub filtered_telemetry : (Text → Text) → Store A → Option (List (Snapshot A))
  unfolding parse_filter matches_snapshot kept_by
  filtered_telemetry get s = elim (parse_filter get) [
    | none ↦ none
    | some f ↦ some (kept_by (matches_snapshot f) (latest s))
  ]

  -- The optional metrics record every finding.
  abbrev pub record_found : List (Recommendation A) → Option (Registry A) → Option (Registry A)
  record_found found none = none
  record_found found (some r) = some (record_analysis (map (λ x. x.severity) found) r)

  -- `filteredRecommendations`
  unfoldable pub filtered_recommendations :
      (Text → Text)
      → Engine A
      → Store A
      → ℤ
      → Option (Registry A)
      → Option (Registry A) × Option (List (Recommendation A))
  unfolding parse_filter matches_recommendation kept_by
  filtered_recommendations get g s now metrics = elim (parse_filter get) [
    | none ↦ (metrics, none)
    | some f ↦
        let found = analyze g (latest s) (history s) now in
        (record_found found metrics, some (kept_by (matches_recommendation f) found))
  ]

  unfoldable pub handle_telemetry :
      Text → (Text → Text) → Store A → ℤ → Reply (Envelope (Snapshot A))
  unfolding filtered_telemetry
  handle_telemetry method get s now =
      if not (is_read method) then not_allowed else elim (filtered_telemetry get s) [
        | none ↦ invalid_parameter
        | some items ↦ answered 200 (envelope now items)
      ]

  unfoldable pub handle_recommendations :
      Text
      → (Text → Text)
      → Engine A
      → Store A
      → ℤ
      → Option (Registry A)
      → ℤ
      → Option (Registry A) × Reply (Envelope (Recommendation A))
  unfolding filtered_recommendations
  handle_recommendations method get g s now metrics at =
      if not (is_read method)
      then (metrics, not_allowed)
      else let (after, found) = filtered_recommendations get g s now metrics in
        (
          after,
          elim found [ none ↦ invalid_parameter | some items ↦ answered 200 (envelope at items) ],
        )
