-- ===== src/Collector/Target.antt =====
-- internal/collector/collector.go: `Target` and `New`. `url.Parse` is an argument.
pub mod Distinct
use inference_fabric_autopil.Prelude.{
  ℕ, Bool, true, false, ◌||◌, not, Option, none, some, List, [], ◌∷◌, if◌then◌else◌,
}
use inference_fabric_autopil.Prelude.Int.{ℤ, pos, leb_ℤ}
use inference_fabric_autopil.Prelude.Texts.{Text, codes, text_eq}
use inference_fabric_autopil.Telemetry.Snapshot.{workload_key, runtime_vllm, runtime_triton}
use inference_fabric_autopil.Recommender.Engine.{contains}
use inference_fabric_autopil.Alerting.Url.{Url, validate_url}

pub record Target : Type 0 where
  pub workload_name : Text
  pub namespace : Text
  pub runtime : Text
  pub model_name : Text
  pub metrics_url : Text
  pub dcgm_url : Text
  pub deployment : Text

-- `Target.Key`
unfoldable pub target_key : Target → Text
unfolding workload_key
target_key t = workload_key t.namespace t.workload_name

-- The keys of `adapters`.
unfoldable pub has_adapter : Text → Bool
has_adapter rt = text_eq rt runtime_vllm || text_eq rt runtime_triton

-- `validateScrapeURL` makes the tests that `ValidateURL` makes of a webhook.
unfoldable pub validate_scrape_url : (Text → Option Url) → Text → Bool
unfolding validate_url
validate_scrape_url parse raw = validate_url parse raw

-- `Target.Validate`; `false` is an error.
unfoldable pub validate_target : (Text → Option Url) → Target → Bool
unfolding has_adapter validate_scrape_url
validate_target parse t =
    if text_eq t.workload_name []
    then false
    else if not (has_adapter t.runtime)
    then false
    else if not (validate_scrape_url parse t.metrics_url)
    then false
    else if text_eq t.dcgm_url []
    then true
    else validate_scrape_url parse t.dcgm_url

-- `Options`, as far as `New` changes or tests it.
pub record CollectorOptions : Type 0 where
  pub has_logger : Bool
  pub interval : ℤ
  pub timeout : ℤ
  pub max_body_bytes : ℤ
  pub concurrency : ℤ

abbrev pub or_positive : ℤ → ℤ → ℤ
or_positive d x = if leb_ℤ x (pos 0) then d else x

-- 15 seconds, 10 seconds, 8 MiB and 8 scrapes at a time.
unfoldable pub with_defaults : CollectorOptions → CollectorOptions
with_defaults o = record o {
  interval = or_positive (pos 15_000_000_000) o.interval;
  timeout = or_positive (pos 10_000_000_000) o.timeout;
  max_body_bytes = or_positive (pos 8_388_608) o.max_body_bytes;
  concurrency = or_positive (pos 8) o.concurrency;
}

-- The loop over the targets, with the keys in `seen`.
unfoldable pub accept_targets : (Text → Option Url) → List Text → List Target → Bool
unfolding validate_target target_key contains
accept_targets parse seen [] = true
accept_targets parse seen (t ∷ ts) =
    let rest = accept_targets parse (target_key t ∷ seen) ts in
    if not (validate_target parse t)
    then false
    else if contains (target_key t) seen
    then false
    else rest

-- `New`; the result is the targets and options that the collector keeps.
unfoldable pub new_collector :
    (Text → Option Url)
    → Bool
    → List Target
    → CollectorOptions
    → Option (List Target × CollectorOptions)
unfolding with_defaults accept_targets
new_collector parse has_store targets o =
    let opts = with_defaults o in
    if not has_store
    then none
    else if not o.has_logger
    then none
    else if leb_ℤ opts.interval opts.timeout
    then none
    else if accept_targets parse [] targets
    then some (targets, opts)
    else none
