-- ===== src/Runtime/Vllm/Sound.antt =====
-- What a reading of vLLM leaves out: it has no counter of failed requests, so that a scrape of vLLM
-- never measures an error rate.
use inference_fabric_autopil.Prelude.{
  ◌≡◌, refl, ◌∙◌, Bool, false, Option, none, some, [], arith, Bool-cases, inl, inr,
}
use inference_fabric_autopil.Prelude.Int.{ℤ}
use inference_fabric_autopil.Prelude.Texts.{Text, codes, text_eq}
use inference_fabric_autopil.Prelude.Maps.{Map, lookup, lookup-insert-none}
use inference_fabric_autopil.Float.{Float64, FloatText}
use inference_fabric_autopil.Telemetry.Metric.{Metric, unmeasured}
use inference_fabric_autopil.Telemetry.Snapshot.{Snapshot}
use inference_fabric_autopil.Promtext.Families.{MetricFamilies}
use inference_fabric_autopil.Collector.Rates.{RateEntry}
use inference_fabric_autopil.Collector.Scrape.{apply_rates, rate_named, observe_share}
use inference_fabric_autopil.Runtime.{count_if, count_metric}
use inference_fabric_autopil.Runtime.Vllm.{read_families, counters_of}

module _ {A : Type 0} ⦃F : Float64 A⦄ where
  count_metric-none :
      (j k : Text) (m : Metric A) (counters : Map A)
      → text_eq j k ≡ false
      → lookup j counters ≡ none
      → lookup j (count_metric k m counters) ≡ none
  count_metric-none j k m counters h e = elim (Bool-cases m.ok) [
    | inl ok ↦ rw ok (lookup-insert-none k j m.value counters h e)
    | inr skip ↦ rw skip e
  ]

  count_if-none :
      (j k : Text) (o : A × Bool) (counters : Map A)
      → text_eq j k ≡ false
      → lookup j counters ≡ none
      → lookup j (count_if k o counters) ≡ none
  count_if-none j k o counters h e = elim (Bool-cases o.1) [
    | inl ok ↦ rw ok (lookup-insert-none k j o.0 counters h e)
    | inr skip ↦ rw skip e
  ]

  rate_named-none :
      (key : Text) (counters : Map A) (now : ℤ) (name : Text) (entries : Map (RateEntry A))
      → lookup name counters ≡ none
      → (rate_named key counters now name entries).1 ≡ none
  unfolding rate_named
  rate_named-none key counters now name entries h = ground arith

  observe_share-none :
      (part total : Option A) (m : Metric A) → part ≡ none → observe_share part total m ≡ m
  observe_share-none none total m h = refl
  observe_share-none (some p) total m h = cc

  -- Without a counter of failures there is no share of them.
  apply_rates-error_rate :
      (key : Text) (counters : Map A) (now : ℤ) (snap : Snapshot A) (entries : Map (RateEntry A))
      → lookup (codes "requests_failed") counters ≡ none
      → (apply_rates key counters now snap entries).1.error_rate_pct ≡ snap.error_rate_pct
  unfolding apply_rates
  apply_rates-error_rate key counters now snap entries h =
      observe_share-none _ _ snap.error_rate_pct
        (rate_named-none key counters now (codes "requests_failed") _ h)

  counters_of-failed :
      (generation prompt preemptions queries hits success : Metric A) (aborted : A × Bool)
      → lookup
          (codes "requests_failed")
          (counters_of generation prompt preemptions queries hits success aborted)
        ≡ none
  unfolding counters_of text_eq lookup
  counters_of-failed generation prompt preemptions queries hits success aborted =
      let failed = codes "requests_failed" in
      let c1 = count_metric (codes "generation_tokens") generation [] in
      let c2 = count_metric (codes "prompt_tokens") prompt c1 in
      let c3 = count_metric (codes "preemptions") preemptions c2 in
      let c4 = count_metric (codes "prefix_cache_queries") queries c3 in
      let c5 = count_metric (codes "prefix_cache_hits") hits c4 in
      let c6 = count_metric (codes "requests_finished") success c5 in
      let e1 = count_metric-none failed (codes "generation_tokens") generation [] refl refl in
      let e2 = count_metric-none failed (codes "prompt_tokens") prompt c1 refl e1 in
      let e3 = count_metric-none failed (codes "preemptions") preemptions c2 refl e2 in
      let e4 = count_metric-none failed (codes "prefix_cache_queries") queries c3 refl e3 in
      let e5 = count_metric-none failed (codes "prefix_cache_hits") hits c4 refl e4 in
      let e6 = count_metric-none failed (codes "requests_finished") success c5 refl e5 in
      count_if-none failed (codes "requests_aborted") aborted c6 refl e6

module _ {A : Type 0} ⦃F : Float64 A⦄ ⦃T : FloatText A⦄ where
  counters-failed_none :
      (mf : MetricFamilies A) (model : Text)
      → lookup (codes "requests_failed") (read_families mf model).counters ≡ none
  unfolding read_families
  counters-failed_none mf model = counters_of-failed _ _ _ _ _ _ _

  snapshot-error_rate :
      (mf : MetricFamilies A) (model : Text)
      → (read_families mf model).snapshot.error_rate_pct ≡ unmeasured
  unfolding read_families
  snapshot-error_rate mf model = refl

  -- From the reading of any vLLM payload, whatever rates the collector derives from it and what it
  -- knows of earlier scrapes, the error rate is left unmeasured.
  pub error_rate-vllm :
      (mf : MetricFamilies A) (model key : Text) (now : ℤ) (entries : Map (RateEntry A))
      → (apply_rates key
          (read_families mf model).counters
          now
          (read_families mf model).snapshot
          entries).1.error_rate_pct
        ≡ unmeasured
  error_rate-vllm mf model key now entries =
      apply_rates-error_rate key (read_families mf model).counters now
        (read_families mf model).snapshot entries (counters-failed_none mf model)
      ∙ snapshot-error_rate mf model
