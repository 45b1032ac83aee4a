-- ===== src/Config/Accepted.antt =====
-- What the rest of the program can rely on in a configuration that is accepted.
use inference_fabric_autopil.Prelude.{
  ℕ, suc, ◌≡◌, refl, sym, ap, ◌∙◌, ◌⊎◌, Bool, true, false, ◌||◌, not, Option, none, some, List, [],
  ◌∷◌, map, All, is_some, arith, Bool-cases, inl, inr,
}
use inference_fabric_autopil.Prelude.Int.{
  ℤ, pos, leb_ℤ, ltb_ℤ, ◌*ℤ◌, to_int64, max_int64, to_int64-small, *ℤ-positive,
}
use inference_fabric_autopil.Prelude.Texts.{Text, text_eq}
use inference_fabric_autopil.Float.{Float64}
use inference_fabric_autopil.Promtext.Words.{to_lower}
use inference_fabric_autopil.Telemetry.Snapshot.{workload_key}
use inference_fabric_autopil.Recommender.Eval.{trend_window}
use inference_fabric_autopil.Recommender.Thresholds.{Thresholds}
use inference_fabric_autopil.Recommender.Thresholds
use inference_fabric_autopil.Alerting.Url.{Url, validate_url}
use inference_fabric_autopil.Alerting.Sender.{Options, or_warning, valid_severity, new_sender}
use inference_fabric_autopil.Collector.Target.{
  or_positive, Target, target_key, accept_targets, new_collector, with_defaults,
}
use inference_fabric_autopil.Config.{
  TargetConfig, Config, to_thresholds, collector_target, alerting_options, collector_options,
}
use inference_fabric_autopil.Config.Validation.{
  config_key, to_collector_target, targets_of, validate_targets, validate_alerting, validate_config,
}
use inference_fabric_autopil.Config.Passed.{
  validate_targets-cons, validate_alerting-facts, validate_rest-facts, validate_config-facts,
}

sustain_for-positive :
    {A : Type 0} ⦃F : Float64 A⦄ (t : Thresholds A)
    → Thresholds.validate t ≡ true
    → ltb_ℤ t.sustain_for (pos 0) ≡ false
unfolding Thresholds.validate
sustain_for-positive t h = ground arith

-- The product that `Validate` compares is the exact one, or the exact one is out of range.
retention-covers :
    (sustain retention : ℤ)
    → ltb_ℤ sustain (pos 0) ≡ false
    → ltb_ℤ retention (to_int64 (sustain *ℤ trend_window)) ≡ false
    → (ltb_ℤ retention (sustain *ℤ trend_window) ≡ false)
      ⊎ (ltb_ℤ max_int64 (sustain *ℤ trend_window) ≡ true)
retention-covers sustain retention h k =
    elim (Bool-cases (ltb_ℤ max_int64 (sustain *ℤ trend_window))) [
      | inl wide ↦ inr wide
      | inr small ↦
          let e = to_int64-small (sustain *ℤ trend_window) (*ℤ-positive sustain 3 h) small in
          inl (ap (ltb_ℤ retention) (sym e) ∙ k)
    ]

or_positive-positive : (d x : ℤ) → leb_ℤ x (pos 0) ≡ false → or_positive d x ≡ x
or_positive-positive d x h = rw h refl

new_sender-some :
    (A : Type 0) (valid : Text → Bool) (o : Options)
    → o.has_logger ≡ true
    → valid o.url ≡ true
    → valid_severity (or_warning o.min_severity) ≡ true
    → is_some (new_sender {A = A} valid o) ≡ true
unfolding new_sender
new_sender-some A valid o l v s = ground arith

module _ (parse : Text → Option Url) where
  targets_of-validate_targets :
      (i : ℕ) (names : List Text) (ts : List TargetConfig)
      → validate_targets parse i names ts ≡ none
      → targets_of parse ts ≡ some (map collector_target ts)
  unfolding targets_of to_collector_target
  targets_of-validate_targets i names [] h = refl
  targets_of-validate_targets i names (t ∷ ts) h =
      let v = validate_targets-cons parse i names t ts h in
      rw
        (
          v.1,
          targets_of-validate_targets (suc i) (config_key t ∷ names) ts v.2,
          targets_of,
          to_collector_target,
        )
        refl

  -- With a namespace, the two keys of a target are one.
  target_key-collector_target :
      (t : TargetConfig)
      → text_eq t.namespace [] ≡ false
      → target_key (collector_target t) ≡ config_key t
  unfolding target_key workload_key
  target_key-collector_target t h = rw h refl

  accept_targets-validate_targets :
      (i : ℕ) (names : List Text) (ts : List TargetConfig)
      → All (λ t. text_eq t.namespace [] ≡ false) ts
      → validate_targets parse i names ts ≡ none
      → accept_targets parse names (map collector_target ts) ≡ true
  unfolding accept_targets
  accept_targets-validate_targets i names [] n h = refl
  accept_targets-validate_targets i names (t ∷ ts) n h =
      let v = validate_targets-cons parse i names t ts h in
      rw
        (
          target_key-collector_target t n.0,
          v.0,
          v.1,
          accept_targets-validate_targets (suc i) (config_key t ∷ names) ts n.1 v.2,
          accept_targets,
        )
        refl

  or_warning-valid : (s : Text) → valid_severity s ≡ true → valid_severity (or_warning s) ≡ true
  unfolding valid_severity text_eq
  or_warning-valid [] h = refl
  or_warning-valid (c ∷ s) h = h

  module _ {A : Type 0} ⦃F : Float64 A⦄ where
    collector_options-kept :
        (c : Config A) (ts : List Target)
        → leb_ℤ c.collector.interval (pos 0) ≡ false
        → leb_ℤ c.collector.timeout (pos 0) ≡ false
        → leb_ℤ c.collector.interval c.collector.timeout ≡ false
        → accept_targets parse [] ts ≡ true
        → new_collector parse true ts (collector_options c)
          ≡ some (ts, with_defaults (collector_options c))
    unfolding new_collector with_defaults collector_options
    collector_options-kept c ts i t s a =
        rw
          (
            or_positive-positive (pos 15_000_000_000) c.collector.interval i,
            or_positive-positive (pos 10_000_000_000) c.collector.timeout t,
            s,
            a,
          )
          refl

    new_sender-accepts :
        (c : Config A)
        → validate_alerting parse c ≡ none
        → (not c.alerting.enabled
            || is_some (new_sender {A = A} (validate_url parse) (alerting_options true c)))
          ≡ true
    unfolding alerting_options
    new_sender-accepts c h = elim (Bool-cases c.alerting.enabled) [
      | inl on ↦ rw on (
          new_sender-some A (validate_url parse) (alerting_options true c) refl
            (rw on at (validate_alerting-facts parse c h).1)
            (or_warning-valid (to_lower c.alerting.min_severity)
              (validate_alerting-facts parse c h).0))
      | inr off ↦ rw off refl
    ]

    -- From a configuration that `Validate` accepts and whose targets all have a namespace, `Targets`
    -- makes the collector's targets, `New` of the collector accepts them with the configured options,
    -- `New` of the alert sender accepts the options where alerting is on, the thresholds are valid, and
    -- the retention is not shorter than the window of a trend, which is three times the sustain window,
    -- unless this product exceeds the largest integer of 64 bits.
    pub validate_config-accepted :
        (c : Config A)
        → validate_config parse c ≡ none
        → All (λ t. text_eq t.namespace [] ≡ false) c.collector.targets
        → let ts = map collector_target c.collector.targets in
          (targets_of parse c.collector.targets ≡ some ts)
          × (new_collector parse true ts (collector_options c)
              ≡ some (ts, with_defaults (collector_options c)))
          × ((not c.alerting.enabled
                || is_some (new_sender {A = A} (validate_url parse) (alerting_options true c)))
              ≡ true)
          × (Thresholds.validate (to_thresholds c.thresholds) ≡ true)
          × ((ltb_ℤ c.telemetry.retention_period (c.thresholds.sustain_for *ℤ trend_window) ≡ false)
              ⊎ (ltb_ℤ max_int64 (c.thresholds.sustain_for *ℤ trend_window) ≡ true))
    validate_config-accepted c h n =
        let v = validate_config-facts parse c h in
        let r = validate_rest-facts parse c v.4 in
        (
          targets_of-validate_targets 0 [] c.collector.targets v.3,
          collector_options-kept c (map collector_target c.collector.targets) v.0 v.1 v.2
              (accept_targets-validate_targets 0 [] c.collector.targets n v.3),
          new_sender-accepts c r.2,
          r.0,
          retention-covers c.thresholds.sustain_for c.telemetry.retention_period
              (sustain_for-positive (to_thresholds c.thresholds) r.0) r.1,
        )
