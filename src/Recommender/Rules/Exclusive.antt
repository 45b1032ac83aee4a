-- ===== src/Recommender/Rules/Exclusive.antt =====
-- Rules that tell opposite diagnoses apart.
use inference_fabric_autopil.Prelude.{
  is_some, Bool, if◌then◌else◌, true, false, ◌⊎◌, not, ◌&&◌, ◌≡◌, refl, ◌∙◌, inl, inr, none, some,
  Bool-cases, arith,
}
use inference_fabric_autopil.Float.{Float64}
use inference_fabric_autopil.Telemetry.Metric.{above, below}
use inference_fabric_autopil.Telemetry.Snapshot.{Snapshot}
use inference_fabric_autopil.Float.Laws.{Lawful}
use inference_fabric_autopil.Recommender.Eval.{Eval, sustained}
use inference_fabric_autopil.Recommender.Eval.Current.{IsCurrent, sustained-latest}
use inference_fabric_autopil.Recommender.Rules.Defs.{find_if}
use inference_fabric_autopil.Recommender.Rules.Capacity.{
  eval_queue_with_saturated_gpu, eval_queue_with_idle_gpu, is_saturated, is_idle_queueing,
}
use inference_fabric_autopil.Recommender.Rules.Latency.{
  eval_ttft_admission_bound, eval_ttft_prefill_bound, queue_share_of_ttft,
}
use inference_fabric_autopil.Recommender.Thresholds.{Thresholds, validate}

module _ {A : Type 0} ⦃F : Float64 A⦄ where
  -- The share of the time to first token that the request waited, in percent and at most 100.
  abbrev pub waited_share : Snapshot A → A
  waited_share s =
      let percent = F.mul (F.div s.queue_time_p95_ms.value s.ttft_p95_ms.value) (F.of_nat 100) in
      if F.lt (F.of_nat 100) percent then F.of_nat 100 else percent

  -- Whether the share is known: both times were measured, and the time to first token is positive.
  abbrev pub share_measured : Snapshot A → Bool
  share_measured s =
      s.ttft_p95_ms.ok && s.queue_time_p95_ms.ok && not (F.le s.ttft_p95_ms.value (F.of_nat 0))

  queue_share_of_ttft-measured :
      (s : Snapshot A)
      → queue_share_of_ttft s ≡ (if share_measured s then some (waited_share s) else none)
  unfolding queue_share_of_ttft
  queue_share_of_ttft-measured s = ground arith

module _ {A : Type 0} ⦃F : Float64 A⦄ (laws : Lawful F) where
  validate-gap :
      (t : Thresholds A) → validate t ≡ true → F.le t.gpu_util_high_pct t.gpu_util_low_pct ≡ false
  unfolding validate
  validate-gap t h = ground arith

  not_saturated_and_idle :
      (t : Thresholds A) (s : Snapshot A)
      → validate t ≡ true
      → is_saturated t s ≡ true
      → is_idle_queueing t s ≡ true
      → ⊥
  unfolding is_saturated is_idle_queueing above below
  not_saturated_and_idle t s v p q = ground (
    arith,
    validate-gap t v,
    laws.lt_trans t.gpu_util_high_pct s.gpu_utilization_pct.value t.gpu_util_low_pct,
    laws.le_of_lt t.gpu_util_high_pct t.gpu_util_low_pct,
  )

  -- With validated thresholds, and the latest snapshot at the end of the history, "queueing while
  -- the GPU is saturated" and "queueing while the GPU is idle" are never both found.
  pub saturated_or_idle :
      (e : Eval A)
      → validate e.t ≡ true
      → IsCurrent e
      → (eval_queue_with_saturated_gpu e ≡ none) ⊎ (eval_queue_with_idle_gpu e ≡ none)
  unfolding eval_queue_with_saturated_gpu eval_queue_with_idle_gpu find_if
  saturated_or_idle e v c = elim (Bool-cases (sustained e (is_saturated e.t))) [
    | inr quiet ↦ inl (rw quiet refl)
    | inl busy ↦ elim (Bool-cases (sustained e (is_idle_queueing e.t))) [
      | inr quiet ↦ inr (rw quiet refl)
      | inl idle ↦ absurd (
          not_saturated_and_idle e.t e.latest v (sustained-latest e _ c busy)
            (sustained-latest e _ c idle))
    ]
  ]

  -- Where the threshold and the share are not NaN, "dominated by queueing" is found exactly if the
  -- time to first token and the queue time were measured, the former is positive and above target,
  -- and the share of the queue time in it, at most 100 percent, reaches the threshold; "dominated by
  -- prefill" exactly if they were measured, it is positive and above target, and the share does not.
  pub ttft_diagnosis :
      (e : Eval A)
      → F.is_nan (waited_share e.latest) ≡ false
      → F.is_nan e.t.queue_share_of_ttft_pct ≡ false
      → (is_some (eval_ttft_admission_bound e) ≡ (
          share_measured e.latest
          && F.lt e.t.ttft_p95_ms e.latest.ttft_p95_ms.value
          && F.le e.t.queue_share_of_ttft_pct (waited_share e.latest)))
        × (is_some (eval_ttft_prefill_bound e) ≡ (
            share_measured e.latest
            && F.lt e.t.ttft_p95_ms e.latest.ttft_p95_ms.value
            && not (F.le e.t.queue_share_of_ttft_pct (waited_share e.latest))))
  unfolding eval_ttft_admission_bound eval_ttft_prefill_bound find_if above
  ttft_diagnosis e n m =
      let share = waited_share e.latest in
      let threshold = e.t.queue_share_of_ttft_pct in
      elim (Bool-cases (share_measured e.latest)) [
        | inr unknown ↦
            let q : queue_share_of_ttft e.latest ≡ none =
              queue_share_of_ttft-measured e.latest ∙ rw unknown refl in
            rw (q, eval_ttft_admission_bound, eval_ttft_prefill_bound) (ground arith, ground arith)
        | inl known ↦
            let q : queue_share_of_ttft e.latest ≡ some share =
              queue_share_of_ttft-measured e.latest ∙ rw known refl in
            rw (q, eval_ttft_admission_bound, eval_ttft_prefill_bound)
              (
                ground
                    (arith, laws.le_total share threshold n m, laws.not_le_of_lt share threshold),
                ground arith,
              )
      ]
