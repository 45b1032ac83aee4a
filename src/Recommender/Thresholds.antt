-- ===== src/Recommender/Thresholds.antt =====
-- internal/recommender/thresholds.go: the tunable inputs of the rules, their defaults and their
-- validation. Durations are nanoseconds.
use inference_fabric_autopil.Prelude.{Bool, false, ◌||◌, if◌then◌else◌, List, [], ◌∷◌, all, not}
use inference_fabric_autopil.Prelude.Int.{ℤ, pos, ltb_ℤ, leb_ℤ}
use inference_fabric_autopil.Float.{Float64}

pub record Thresholds (A : Type 0) : Type 0 where
  pub sustain_for : ℤ
  pub stale_after : ℤ
  pub queue_waiting_requests : A
  pub gpu_util_high_pct : A
  pub gpu_util_low_pct : A
  pub gpu_memory_high_pct : A
  pub kv_cache_high_pct : A
  pub preemptions_per_sec : A
  pub ttft_p95_ms : A
  pub e2e_p95_ms : A
  pub queue_share_of_ttft_pct : A
  pub tail_ratio_p99_p95 : A
  pub tokens_per_second_low : A
  pub prefix_cache_hit_low_pct : A
  pub error_rate_pct : A
  pub abort_rate_pct : A

module _ {A : Type 0} ⦃F : Float64 A⦄ where
  unfoldable pub default_thresholds : Thresholds A
  default_thresholds = record {
    sustain_for = pos 45_000_000_000;
    stale_after = pos 120_000_000_000;
    queue_waiting_requests = F.of_nat 8;
    gpu_util_high_pct = F.of_nat 85;
    gpu_util_low_pct = F.of_nat 35;
    gpu_memory_high_pct = F.of_nat 90;
    kv_cache_high_pct = F.of_nat 90;
    preemptions_per_sec = F.div (F.of_nat 1) (F.of_nat 100);
    ttft_p95_ms = F.of_nat 1000;
    e2e_p95_ms = F.of_nat 10000;
    queue_share_of_ttft_pct = F.of_nat 50;
    tail_ratio_p99_p95 = F.of_nat 3;
    tokens_per_second_low = F.of_nat 200;
    prefix_cache_hit_low_pct = F.of_nat 10;
    error_rate_pct = F.of_nat 2;
    abort_rate_pct = F.of_nat 5;
  }

  -- The values that `Validate` wants between 0 and 100.
  abbrev pub percentages : Thresholds A → List A
  percentages t =
      t.gpu_util_high_pct ∷ t.gpu_util_low_pct ∷ t.gpu_memory_high_pct ∷ t.kv_cache_high_pct
      ∷ t.queue_share_of_ttft_pct ∷ t.prefix_cache_hit_low_pct ∷ t.error_rate_pct ∷ t.abort_rate_pct
      ∷ []

  abbrev pub non_negative : Thresholds A → List A
  non_negative t =
      t.queue_waiting_requests ∷ t.preemptions_per_sec ∷ t.ttft_p95_ms ∷ t.e2e_p95_ms
      ∷ t.tokens_per_second_low ∷ []

  -- Whether `Validate` returns nil. The order of the checks decides only the message.
  unfoldable pub validate : Thresholds A → Bool
  validate t =
      if ltb_ℤ t.sustain_for (pos 0)
      then false
      else if leb_ℤ t.stale_after (pos 0)
      then false
      else if F.le t.gpu_util_high_pct t.gpu_util_low_pct
      then false
      else if not (all (λ v. not (F.lt v (F.of_nat 0) || F.lt (F.of_nat 100) v)) (percentages t))
      then false
      else if not (all (λ v. not (F.lt v (F.of_nat 0))) (non_negative t))
      then false
      else not (F.lt t.tail_ratio_p99_p95 (F.of_nat 1))
