-- ===== src/Checks/Runtime.antt =====
-- Readings of vLLM, Triton and DCGM payloads.
use inference_fabric_autopil.Prelude.{
  ◌+◌, ◌-◌, ◌&&◌, leb, if◌then◌else◌, ◌≡◌, ◌↔◌, true, false, Option, none, some, [], ◌∷◌, ◌++◌,
  Elem,
}
use inference_fabric_autopil.Prelude.Int.{ℤ, pos, ltb_ℤ, pos_part}
use inference_fabric_autopil.Prelude.Texts.{Text, codes, text_lt}
use inference_fabric_autopil.Prelude.Sort.{IsSorted}
use inference_fabric_autopil.Float.Sample.{Num, sample, sample_text}
use inference_fabric_autopil.Telemetry.Metric.{unmeasured}
use inference_fabric_autopil.Promtext.Words.{raw_lines}
use inference_fabric_autopil.Promtext.Families.{MetricFamilies, parse_lines, no_families}
use inference_fabric_autopil.Collector.Scrape.{apply_rates}
use inference_fabric_autopil.Runtime.{Seen, missing_from, is_seen}
use inference_fabric_autopil.Runtime.Missing.{missing_from_lem}
use inference_fabric_autopil.Runtime.Vllm.{expected_metrics, optional_metric, read_families}
use inference_fabric_autopil.Runtime.Vllm.Sound.{error_rate-vllm}
use inference_fabric_autopil.Runtime.Dcgm.{devices_of, device_metrics}
use inference_fabric_autopil.Runtime.Dcgm.Indexes.{IsNodup, NamesAny}
use inference_fabric_autopil.Runtime.Dcgm.Ordered.{indexes, devices_of_lem}

abbrev payload : Text
payload =
    codes "vllm:num_requests_running 3"
    ++ 10 ∷ codes "vllm:request_success_total 7"
    ++ 10 ∷ codes "DCGM_FI_DEV_GPU_UTIL{gpu="
    ++ 34 ∷ codes "1"
    ++ 34 ∷ codes "} 40"
    ++ 10 ∷ codes "DCGM_FI_DEV_GPU_TEMP{gpu="
    ++ 34 ∷ codes "0"
    ++ 34 ∷ codes "} 60"
    ++ 10 ∷ []

abbrev families : MetricFamilies Num
families = parse_lines (raw_lines payload) no_families

abbrev seen : Seen
seen = (codes "vllm:num_requests_running", true) ∷ (codes "vllm:kv_cache_usage_perc", false) ∷ []

-- Texts of one digit.
abbrev atoi : Text → Option ℤ
atoi (c ∷ []) = if leb 48 c && leb c 57 then some (pos (c - 48)) else none
atoi _ = none

abbrev itoa : ℤ → Text
itoa i = (48 + pos_part i) ∷ []

unseen_listed :
    IsSorted text_lt (missing_from optional_metric expected_metrics seen)
    × ((name : Text)
        → Elem name (missing_from optional_metric expected_metrics seen) ↔ (
            Elem name expected_metrics
            × (optional_metric name ≡ false)
            × (is_seen name seen ≡ false)))
unseen_listed = missing_from_lem optional_metric seen expected_metrics

error_rate-vllm_example :
    (apply_rates
      (codes "k")
      (read_families families (codes "llama")).counters
      (pos 5)
      (read_families families (codes "llama")).snapshot
      []).1.error_rate_pct
    ≡ unmeasured
error_rate-vllm_example = error_rate-vllm families (codes "llama") (codes "k") (pos 5) []

devices_of_lem_example :
    IsSorted ltb_ℤ (indexes (devices_of atoi itoa families))
    × IsNodup (indexes (devices_of atoi itoa families))
    × ((i : ℤ)
        → Elem i (indexes (devices_of atoi itoa families))
          ↔ NamesAny atoi i families device_metrics)
devices_of_lem_example = devices_of_lem atoi itoa families
