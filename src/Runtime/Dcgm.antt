-- ===== src/Runtime/Dcgm.antt =====
-- internal/runtime/dcgm/dcgm.go: the devices that a DCGM Exporter reports. strconv.Atoi and
-- strconv.Itoa are arguments.
pub mod Indexes
pub mod Ordered
use inference_fabric_autopil.Prelude.{
  Bool, true, false, ◌&&◌, Option, none, some, List, [], ◌∷◌, ◌++◌, ◌⊎◌, inl, inr, map,
  if◌then◌else◌,
}
use inference_fabric_autopil.Prelude.Int.{ℤ, ltb_ℤ, leb_ℤ}
use inference_fabric_autopil.Prelude.Texts.{Text, codes}
use inference_fabric_autopil.Prelude.Maps.{lookup}
use inference_fabric_autopil.Prelude.Sort.{sort_by}
use inference_fabric_autopil.Float.{Float64, FloatText}
use inference_fabric_autopil.Telemetry.Metric.{Metric, observed, observed_if, unmeasured}
use inference_fabric_autopil.Promtext.Labels.{Labels}
use inference_fabric_autopil.Promtext.Sample.{Sample}
use inference_fabric_autopil.Promtext.Families.{
  MetricFamilies, ParseError, select, max, parse_string,
}

-- `Device`
pub record Device (A : Type 0) : Type 0 where
  pub index : ℤ
  pub utilization_pct : Metric A
  pub mem_copy_util_pct : Metric A
  pub memory_used_mib : Metric A
  pub memory_free_mib : Metric A
  pub memory_used_pct : Metric A
  pub sm_clock_mhz : Metric A
  pub temperature_c : Metric A

abbrev pub metric_gpu_util : Text
metric_gpu_util = codes "DCGM_FI_DEV_GPU_UTIL"

abbrev pub metric_mem_copy_util : Text
metric_mem_copy_util = codes "DCGM_FI_DEV_MEM_COPY_UTIL"

abbrev pub metric_fb_used : Text
metric_fb_used = codes "DCGM_FI_DEV_FB_USED"

abbrev pub metric_fb_free : Text
metric_fb_free = codes "DCGM_FI_DEV_FB_FREE"

abbrev pub metric_sm_clock : Text
metric_sm_clock = codes "DCGM_FI_DEV_SM_CLOCK"

abbrev pub metric_gpu_temp : Text
metric_gpu_temp = codes "DCGM_FI_DEV_GPU_TEMP"

abbrev pub label_gpu : Text
label_gpu = codes "gpu"

-- The metrics whose series name the devices.
abbrev pub device_metrics : List Text
device_metrics =
    metric_gpu_util ∷ metric_fb_used ∷ metric_fb_free ∷ metric_gpu_temp ∷ metric_sm_clock
    ∷ metric_mem_copy_util ∷ []

abbrev pub eq_ℤ : ℤ → ℤ → Bool
eq_ℤ a b = leb_ℤ a b && leb_ℤ b a

-- `indexes[idx] = true` on the keys of the map.
unfoldable pub add_index : ℤ → List ℤ → List ℤ
add_index i [] = i ∷ []
add_index i (j ∷ js) = if eq_ℤ i j then j ∷ js else j ∷ add_index i js

module _ (atoi : Text → Option ℤ) where
  -- `gpuIndex`
  unfoldable pub gpu_index : Labels → Option ℤ
  gpu_index labels = elim (lookup label_gpu labels) [ none ↦ none | some raw ↦ atoi raw ]

  abbrev pub with_index : Option ℤ → List ℤ → List ℤ
  with_index none is = is
  with_index (some i) is = add_index i is

  module _ {A : Type 0} where
    -- The loop over the series of one metric.
    unfoldable pub indexes_of : List (Sample A) → List ℤ → List ℤ
    unfolding gpu_index add_index
    indexes_of [] is = is
    indexes_of (s ∷ ss) is = indexes_of ss (with_index (gpu_index s.labels) is)

    -- The loop over the metrics.
    unfoldable pub all_indexes : MetricFamilies A → List Text → List ℤ → List ℤ
    unfolding indexes_of select
    all_indexes mf [] is = is
    all_indexes mf (name ∷ names) is = all_indexes mf names (indexes_of (select name [] mf) is)

module _ {A : Type 0} ⦃F : Float64 A⦄ ⦃T : FloatText A⦄ where
  -- `telemetry.ObservedIf(mf.Max(name, sel))`
  unfoldable pub max_metric : MetricFamilies A → Labels → Text → Metric A
  unfolding max observed_if
  max_metric mf sel name = let (v, ok) = max name sel mf in observed_if v ok

  -- The share of the used memory in what is used and free, where both are reported.
  unfoldable pub used_share : Metric A → Metric A → Metric A
  unfolding observed
  used_share used free =
      let total = F.add used.value free.value in
      if used.ok && (free.ok && F.lt (F.of_nat 0) total)
      then observed (F.mul (F.div used.value total) (F.of_nat 100))
      else unmeasured

  -- One device, the body of the last loop of `Parse`.
  unfoldable pub device_at : (ℤ → Text) → MetricFamilies A → ℤ → Device A
  unfolding max_metric used_share
  device_at itoa mf i =
      let metric = max_metric mf ((label_gpu, itoa i) ∷ []) in
      let used = metric metric_fb_used in
      let free = metric metric_fb_free in
      record {
        index = i;
        utilization_pct = metric metric_gpu_util;
        mem_copy_util_pct = metric metric_mem_copy_util;
        memory_used_mib = used;
        memory_free_mib = free;
        memory_used_pct = used_share used free;
        sm_clock_mhz = metric metric_sm_clock;
        temperature_c = metric metric_gpu_temp;
      }

  -- `Parse` of families; of no index there is no device.
  unfoldable pub devices_of : (Text → Option ℤ) → (ℤ → Text) → MetricFamilies A → List (Device A)
  unfolding all_indexes device_at
  devices_of atoi itoa mf =
      map (device_at itoa mf) (sort_by ltb_ℤ (all_indexes atoi mf device_metrics []))

  -- `Parse`
  unfoldable pub parse_devices :
      (Text → Option ℤ) → (ℤ → Text) → Text → ParseError ⊎ List (Device A)
  unfolding devices_of parse_string
  parse_devices atoi itoa payload = elim (parse_string payload) [
    | inl e ↦ inl e
    | inr mf ↦ inr (devices_of atoi itoa mf)
  ]
