-- ===== src/Metrics/Registry.antt =====
-- internal/metrics/registry.go: the registry and what the other parts record in it. A method
-- is one step under the lock; the counters stay below 2^63.
pub mod Recorded
use inference_fabric_autopil.Prelude.{
  ℕ, suc, ◌+◌, ◌/◌, Bool, true, false, ◌&&◌, ◌||◌, Option, none, some, List, [], ◌∷◌, ◌++◌, map,
  length, ◌==◌, if◌then◌else◌,
}
use inference_fabric_autopil.Prelude.Int.{ℤ, pos_part, neg_part, sub_ℕ, ◌-ℤ◌}
use inference_fabric_autopil.Prelude.Texts.{Text, codes, text_eq, text_lt}
use inference_fabric_autopil.Prelude.Maps.{Map, lookup, insert}
use inference_fabric_autopil.Prelude.Sort.{sort_by}
use inference_fabric_autopil.Float.{Float64}

-- `targetStats`; the zero instant is `none`.
pub record TargetStats (A : Type 0) : Type 0 where
  pub scrapes : ℕ
  pub errors : ℕ
  pub last_success : Option ℤ
  pub last_duration_ms : A
  pub missing_metrics : ℕ

-- An entry of the map `scrapes`, whose key is `targetKey`.
pub record TargetEntry (A : Type 0) : Type 0 where
  pub workload : Text
  pub runtime : Text
  pub stats : TargetStats A

pub record AlertStats : Type 0 where
  pub sent : ℕ
  pub failed : ℕ
  pub dropped : ℕ
  pub suppressed : ℕ
  pub open_count : ℕ

pub record BuildInfo : Type 0 where
  pub version : Text
  pub commit : Text
  pub go_version : Text

-- What the callback of the sink returns.
pub record DatabaseStats : Type 0 where
  pub written : ℕ
  pub failed : ℕ
  pub dropped : ℕ

-- `Registry`; the callbacks are what they return when they are called.
pub record Registry (A : Type 0) : Type 0 where
  pub targets : List (TargetEntry A)
  pub by_severity : Map ℕ
  pub active : ℕ
  pub store_size : ℕ
  pub build : BuildInfo
  pub started : ℤ
  pub database : Option DatabaseStats
  pub alerts : Option AlertStats

-- `Microseconds` of a duration, truncated toward zero.
abbrev pub microseconds : ℤ → ℤ
microseconds d = sub_ℕ (pos_part d / 1000) (neg_part d / 1000)

-- `m[k]` of a map of counters.
unfoldable pub count_at : Text → Map ℕ → ℕ
count_at k m = elim (lookup k m) [ none ↦ 0 | some n ↦ n ]

-- The loop of `RecordAnalysis`.
unfoldable pub count_severities : List Text → Map ℕ → Map ℕ
unfolding count_at
count_severities [] m = m
count_severities (s ∷ ss) m = count_severities ss (insert s (suc (count_at s m)) m)

module _ {A : Type 0} ⦃F : Float64 A⦄ where
  -- `New`
  unfoldable pub new_registry : BuildInfo → ℤ → Registry A
  new_registry build now = record {
    targets = [];
    by_severity = [];
    active = 0;
    store_size = 0;
    build = build;
    started = now;
    database = none;
    alerts = none;
  }

  abbrev pub no_stats : TargetStats A
  no_stats = record {
    scrapes = 0;
    errors = 0;
    last_success = none;
    last_duration_ms = F.of_nat 0;
    missing_metrics = 0;
  }

  abbrev pub is_target : Text → Text → TargetEntry A → Bool
  is_target workload runtime e = text_eq workload e.workload && text_eq runtime e.runtime

  -- `statsFor` and the change that the caller makes through the pointer.
  unfoldable pub change_stats :
      Text → Text → (TargetStats A → TargetStats A) → List (TargetEntry A) → List (TargetEntry A)
  change_stats workload runtime change [] =
      record { workload = workload; runtime = runtime; stats = change no_stats } ∷ []
  change_stats workload runtime change (e ∷ es) =
      let rest = change_stats workload runtime change es in
      if is_target workload runtime e then record e { stats = change e.stats } ∷ es else e ∷ rest

  -- What `RecordScrape` changes in the counters of its target.
  abbrev pub scrape_change : ℤ → ℕ → ℤ → TargetStats A → TargetStats A
  scrape_change took missing now s = record s {
    scrapes = suc s.scrapes;
    last_success = some now;
    last_duration_ms = F.div (F.of_int (microseconds took)) (F.of_nat 1000);
    missing_metrics = missing;
  }

  unfoldable pub record_scrape : Text → Text → ℤ → ℕ → ℤ → Registry A → Registry A
  unfolding change_stats
  record_scrape workload runtime took missing now r = record r {
    targets = change_stats workload runtime (scrape_change took missing now) r.targets;
  }

  abbrev pub failure_change : TargetStats A → TargetStats A
  failure_change s = record s { errors = suc s.errors }

  unfoldable pub record_scrape_error : Text → Text → Registry A → Registry A
  unfolding change_stats
  record_scrape_error workload runtime r = record r {
    targets = change_stats workload runtime failure_change r.targets;
  }

  unfoldable pub record_analysis : List Text → Registry A → Registry A
  unfolding count_severities
  record_analysis severities r = record r {
    active = length severities;
    by_severity = count_severities severities r.by_severity;
  }

  unfoldable pub set_store_size : ℕ → Registry A → Registry A
  set_store_size n r = record r { store_size = n }

  -- `SetDatabaseStats`
  unfoldable pub set_database_stats : DatabaseStats → Registry A → Registry A
  set_database_stats d r = record r { database = some d }

  -- `SetAlertStats`
  unfoldable pub set_alert_stats : AlertStats → Registry A → Registry A
  set_alert_stats a r = record r { alerts = some a }

  -- The order of the keys.
  abbrev pub by_target : TargetEntry A → TargetEntry A → Bool
  by_target a b =
      if text_eq a.workload b.workload
      then text_lt a.runtime b.runtime
      else text_lt a.workload b.workload
