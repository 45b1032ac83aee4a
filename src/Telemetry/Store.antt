-- ===== src/Telemetry/Store.antt =====
-- internal/telemetry/store.go: the bounded in-memory window of snapshots for each workload.
-- A method takes the time that its clock reads. The mutex makes each method one step, and the
-- copies that bound the backing array do not change the contents.
pub mod Series
pub mod Retention
pub mod Queries
use inference_fabric_autopil.Prelude.{
  ℕ, zero, suc, ◌+◌, ◌-◌, ◌*◌, Bool, true, false, Option, none, some, List, [], ◌∷◌, ◌++◌, map, ltb,
  length, drop, get_last?, if◌then◌else◌,
}
use inference_fabric_autopil.Prelude.Int.{ℤ, pos, ◌-ℤ◌, ltb_ℤ, pos_part}
use inference_fabric_autopil.Prelude.Texts.{Text, text_lt}
use inference_fabric_autopil.Prelude.Maps.{Map, lookup, insert}
use inference_fabric_autopil.Prelude.Sort.{sort_by}
use inference_fabric_autopil.Telemetry.Snapshot.{Snapshot, key}

-- `time.Time.Before`
abbrev pub before : ℤ → ℤ → Bool
before t u = ltb_ℤ t u

pub record Store (A : Type 0) : Type 0 where
  pub data_of : Map (List (Snapshot A))
  pub max_per_workload : ℕ
  pub max_age : ℤ
  pub has_sink : Bool

abbrev pub default_max_per_workload : ℕ
default_max_per_workload = 120

-- 15 minutes
abbrev pub default_max_age : ℤ
default_max_age = pos 900_000_000_000

module _ {A : Type 0} where
  -- `NewStore` with no options.
  unfoldable pub new_store : Store A
  new_store = record {
    data_of = [];
    max_per_workload = default_max_per_workload;
    max_age = default_max_age;
    has_sink = false;
  }

  -- A bound that is not positive leaves the one that is there.
  unfoldable pub with_retention : ℤ → ℤ → Store A → Store A
  with_retention count age s = record s {
    max_per_workload = if ltb_ℤ (pos 0) count then pos_part count else s.max_per_workload;
    max_age = if ltb_ℤ (pos 0) age then age else s.max_age;
  }

  unfoldable pub with_sink : Store A → Store A
  with_sink s = record s { has_sink = true }

  abbrev pub or_empty : Option (List (Snapshot A)) → List (Snapshot A)
  or_empty none = []
  or_empty (some series) = series

  -- The loop that counts the samples to drop from the front.
  unfoldable pub expired : ℤ → List (Snapshot A) → ℕ
  expired cutoff [] = 0
  expired cutoff (x ∷ xs) = if before x.timestamp cutoff then suc (expired cutoff xs) else 0

  -- The two bounds of `Add`: by age, then by count.
  unfoldable pub retain : ℕ → ℤ → List (Snapshot A) → List (Snapshot A)
  unfolding expired
  retain max cutoff series =
      let fresh = drop (expired cutoff series) series in
      if ltb max (length fresh) then drop (length fresh - max) fresh else fresh

  -- `Add`, with the snapshots that it writes to the sink.
  unfoldable pub add : Store A → ℤ → Snapshot A → Store A × List (Snapshot A)
  add s now snap =
      let series = or_empty (lookup (key snap) s.data_of) ++ snap ∷ [] in
      (
        record s {
          data_of =
              insert (key snap) (retain s.max_per_workload (now -ℤ s.max_age) series) s.data_of;
        },
        if s.has_sink then snap ∷ [] else [],
      )

  abbrev pub by_key : Snapshot A → Snapshot A → Bool
  by_key a b = text_lt (key a) (key b)

  unfoldable pub newest : Map (List (Snapshot A)) → List (Snapshot A)
  newest [] = []
  newest (e ∷ m) = elim (get_last? e.1) [ none ↦ newest m | some x ↦ x ∷ newest m ]

  unfoldable pub latest : Store A → List (Snapshot A)
  unfolding newest
  latest s = sort_by by_key (newest s.data_of)

  unfoldable pub history : Store A → Text → List (Snapshot A)
  history s k = or_empty (lookup k s.data_of)

  unfoldable pub workloads : Store A → List Text
  workloads s = sort_by text_lt (map (λ e. e.0) s.data_of)

  unfoldable pub collect : Store A → List Text → List (Snapshot A)
  collect s [] = []
  collect s (k ∷ ks) = or_empty (lookup k s.data_of) ++ collect s ks

  -- `All`
  unfoldable pub all_snapshots : Store A → List (Snapshot A)
  unfolding collect workloads
  all_snapshots s = collect s (workloads s)

  unfoldable pub total_length : Map (List (Snapshot A)) → ℕ
  total_length [] = 0
  total_length (e ∷ m) = length e.1 + total_length m

  unfoldable pub size : Store A → ℕ
  unfolding total_length
  size s = total_length s.data_of

  -- Whether `Prune` deletes a series.
  unfoldable pub is_stale : ℤ → List (Snapshot A) → Bool
  is_stale cutoff series = elim (get_last? series) [
    | none ↦ true
    | some x ↦ before x.timestamp cutoff
  ]

  unfoldable pub prune_map : ℤ → Map (List (Snapshot A)) → Map (List (Snapshot A)) × ℕ
  unfolding is_stale
  prune_map cutoff [] = ([], 0)
  prune_map cutoff (e ∷ m) =
      let (m', removed) = prune_map cutoff m in
      if is_stale cutoff e.1 then (m', suc removed) else (e ∷ m', removed)

  -- `Prune`, with the number of workloads removed.
  unfoldable pub prune : Store A → ℤ → Store A × ℕ
  unfolding prune_map
  prune s now =
      let (m', removed) = prune_map (now -ℤ s.max_age) s.data_of in
      (record s { data_of = m' }, removed)
