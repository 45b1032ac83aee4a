-- ===== src/Telemetry/Store/Retention.antt =====
-- What every sequence of `Add` and `Prune` keeps true of the store.
use inference_fabric_autopil.Prelude.{
  ℕ, ◌≤◌, ◌<◌, ◌≡◌, refl, none, some, List, [], ◌∷◌, length, All, All-append, if◌then◌else◌, arith,
  Bool-cases, Option-cases, inl, inr,
}
use inference_fabric_autopil.Prelude.Int.{ℤ}
use inference_fabric_autopil.Prelude.Texts.{Text, text_eq_iff}
use inference_fabric_autopil.Prelude.Maps.{
  Map, lookup, NodupKeys, All-lookup, All-insert, NodupKeys-insert,
}
use inference_fabric_autopil.Telemetry.Snapshot.{Snapshot, key}
use inference_fabric_autopil.Telemetry.Store.{
  Store, or_empty, new_store, with_retention, add, prune, prune_map, is_stale,
}
use inference_fabric_autopil.Telemetry.Store.Series.{length-retain-le, All-retain}

pub data Op (A : Type 0) : Type 0 where
  adds : ℤ → Snapshot A → Op A
  prunes : ℤ → Op A

module _ {A : Type 0} where
  -- One workload's entry: at most `limit` samples, all of that workload.
  abbrev pub IsSeries : ℕ → Text × List (Snapshot A) → Type 0
  IsSeries limit e = (length e.1 ≤ limit) × All (λ x. key x ≡ e.0) e.1

  pub record IsValid (s : Store A) : Type 0 where
    pub series : All (IsSeries s.max_per_workload) s.data_of
    pub distinct : NodupKeys s.data_of
    pub positive : 0 < s.max_per_workload

  unfoldable pub step : Store A → Op A → Store A
  step s (adds now x) = (add s now x).0
  step s (prunes now) = (prune s now).0

  unfoldable pub run : Store A → List (Op A) → Store A
  run s [] = s
  run s (op ∷ ops) = run (step s op) ops

  or_empty-IsSeries :
      (k : Text) (s : Store A)
      → IsValid s
      → IsSeries s.max_per_workload (k, or_empty (lookup k s.data_of))
  or_empty-IsSeries k s v = elim (Option-cases (lookup k s.data_of)) [
    | inl absent ↦ rw absent (omega arith, tt)
    | inr (xs, present) ↦
        rw present (All-lookup (IsSeries s.max_per_workload) k s.data_of v.series present)
  ]

  -- `Add` keeps the store valid, whatever the snapshot's timestamp.
  add-IsValid : (s : Store A) (now : ℤ) (x : Snapshot A) → IsValid s → IsValid (add s now x).0
  unfolding add
  add-IsValid s now x v = record {
    series =
        All-insert (IsSeries s.max_per_workload) (key x) _ s.data_of
          (
            length-retain-le s.max_per_workload _ _,
            All-retain (λ y. key y ≡ key x) s.max_per_workload _ _
                (All-append (λ y. key y ≡ key x) _ (x ∷ []) (or_empty-IsSeries (key x) s v).1
                  (refl, tt)),
          )
          v.series;
    distinct = NodupKeys-insert (key x) _ s.data_of v.distinct;
    positive = v.positive;
  }

  prune_map-All {κ} :
      (P : Text × List (Snapshot A) → Type κ) (cutoff : ℤ) (m : Map (List (Snapshot A)))
      → All P m
      → All P (prune_map cutoff m).0
  unfolding prune_map
  prune_map-All P cutoff [] h = h
  prune_map-All P cutoff (e ∷ m) h = elim (Bool-cases (is_stale cutoff e.1)) [
    | inl stale ↦ rw stale (prune_map-All P cutoff m h.1)
    | inr live ↦ rw live (h.0, prune_map-All P cutoff m h.1)
  ]

  -- What a lookup finds after `Prune`: the series, unless it is stale.
  pub lookup-prune_map :
      (k : Text) (cutoff : ℤ) (m : Map (List (Snapshot A)))
      → NodupKeys m
      → lookup k (prune_map cutoff m).0
        ≡ elim (lookup k m) [ none ↦ none | some xs ↦ if is_stale cutoff xs then none else some xs ]
  unfolding prune_map lookup
  lookup-prune_map k cutoff [] h = refl
  lookup-prune_map k cutoff (e ∷ m) h =
      ground (arith, text_eq_iff k e.0, lookup-prune_map k cutoff m h.1)

  prune_map-NodupKeys :
      (cutoff : ℤ) (m : Map (List (Snapshot A))) → NodupKeys m → NodupKeys (prune_map cutoff m).0
  unfolding prune_map
  prune_map-NodupKeys cutoff [] h = h
  prune_map-NodupKeys cutoff (e ∷ m) h = elim (Bool-cases (is_stale cutoff e.1)) [
    | inl stale ↦ rw stale (prune_map-NodupKeys cutoff m h.1)
    | inr live ↦
        rw live
          (rw (lookup-prune_map e.0 cutoff m h.1) (rw h.0 refl), prune_map-NodupKeys cutoff m h.1)
  ]

  prune-IsValid : (s : Store A) (now : ℤ) → IsValid s → IsValid (prune s now).0
  unfolding prune
  prune-IsValid s now v = record {
    series = prune_map-All _ _ s.data_of v.series;
    distinct = prune_map-NodupKeys _ s.data_of v.distinct;
    positive = v.positive;
  }

  pub step-IsValid : (s : Store A) (op : Op A) → IsValid s → IsValid (step s op)
  unfolding step
  step-IsValid s (adds now x) v = add-IsValid s now x v
  step-IsValid s (prunes now) v = prune-IsValid s now v

  run-IsValid : (s : Store A) (ops : List (Op A)) → IsValid s → IsValid (run s ops)
  unfolding run
  run-IsValid s [] v = v
  run-IsValid s (op ∷ ops) v = run-IsValid (step s op) ops (step-IsValid s op v)

  -- A store made with any retention settings is valid after any sequence of `Add` and `Prune`:
  -- no series is longer than the limit, each snapshot stands under its own workload's key, no
  -- workload has two series, and the limit is positive.
  pub run-new_store-IsValid :
      (count age : ℤ) (ops : List (Op A)) → IsValid (run (with_retention count age new_store) ops)
  unfolding with_retention new_store
  run-new_store-IsValid count age ops =
      run-IsValid _ ops (record { series = tt; distinct = tt; positive = ground arith })
