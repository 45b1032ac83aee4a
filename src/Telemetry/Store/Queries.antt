-- ===== src/Telemetry/Store/Queries.antt =====
-- What the store's readers find after `Add` and `Prune`.
use inference_fabric_autopil.Prelude.{
  ℕ, ◌-◌, ltb, ◌≡◌, refl, sym, false, none, some, List, [], ◌∷◌, ◌++◌, Elem, length, drop,
  if◌then◌else◌, arith, Bool-cases, Option-cases, All-elem, get_last?-Elem, ◌⊎◌, ◌↔◌, inl, inr,
  get_last?,
}
use inference_fabric_autopil.Prelude.Int.{ℤ, ltb_ℤ, ◌-ℤ◌}
use inference_fabric_autopil.Prelude.Texts.{Text, text_eq, text_eq_refl, text_eq_iff}
use inference_fabric_autopil.Prelude.Maps.{Map, lookup, lookup-insert, NodupKeys, All-lookup}
use inference_fabric_autopil.Prelude.Sort.{
  IsSorted, sort_by-IsSorted, text_lt-IsWeakOrder, Elem-sort_by,
}
use inference_fabric_autopil.Telemetry.Snapshot.{Snapshot, key}
use inference_fabric_autopil.Telemetry.Store.{
  Store, before, retain, expired, add, history, prune, is_stale, newest, latest, by_key,
}
use inference_fabric_autopil.Telemetry.Store.Series.{get_last?-retain}
use inference_fabric_autopil.Telemetry.Store.Retention.{IsValid, IsSeries, lookup-prune_map}

module _ {A : Type 0} where
  history-add_self :
      (s : Store A) (now : ℤ) (x : Snapshot A)
      → history (add s now x).0 (key x)
        ≡ retain s.max_per_workload (now -ℤ s.max_age) (history s (key x) ++ x ∷ [])
  unfolding history add
  history-add_self s now x =
      rw (lookup-insert (key x) (key x) _ s.data_of) (rw (text_eq_refl (key x)) refl)

  history-add_ne :
      (s : Store A) (now : ℤ) (x : Snapshot A) (k : Text)
      → text_eq k (key x) ≡ false
      → history (add s now x).0 k ≡ history s k
  unfolding history add
  history-add_ne s now x k h = rw (lookup-insert (key x) k _ s.data_of) (rw h refl)

  -- The newest samples of a series, as many as a limit allows.
  abbrev pub last_of_series : ℕ → List (Snapshot A) → List (Snapshot A)
  last_of_series limit series = drop (length series - limit) series

  -- A series without the samples before its first that is not older than the retention age.
  abbrev pub from_fresh : ℤ → List (Snapshot A) → List (Snapshot A)
  from_fresh cutoff [] = []
  from_fresh cutoff (x ∷ xs) =
      let rest = from_fresh cutoff xs in if ltb_ℤ x.timestamp cutoff then rest else x ∷ xs

  -- What the two bounds of a store leave of a series.
  abbrev pub kept : Store A → ℤ → List (Snapshot A) → List (Snapshot A)
  kept s now series = last_of_series s.max_per_workload (from_fresh (now -ℤ s.max_age) series)

  drop-expired :
      (cutoff : ℤ) (series : List (Snapshot A))
      → drop (expired cutoff series) series ≡ from_fresh cutoff series
  unfolding expired
  drop-expired cutoff [] = refl
  drop-expired cutoff (x ∷ xs) = elim (Bool-cases (ltb_ℤ x.timestamp cutoff)) [
    | inl old ↦ rw old (drop-expired cutoff xs)
    | inr fresh ↦ rw fresh refl
  ]

  retain-from_fresh :
      (limit : ℕ) (cutoff : ℤ) (series : List (Snapshot A))
      → retain limit cutoff series ≡ last_of_series limit (from_fresh cutoff series)
  unfolding retain
  retain-from_fresh limit cutoff series =
      rw (sym (drop-expired cutoff series)) (cut (drop (expired cutoff series) series))
    where
      cut :
          (fresh : List (Snapshot A))
          → (if ltb limit (length fresh) then drop (length fresh - limit) fresh else fresh)
            ≡ drop (length fresh - limit) fresh
      cut fresh = elim (Bool-cases (ltb limit (length fresh))) [
        | inl over ↦ rw over refl
        | inr fits ↦ let e : length fresh - limit ≡ 0 = ground arith in rw (fits, e) refl
      ]

  -- `Add` puts the snapshot at the end of its workload's history and then makes two cuts: the samples
  -- before the first that is not older than the retention age go, and of the rest only the newest
  -- stay, as many as the limit allows. Every other workload's history stays as it was.
  pub history-add :
      (s : Store A) (now : ℤ) (x : Snapshot A) (k : Text)
      → history (add s now x).0 k
        ≡ (if text_eq k (key x) then kept s now (history s k ++ x ∷ []) else history s k)
  history-add s now x k = elim (Bool-cases (text_eq k (key x))) [
    | inl own ↦ rw own (
        rw ((text_eq_iff k (key x)).0 own)
          (rw (history-add_self s now x) (retain-from_fresh s.max_per_workload _ _)))
    | inr other ↦ rw other (history-add_ne s now x k other)
  ]

  -- A snapshot within the retention age ends its workload's history.
  pub get_last?-add :
      (s : Store A) (now : ℤ) (x : Snapshot A)
      → IsValid s
      → before x.timestamp (now -ℤ s.max_age) ≡ false
      → get_last? (history (add s now x).0 (key x)) ≡ some x
  get_last?-add s now x v h =
      rw (history-add_self s now x)
        (get_last?-retain s.max_per_workload _ (history s (key x)) x v.positive h)

  -- After `Prune` a workload keeps its whole history, or none of it where its newest sample is
  -- older than the retention age.
  pub history-prune :
      (s : Store A) (now : ℤ) (k : Text)
      → IsValid s
      → history (prune s now).0 k
        ≡ (if is_stale (now -ℤ s.max_age) (history s k) then [] else history s k)
  unfolding history prune is_stale
  history-prune s now k v =
      ground (arith, lookup-prune_map k (now -ℤ s.max_age) s.data_of v.distinct)

  newest_complete :
      (m : Map (List (Snapshot A))) (k : Text) {xs : List (Snapshot A)} {x : Snapshot A}
      → lookup k m ≡ some xs
      → get_last? xs ≡ some x
      → Elem x (newest m)
  unfolding newest lookup
  newest_complete [] k e l = cc
  newest_complete ((j, ys) ∷ m) k {xs} {x} e l = elim (Bool-cases (text_eq k j)) [
    | inl hit ↦ let last : get_last? ys ≡ some x = ground arith in rw (last, newest) (inl refl)
    | inr miss ↦ elim (Option-cases (get_last? ys)) [
      | inl empty ↦ rw (empty, newest) (newest_complete m k (rw miss at e) l)
      | inr (y, full) ↦ rw (full, newest) (inr (newest_complete m k (rw miss at e) l))
    ]
  ]

  -- The series of a map that has a newest sample `x`.
  abbrev NewestIn : Snapshot A → Map (List (Snapshot A)) → Type 0
  NewestIn x m =
      (k : Text) × (xs : List (Snapshot A)) × (lookup k m ≡ some xs) × (get_last? xs ≡ some x)

  NewestIn-cons :
      (x : Snapshot A) (j : Text) (ys : List (Snapshot A)) (m : Map (List (Snapshot A)))
      → lookup j m ≡ none
      → NewestIn x m
      → NewestIn x ((j, ys) ∷ m)
  unfolding lookup
  NewestIn-cons x j ys m d (k, xs, e, l) = (k, xs, ground (arith, text_eq_iff k j), l)

  newest_sound :
      (m : Map (List (Snapshot A))) (x : Snapshot A)
      → NodupKeys m
      → Elem x (newest m)
      → NewestIn x m
  unfolding newest lookup
  newest_sound [] x d h = absurd h
  newest_sound ((j, ys) ∷ m) x d h = elim (Option-cases (get_last? ys)) [
    | inl empty ↦ NewestIn-cons x j ys m d.0 (newest_sound m x d.1 (rw (empty, newest) at h))
    | inr (y, full) ↦ pick y full (rw (full, newest) at h) (newest_sound m x d.1)
  ]
    where
      pick :
          (y : Snapshot A)
          → get_last? ys ≡ some y
          → (x ≡ y) ⊎ Elem x (newest m)
          → (Elem x (newest m) → NewestIn x m)
          → NewestIn x ((j, ys) ∷ m)
      pick y full (inl e) ih = (j, ys, rw (text_eq_refl j) refl, ground arith)
      pick y full (inr m') ih = NewestIn-cons x j ys m d.0 (ih m')

  latest_sound :
      (s : Store A) (x : Snapshot A)
      → IsValid s
      → Elem x (latest s)
      → get_last? (history s (key x)) ≡ some x
  unfolding latest history
  latest_sound s x v m =
      let (k, xs, e, l) =
        newest_sound s.data_of x v.distinct ((Elem-sort_by by_key x (newest s.data_of)).0 m) in
      let series = All-lookup (IsSeries s.max_per_workload) k s.data_of v.series e in
      let own : key x ≡ k = All-elem (λ y. key y ≡ k) xs series.1 (get_last?-Elem xs l) in
      rw own (rw e l)

  latest_complete :
      (s : Store A) (x : Snapshot A) (k : Text)
      → get_last? (history s k) ≡ some x
      → Elem x (latest s)
  unfolding latest history
  latest_complete s x k l = elim (Option-cases (lookup k s.data_of)) [
    | inl absent ↦ absurd (cc)
    | inr (xs, e) ↦
        (Elem-sort_by by_key x (newest s.data_of)).1 (newest_complete s.data_of k e (rw e at l))
  ]

  latest-IsSorted : (s : Store A) → IsSorted by_key (latest s)
  unfolding latest
  latest-IsSorted s = sort_by-IsSorted by_key (text_lt-IsWeakOrder key) (newest s.data_of)

  -- `Latest` holds exactly the newest snapshot of each workload that has any, and no snapshot
  -- stands before one with a smaller key.
  pub latest_lem :
      (s : Store A) (x : Snapshot A)
      → IsValid s
      → IsSorted by_key (latest s) × (Elem x (latest s) ↔ (get_last? (history s (key x)) ≡ some x))
  latest_lem s x v = (latest-IsSorted s, (latest_sound s x v, latest_complete s x (key x)))
