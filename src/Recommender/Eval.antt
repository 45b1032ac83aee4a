-- ===== src/Recommender/Eval.antt =====
-- internal/recommender/recommender.go, the context of a rule: the tail of the history that a rule
-- looks at, conditions that persist, and trends. Durations do not wrap at 64 bits.
pub mod Search
pub mod Recent
pub mod Current
use inference_fabric_autopil.Prelude.{
  ℕ, zero, suc, ◌+◌, ◌-◌, ◌/◌, Bool, true, false, ◌&&◌, not, Option, none, some, List, [], ◌∷◌, ltb,
  ◌==◌, length, get_elem?, take, drop, all, if◌then◌else◌,
}
use inference_fabric_autopil.Prelude.Int.{ℤ, pos, ◌-ℤ◌, ◌*ℤ◌, to_int64, ltb_ℤ, leb_ℤ}
use inference_fabric_autopil.Float.{Float64}
use inference_fabric_autopil.Telemetry.Metric.{Metric}
use inference_fabric_autopil.Telemetry.Snapshot.{Snapshot}
use inference_fabric_autopil.Telemetry.Store.{before}
use inference_fabric_autopil.Recommender.Thresholds.{Thresholds}

-- `sort.Search` of the standard library on [i, j): the fuel bounds the rounds.
unfoldable pub search_from : ℕ → (ℕ → Bool) → ℕ → ℕ → ℕ
search_from zero f i j = i
search_from (suc fuel) f i j =
    let h = (i + j) / 2 in
    let low = search_from fuel f i h in
    let high = search_from fuel f (h + 1) j in if ltb i j then if f h then low else high else i

unfoldable pub sort_search : ℕ → (ℕ → Bool) → ℕ
unfolding search_from
sort_search n f = search_from n f 0 n

abbrev pub trend_window : ℤ
trend_window = pos 3

-- `Eval`
pub record Eval (A : Type 0) : Type 0 where
  pub latest : Snapshot A
  pub window : List (Snapshot A)
  pub t : Thresholds A
  pub now : ℤ

module _ {A : Type 0} where
  -- The last element of `x ∷ xs`.
  abbrev pub last_of : Snapshot A → List (Snapshot A) → Snapshot A
  last_of x [] = x
  last_of x (y ∷ ys) = last_of y ys

  unfoldable pub span : List (Snapshot A) → ℤ
  span [] = pos 0
  span (x ∷ []) = pos 0
  span (x ∷ y ∷ ys) = (last_of y ys).timestamp -ℤ x.timestamp

  -- Whether the sample at an index is not before the cutoff; `sort.Search` stays in range.
  unfoldable pub not_before : List (Snapshot A) → ℤ → ℕ → Bool
  not_before w cutoff i = elim (get_elem? w i) [
    | none ↦ true
    | some s ↦ not (before s.timestamp cutoff)
  ]

  unfoldable pub recent : List (Snapshot A) → ℤ → List (Snapshot A)
  unfolding sort_search not_before
  recent [] d = []
  recent (x ∷ xs) d =
      if leb_ℤ d (pos 0)
      then x ∷ xs
      else let cutoff = (last_of x xs).timestamp -ℤ d in
        let start = sort_search (length (x ∷ xs)) (not_before (x ∷ xs) cutoff) in
        drop (if ltb 0 start then start - 1 else start) (x ∷ xs)

  -- `Span`
  unfoldable pub eval_span : Eval A → ℤ
  unfolding span recent
  eval_span e = span (recent e.window e.t.sustain_for)

  unfoldable pub sustained : Eval A → (Snapshot A → Bool) → Bool
  unfolding span recent
  sustained e pred =
      if leb_ℤ e.t.sustain_for (pos 0)
      then ltb 0 (length e.window) && pred e.latest
      else if ltb_ℤ (span (recent e.window e.t.sustain_for)) e.t.sustain_for
      then false
      else all pred (recent e.window e.t.sustain_for)

module _ {A : Type 0} ⦃F : Float64 A⦄ where
  -- The loop of `mean`: the sum and the number of the measured values.
  unfoldable pub mean_loop : List (Snapshot A) → (Snapshot A → Metric A) → A → ℕ → A × ℕ
  mean_loop [] pick sum n = (sum, n)
  mean_loop (s ∷ ss) pick sum n =
      let m = pick s in
      mean_loop ss pick (if m.ok then F.add sum m.value else sum) (if m.ok then n + 1 else n)

  unfoldable pub mean : List (Snapshot A) → (Snapshot A → Metric A) → Option A
  unfolding mean_loop
  mean snaps pick =
      let (sum, n) = mean_loop snaps pick (F.of_nat 0) 0 in
      if n == length snaps && not (n == 0) then some (F.div sum (F.of_nat n)) else none

  unfoldable pub trend : Eval A → (Snapshot A → Metric A) → Option A
  unfolding recent mean
  trend e pick =
      let window = recent e.window (to_int64 (e.t.sustain_for *ℤ trend_window)) in
      let third = length window / 3 in
      if ltb (length window) 6 then none else elim (mean (take third window) pick) [
        | none ↦ none
        | some early ↦ elim (mean (drop (length window - third) window) pick) [
          | none ↦ none
          | some late ↦ some (F.sub late early)
        ]
      ]
