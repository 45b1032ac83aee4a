-- ===== src/Telemetry/Store/Series.antt =====
-- The samples that one series keeps.
use inference_fabric_autopil.Prelude.{
  ℕ, ◌-◌, ◌≤◌, ◌<◌, max, ◌≡◌, ap, ◌∙◌, false, some, List, [], ◌∷◌, ◌++◌, ltb, length, drop,
  get_last?, All, All-drop, length-drop, length-append, drop-drop, get_last?-drop, arith,
  Bool-cases, inl, inr,
}
use inference_fabric_autopil.Prelude.Int.{ℤ, ◌≤ℤ◌}
use inference_fabric_autopil.Telemetry.Snapshot.{Snapshot}
use inference_fabric_autopil.Telemetry.Store.{before, expired, retain}

module _ {A : Type 0} where
  -- Timestamps do not fall along the series.
  abbrev pub InOrder : List (Snapshot A) → Type 0
  InOrder [] = Unit
  InOrder (x ∷ xs) = All (λ y. x.timestamp ≤ℤ y.timestamp) xs × InOrder xs

  -- The two cuts of `Add` are one cut: the longer of the prefixes that age and count ask for.
  pub retain-eq-drop :
      (limit : ℕ) (cutoff : ℤ) (series : List (Snapshot A))
      → retain limit cutoff series
        ≡ drop (max (expired cutoff series) (length series - limit)) series
  unfolding retain
  retain-eq-drop limit cutoff series =
      let n = expired cutoff series in
      let m = length (drop n series) - limit in
      elim (Bool-cases (ltb limit (length (drop n series)))) [
        | inl over ↦ rw over (
            drop-drop m n series
            ∙ ap (λ (i : ℕ). drop i series) (ground (arith, length-drop n series)))
        | inr fits ↦ rw fits (ap (λ (i : ℕ). drop i series) (ground (arith, length-drop n series)))
      ]

  pub length-retain-le :
      (limit : ℕ) (cutoff : ℤ) (series : List (Snapshot A))
      → length (retain limit cutoff series) ≤ limit
  length-retain-le limit cutoff series =
      rw (retain-eq-drop limit cutoff series) (
        omega (arith, length-drop {0} (max (expired cutoff series) (length series - limit)) series))

  pub All-retain {κ} :
      (P : Snapshot A → Type κ) (limit : ℕ) (cutoff : ℤ) (series : List (Snapshot A))
      → All P series
      → All P (retain limit cutoff series)
  All-retain P limit cutoff series h =
      rw (retain-eq-drop limit cutoff series) (All-drop P _ series h)

  expired-append-le :
      (cutoff : ℤ) (xs : List (Snapshot A)) (x : Snapshot A)
      → before x.timestamp cutoff ≡ false
      → expired cutoff (xs ++ x ∷ []) ≤ length xs
  unfolding expired
  expired-append-le cutoff [] x h = rw h (omega arith)
  expired-append-le cutoff (y ∷ xs) x h = ground (arith, expired-append-le cutoff xs x h)

  -- A sample that is not older than the cutoff survives as the last one, where any may stay.
  pub get_last?-retain :
      (limit : ℕ) (cutoff : ℤ) (xs : List (Snapshot A)) (x : Snapshot A)
      → 0 < limit
      → before x.timestamp cutoff ≡ false
      → get_last? (retain limit cutoff (xs ++ x ∷ [])) ≡ some x
  get_last?-retain limit cutoff xs x p h = rw (retain-eq-drop limit cutoff (xs ++ x ∷ [])) (
      get_last?-drop _ x xs
        (omega (arith, expired-append-le cutoff xs x h, length-append {0} xs (x ∷ []))))

  All-fresh :
      (cutoff : ℤ) (x : Snapshot A) (xs : List (Snapshot A))
      → All (λ y. x.timestamp ≤ℤ y.timestamp) xs
      → before x.timestamp cutoff ≡ false
      → All (λ y. before y.timestamp cutoff ≡ false) xs
  All-fresh cutoff x [] h p = tt
  All-fresh cutoff x (y ∷ xs) h p = (ground arith, All-fresh cutoff x xs h.1 p)

  expired-fresh :
      (cutoff : ℤ) (xs : List (Snapshot A))
      → InOrder xs
      → All (λ y. before y.timestamp cutoff ≡ false) (drop (expired cutoff xs) xs)
  unfolding expired
  expired-fresh cutoff [] h = tt
  expired-fresh cutoff (x ∷ xs) h = elim (Bool-cases (before x.timestamp cutoff)) [
    | inl old ↦ rw old (expired-fresh cutoff xs h.1)
    | inr new ↦ rw new (new, All-fresh cutoff x xs h.0 new)
  ]

  -- In a series that arrived in time order nothing older than the cutoff is kept.
  pub retain-fresh :
      (limit : ℕ) (cutoff : ℤ) (xs : List (Snapshot A))
      → InOrder xs
      → All (λ y. before y.timestamp cutoff ≡ false) (retain limit cutoff xs)
  unfolding retain
  retain-fresh limit cutoff xs h =
      let fresh = drop (expired cutoff xs) xs in
      elim (Bool-cases (ltb limit (length fresh))) [
        | inl over ↦ rw over (All-drop _ (length fresh - limit) fresh (expired-fresh cutoff xs h))
        | inr fits ↦ rw fits (expired-fresh cutoff xs h)
      ]
