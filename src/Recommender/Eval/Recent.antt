-- ===== src/Recommender/Eval/Recent.antt =====
-- The tail of the history that a duration selects, and conditions that hold throughout it.
use inference_fabric_autopil.Prelude.{
  ℕ, zero, suc, ◌-◌, ◌≤◌, ◌<◌, ◌≡◌, refl, sym, ap, ◌∙◌, inl, inr, Bool, true, false, ◌&&◌, not,
  List, [], ◌∷◌, ltb, length, drop, all, All, Bool-cases, arith,
}
use inference_fabric_autopil.Prelude.Int.{ℤ, pos, ◌≤ℤ◌, ◌-ℤ◌, ltb_ℤ, leb_ℤ, -ℤ_parts, int_laws}
use inference_fabric_autopil.Telemetry.Snapshot.{Snapshot}
use inference_fabric_autopil.Telemetry.Store.{before, expired}
use inference_fabric_autopil.Telemetry.Store.Series.{InOrder}
use inference_fabric_autopil.Recommender.Eval.{
  Eval, sort_search, not_before, last_of, span, recent, sustained,
}
use inference_fabric_autopil.Recommender.Eval.Search.{search_from-ends}

module _ {A : Type 0} where
  expired-le : (cutoff : ℤ) (w : List (Snapshot A)) → expired cutoff w ≤ length w
  unfolding expired
  expired-le cutoff [] = omega arith
  expired-le cutoff (x ∷ xs) = ground (arith, expired-le cutoff xs)

  not_before_below :
      (w : List (Snapshot A)) (cutoff : ℤ) (k : ℕ)
      → k < expired cutoff w
      → not_before w cutoff k ≡ false
  unfolding expired not_before
  not_before_below [] cutoff k h = absurd (omega arith)
  not_before_below (x ∷ xs) cutoff zero h = ground arith
  not_before_below (x ∷ xs) cutoff (suc k) h = ground (arith, not_before_below xs cutoff k)

  not_before_later :
      (x : Snapshot A) (w : List (Snapshot A)) (cutoff : ℤ) (k : ℕ)
      → All (λ y. x.timestamp ≤ℤ y.timestamp) w
      → before x.timestamp cutoff ≡ false
      → not_before w cutoff k ≡ true
  unfolding not_before
  not_before_later x [] cutoff k h b = refl
  not_before_later x (y ∷ ys) cutoff zero h b = ground arith
  not_before_later x (y ∷ ys) cutoff (suc k) h b = not_before_later x ys cutoff k h.1 b

  not_before_above :
      (w : List (Snapshot A)) (cutoff : ℤ) (k : ℕ)
      → InOrder w
      → expired cutoff w ≤ k
      → not_before w cutoff k ≡ true
  unfolding expired not_before
  not_before_above [] cutoff k o h = refl
  not_before_above (x ∷ xs) cutoff zero o h = ground arith
  not_before_above (x ∷ xs) cutoff (suc k) o h =
      ground (arith, not_before_above xs cutoff k o.1, not_before_later x xs cutoff k o.0)

  -- On a history in time order the binary search counts the samples before the cutoff.
  sort_search-expired :
      (w : List (Snapshot A)) (cutoff : ℤ)
      → InOrder w
      → sort_search (length w) (not_before w cutoff) ≡ expired cutoff w
  unfolding sort_search
  sort_search-expired w cutoff o =
      let n = length w in
      let r = sort_search n (not_before w cutoff) in
      ground (
        arith,
        search_from-ends n (not_before w cutoff) 0 n,
        not_before_below w cutoff r,
        not_before_above w cutoff (r - 1) o,
        expired-le cutoff w,
      )

  -- The cutoff that a duration sets, from the newest sample.
  abbrev pub cutoff_of : Snapshot A → List (Snapshot A) → ℤ → ℤ
  cutoff_of x xs d = (last_of x xs).timestamp -ℤ d

  -- The tail that `recent` selects begins at the last sample before the cutoff.
  pub recent_lem :
      (x : Snapshot A) (xs : List (Snapshot A)) (d : ℤ)
      → leb_ℤ d (pos 0) ≡ false
      → InOrder (x ∷ xs)
      → recent (x ∷ xs) d ≡ drop (expired (cutoff_of x xs d) (x ∷ xs) - 1) (x ∷ xs)
  unfolding recent
  recent_lem x xs d p o = rw p (
      rw (sort_search-expired (x ∷ xs) (cutoff_of x xs d) o)
        (ap (λ (i : ℕ). drop i (x ∷ xs)) (ground arith)))

  pub span-cons :
      (x : Snapshot A) (xs : List (Snapshot A))
      → span (x ∷ xs) ≡ (last_of x xs).timestamp -ℤ x.timestamp
  unfolding span
  span-cons x [] = omega int_laws
  span-cons x (y ∷ ys) = refl

  -- A sample before the cutoff, with the rest of the history behind it.
  abbrev StartsBefore : ℤ → Snapshot A → List (Snapshot A) → Type 0
  StartsBefore cutoff last w =
      (y : Snapshot A) × (ys : List (Snapshot A)) × (w ≡ y ∷ ys)
      × (last_of y ys ≡ last)
      × (before y.timestamp cutoff ≡ true)

  drop-StartsBefore :
      (n : ℕ) (cutoff : ℤ) (x : Snapshot A) (xs : List (Snapshot A))
      → n < expired cutoff (x ∷ xs)
      → StartsBefore cutoff (last_of x xs) (drop n (x ∷ xs))
  unfolding expired
  drop-StartsBefore zero cutoff x xs h = (x, xs, refl, refl, ground arith)
  drop-StartsBefore (suc n) cutoff x [] h = absurd (ground arith)
  drop-StartsBefore (suc n) cutoff x (y ∷ ys) h = drop-StartsBefore n cutoff y ys (ground arith)

  StartsBefore-span :
      (d : ℤ) (last : Snapshot A) (w : List (Snapshot A))
      → StartsBefore (last.timestamp -ℤ d) last w
      → ltb_ℤ (span w) d ≡ false
  StartsBefore-span d last w (y, ys, e, l, b) =
      rw (e, span-cons y ys, l)
        (ground (arith, -ℤ_parts last.timestamp d, -ℤ_parts last.timestamp y.timestamp))

  -- Taking the tail does not decide whether the history covers the duration.
  pub span-recent :
      (w : List (Snapshot A)) (d : ℤ)
      → leb_ℤ d (pos 0) ≡ false
      → InOrder w
      → ltb_ℤ (span (recent w d)) d ≡ ltb_ℤ (span w) d
  span-recent [] d p o = unfold recent in refl
  span-recent (x ∷ xs) d p o =
      let n = expired (cutoff_of x xs d) (x ∷ xs) in
      rw (recent_lem x xs d p o) (elim (Bool-cases (ltb 0 n)) [
        | inl some_old ↦
            StartsBefore-span d (last_of x xs) _ (drop-StartsBefore (n - 1) _ x xs (ground arith))
            ∙ sym (StartsBefore-span d (last_of x xs) _ (drop-StartsBefore 0 _ x xs (ground arith)))
        | inr none_old ↦ let e : n - 1 ≡ 0 = ground arith in rw e refl
      ])

  -- The history from the last sample before the cutoff on.
  abbrev pub tail_from : List (Snapshot A) → ℤ → List (Snapshot A)
  tail_from [] d = []
  tail_from (x ∷ xs) d = drop (expired (cutoff_of x xs d) (x ∷ xs) - 1) (x ∷ xs)

  recent-tail_from :
      (w : List (Snapshot A)) (d : ℤ)
      → leb_ℤ d (pos 0) ≡ false
      → InOrder w
      → recent w d ≡ tail_from w d
  recent-tail_from [] d p o = unfold recent in refl
  recent-tail_from (x ∷ xs) d p o = recent_lem x xs d p o

  -- On a history in time order and for a positive sustain window, a condition is sustained exactly
  -- when the history covers the window and the condition holds of the last sample before the
  -- window and of every sample in it.
  pub sustained_lem :
      (e : Eval A) (pred : Snapshot A → Bool)
      → leb_ℤ e.t.sustain_for (pos 0) ≡ false
      → InOrder e.window
      → sustained e pred ≡ (
          not (ltb_ℤ (span e.window) e.t.sustain_for)
          && all pred (tail_from e.window e.t.sustain_for))
  unfolding sustained
  sustained_lem e pred p o = rw p (
      rw (span-recent e.window e.t.sustain_for p o)
        (rw (recent-tail_from e.window e.t.sustain_for p o) (ground arith)))
