-- ===== src/Collector/Scrape/Devices.antt =====
-- The maximum over the devices.
use inference_fabric_autopil.Prelude.{
  ◌≡◌, refl, ap, ◌∙◌, ◌⊎◌, Bool, true, false, ◌&&◌, ◌||◌, not, List, [], ◌∷◌, All, inl, inr, arith,
  if◌then◌else◌,
}
use inference_fabric_autopil.Float.{Float64}
use inference_fabric_autopil.Float.Laws.{Lawful}
use inference_fabric_autopil.Telemetry.Metric.{Metric, observed_if}
use inference_fabric_autopil.Runtime.Dcgm.{Device}
use inference_fabric_autopil.Collector.Scrape.{max_of}

-- Some device has the metric.
abbrev pub has_any : {A : Type 0} → (Device A → Metric A) → List (Device A) → Bool
has_any pick [] = false
has_any pick (d ∷ ds) = (pick d).ok || has_any pick ds

module _ {A : Type 0} ⦃F : Float64 A⦄ (laws : Lawful F) where
  -- The number is above no device that has the metric.
  abbrev pub Covers : (Device A → Metric A) → A → List (Device A) → Type 0
  Covers pick best ds = All (λ d. ((pick d).ok && F.lt best (pick d).value) ≡ false) ds

  lt_irrefl : (a : A) → F.lt a a ≡ false
  lt_irrefl a = ground (arith, laws.not_le_of_lt a a, laws.le_of_lt a a)

  lt_asymm : (a b : A) → F.lt a b ≡ true → F.lt b a ≡ false
  lt_asymm a b h = ground (arith, laws.not_le_of_lt a b, laws.le_of_lt b a)

  -- The number only grows, from the first that there is.
  abbrev Up : Bool → A → A → Type 0
  Up have best best' = (have ≡ false) ⊎ ((best' ≡ best) ⊎ (F.lt best best' ≡ true))

  abbrev is_taken : Metric A → A → Bool → Bool
  is_taken m best have = m.ok && (not have || F.lt best m.value)

  Up-covers :
      (m : Metric A) (best best' : A) (have : Bool)
      → Up (have || is_taken m best have) (if is_taken m best have then m.value else best) best'
      → (m.ok && F.lt best' m.value) ≡ false
  Up-covers m best best' have (inl none_yet) = ground arith
  Up-covers m best best' have (inr (inl same)) = rw same (ground (arith, lt_irrefl m.value))
  Up-covers m best best' have (inr (inr more)) =
      ground (arith, lt_asymm m.value best', laws.lt_trans best best' m.value)

  Up-step :
      (m : Metric A) (best best' : A) (have : Bool)
      → Up (have || is_taken m best have) (if is_taken m best have then m.value else best) best'
      → Up have best best'
  Up-step m best best' have (inl none_yet) = inl (ground arith)
  Up-step m best best' have (inr (inl same)) = rw same (ground arith)
  Up-step m best best' have (inr (inr more)) = ground (arith, laws.lt_trans best m.value best')

  -- The loop from the number that it has so far.
  max_of-Covers :
      (pick : Device A → Metric A) (ds : List (Device A)) (best : A) (have : Bool)
      → (best' : A) × (max_of pick ds best have ≡ observed_if best' (have || has_any pick ds))
        × Covers pick best' ds
        × Up have best best'
  unfolding max_of
  max_of-Covers pick [] best have = (best, ground arith, tt, inr (inl refl))
  max_of-Covers pick (d ∷ ds) best have =
      let m = pick d in
      let taken = is_taken m best have in
      let (best', same, covers, up) =
        max_of-Covers pick ds (if taken then m.value else best) (have || taken) in
      (
        best',
        same ∙ ap (observed_if best') (some_taken m best have (has_any pick ds)),
        (Up-covers m best best' have up, covers),
        Up-step m best best' have up,
      )
    where
      some_taken :
          (m : Metric A) (best : A) (have rest : Bool)
          → (have || is_taken m best have || rest) ≡ (have || (m.ok || rest))
      some_taken m best have rest = ground arith

  -- The GPU metric that a scrape reports is `Observed` of a number that is below no device's,
  -- where some device has the metric, and is not measured otherwise; devices without the metric
  -- count for nothing.
  pub max_of_lem :
      (pick : Device A → Metric A) (ds : List (Device A))
      → (best : A) × (max_of pick ds (F.of_nat 0) false ≡ observed_if best (has_any pick ds))
        × Covers pick best ds
  max_of_lem pick ds =
      let (best, same, covers, up) = max_of-Covers pick ds (F.of_nat 0) false in
      (best, same, covers)
