-- ===== src/Promtext/Quantile/Clamped.antt =====
-- The buckets that a quantile reads: their counts do not decrease.
use inference_fabric_autopil.Prelude.{◌≡◌, refl, false, List, [], ◌∷◌, ◌++◌, arith}
use inference_fabric_autopil.Prelude.Texts.{Text, codes}
use inference_fabric_autopil.Float.{Float64, FloatText}
use inference_fabric_autopil.Float.Laws.{Lawful}
use inference_fabric_autopil.Promtext.Labels.{Labels}
use inference_fabric_autopil.Promtext.Families.{MetricFamilies, select}
use inference_fabric_autopil.Promtext.Quantile.{
  Bucket, raised, clamp_after, clamp, sort_buckets, count_samples, buckets,
}

module _ {A : Type 0} ⦃F : Float64 A⦄ where
  -- No count is less than the one before it, from a first count on.
  abbrev IsGrowing : A → List (Bucket A) → Type 0
  IsGrowing previous [] = Unit
  IsGrowing previous (b ∷ bs) = (F.lt b.count previous ≡ false) × IsGrowing b.count bs

  -- No count of the list is less than the one before it.
  abbrev pub IsNondecreasing : List (Bucket A) → Type 0
  IsNondecreasing [] = Unit
  IsNondecreasing (b ∷ bs) = IsGrowing b.count bs

  module _ (lawful : Lawful F) where
    raised-growing : (previous : A) (b : Bucket A) → F.lt (raised previous b).count previous ≡ false
    raised-growing previous b =
        ground (arith, lawful.not_le_of_lt previous previous, lawful.le_of_lt previous previous)

    clamp_after-IsGrowing :
        (previous : A) (bs : List (Bucket A)) → IsGrowing previous (clamp_after previous bs)
    unfolding clamp_after
    clamp_after-IsGrowing previous [] = tt
    clamp_after-IsGrowing previous (b ∷ bs) =
        (raised-growing previous b, clamp_after-IsGrowing (raised previous b).count bs)

    clamp-IsNondecreasing : (bs : List (Bucket A)) → IsNondecreasing (clamp bs)
    unfolding clamp
    clamp-IsNondecreasing [] = tt
    clamp-IsNondecreasing (b ∷ bs) = clamp_after-IsGrowing b.count bs

  -- Counts that do not decrease are left as they are.
  clamp_after_fixed :
      (previous : A) (bs : List (Bucket A)) → IsGrowing previous bs → clamp_after previous bs ≡ bs
  unfolding clamp_after
  clamp_after_fixed previous [] h = refl
  clamp_after_fixed previous (b ∷ bs) h = rw h.0 (λ i. b ∷ clamp_after_fixed b.count bs h.1 i)

  clamp_fixed : (bs : List (Bucket A)) → IsNondecreasing bs → clamp bs ≡ bs
  unfolding clamp
  clamp_fixed [] h = refl
  clamp_fixed (b ∷ bs) h = λ i. b ∷ clamp_after_fixed b.count bs h i

module _ {A : Type 0} ⦃F : Float64 A⦄ ⦃T : FloatText A⦄ where
  -- The buckets before the clamp.
  abbrev pub summed : Text → Labels → MetricFamilies A → List (Bucket A)
  summed family want mf =
      sort_buckets (count_samples (select (family ++ codes "_bucket") want mf) [])

  -- In the buckets of a family no count is less than the one before it, whatever the payload.
  pub buckets-IsNondecreasing :
      (lawful : Lawful F) (family : Text) (want : Labels) (mf : MetricFamilies A)
      → IsNondecreasing (buckets family want mf)
  unfolding buckets
  buckets-IsNondecreasing lawful family want mf =
      clamp-IsNondecreasing lawful (summed family want mf)

  -- Where the summed counts do not decrease along the boundaries, the clamp changes nothing: the
  -- buckets of a family are the summed counts by boundary.
  pub buckets_unchanged :
      (family : Text) (want : Labels) (mf : MetricFamilies A)
      → IsNondecreasing (summed family want mf)
      → buckets family want mf ≡ summed family want mf
  unfolding buckets
  buckets_unchanged family want mf h = clamp_fixed (summed family want mf) h
