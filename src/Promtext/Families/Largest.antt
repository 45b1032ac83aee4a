-- ===== src/Promtext/Families/Largest.antt =====
-- `Sum` and `Max` on the selected samples.
use inference_fabric_autopil.Prelude.{
  ◌≡◌, refl, ◌∙◌, Bool, true, false, ◌||◌, not, List, [], ◌∷◌, arith, Bool-cases, inl, inr, ◌⊎◌,
  All, all, Elem,
}
use inference_fabric_autopil.Prelude.Texts.{Text}
use inference_fabric_autopil.Float.{Float64, FloatText}
use inference_fabric_autopil.Float.Laws.{Lawful}
use inference_fabric_autopil.Promtext.Labels.{Labels}
use inference_fabric_autopil.Promtext.Sample.{Sample}
use inference_fabric_autopil.Promtext.Families.Lines.{keep}
use inference_fabric_autopil.Promtext.Families.{
  MetricFamilies, select, sum_one, sum_samples, sum, max_one, max_samples, max,
}

module _ {A : Type 0} ⦃F : Float64 A⦄ where
  -- Whether every sample is NaN.
  abbrev pub all_nan : List (Sample A) → Bool
  all_nan ss = all (λ s. F.is_nan s.value) ss

  -- The samples that are not NaN.
  abbrev pub numbers : List (Sample A) → List (Sample A)
  numbers ss = keep (λ s. not (F.is_nan s.value)) ss

  -- The values added from the left.
  abbrev pub added : List (Sample A) → A → A
  added [] total = total
  added (s ∷ ss) total = added ss (F.add total s.value)

  sum_samples-added :
      (ss : List (Sample A)) (acc : A × Bool) → (sum_samples ss acc).0 ≡ added (numbers ss) acc.0
  unfolding sum_samples sum_one
  sum_samples-added [] acc = refl
  sum_samples-added (s ∷ ss) acc = sum_samples-added ss (sum_one s acc) ∙ ground arith

  sum_samples-found :
      (ss : List (Sample A)) (acc : A × Bool) → (sum_samples ss acc).1 ≡ (acc.1 || not (all_nan ss))
  unfolding sum_samples sum_one
  sum_samples-found [] acc = ground arith
  sum_samples-found (s ∷ ss) acc = sum_samples-found ss (sum_one s acc) ∙ ground arith

  max_samples-found :
      (ss : List (Sample A)) (acc : A × Bool) → (max_samples ss acc).1 ≡ (acc.1 || not (all_nan ss))
  unfolding max_samples max_one
  max_samples-found [] acc = ground arith
  max_samples-found (s ∷ ss) acc = max_samples-found ss (max_one s acc) ∙ ground arith

  max_one_cases :
      (s : Sample A) (acc : A × Bool)
      → ((max_one s acc).0 ≡ acc.0) ⊎ ((F.is_nan s.value ≡ false) × ((max_one s acc).0 ≡ s.value))
  unfolding max_one
  max_one_cases s acc = ground arith

  -- The result is the start or a value that is not NaN.
  max_samples-Elem :
      (ss : List (Sample A)) (acc : A × Bool)
      → ((max_samples ss acc).0 ≡ acc.0)
        ⊎ ((s : Sample A) × Elem s ss
            × (F.is_nan s.value ≡ false)
            × ((max_samples ss acc).0 ≡ s.value))
  unfolding max_samples
  max_samples-Elem [] acc = inl refl
  max_samples-Elem (s ∷ ss) acc = elim (max_samples-Elem ss (max_one s acc)) [
    | inl e ↦ elim (max_one_cases s acc) [
      | inl same ↦ inl (e ∙ same)
      | inr (n, taken) ↦ inr (s, inl refl, n, e ∙ taken)
    ]
    | inr (u, m, n, e) ↦ inr (u, inr m, n, e)
  ]

  module _ (lawful : Lawful F) where
    irreflexive : (a : A) → F.lt a a ≡ false
    irreflexive a = ground (arith, lawful.not_le_of_lt a a, lawful.le_of_lt a a)

    -- A bound of a value stays one as the best value grows.
    max_one-bound :
        (v : A) (s : Sample A) (acc : A × Bool)
        → F.lt acc.0 v ≡ false
        → F.lt (max_one s acc).0 v ≡ false
    unfolding max_one
    max_one-bound v s acc h = ground (arith, lawful.lt_trans acc.0 s.value v)

    max_one_self :
        (s : Sample A) (acc : A × Bool)
        → F.is_nan s.value ≡ false
        → F.lt (max_one s acc).0 s.value ≡ false
    unfolding max_one
    max_one_self s acc h = ground (arith, irreflexive s.value)

    max_samples-bound :
        (v : A) (ss : List (Sample A)) (acc : A × Bool)
        → F.lt acc.0 v ≡ false
        → F.lt (max_samples ss acc).0 v ≡ false
    unfolding max_samples
    max_samples-bound v [] acc h = h
    max_samples-bound v (s ∷ ss) acc h =
        max_samples-bound v ss (max_one s acc) (max_one-bound v s acc h)

    All-le :
        (best : A) (ss : List (Sample A))
        → F.is_nan best ≡ false
        → All (λ s. F.lt best s.value ≡ false) (numbers ss)
        → All (λ s. F.le s.value best ≡ true) (numbers ss)
    All-le best [] n h = tt
    All-le best (s ∷ ss) n h = elim (Bool-cases (F.is_nan s.value)) [
      | inl e ↦ rw e (All-le best ss n (rw e at h))
      | inr e ↦
          rw e (lawful.le_total best s.value n e (rw e at h).0, All-le best ss n (rw e at h).1)
    ]

    -- No value that is not NaN is greater than the result.
    max_samples-All :
        (ss : List (Sample A)) (acc : A × Bool)
        → All (λ s. F.lt (max_samples ss acc).0 s.value ≡ false) (numbers ss)
    unfolding max_samples
    max_samples-All [] acc = tt
    max_samples-All (s ∷ ss) acc = elim (Bool-cases (F.is_nan s.value)) [
      | inl e ↦ rw e (max_samples-All ss (max_one s acc))
      | inr e ↦ rw e (
        max_samples-bound s.value ss (max_one s acc) (max_one_self s acc e),
        max_samples-All ss (max_one s acc),
      )
    ]

-- `Sum` gives the values of the selected samples that are not NaN, added in their order to 0, and
-- reports a value just where one of the selected samples is not NaN.
pub sum-added :
    {A : Type 0} ⦃F : Float64 A⦄ (name : Text) (want : Labels) (mf : MetricFamilies A)
    → sum name want mf
      ≡ (added (numbers (select name want mf)) (F.of_nat 0), not (all_nan (select name want mf)))
unfolding sum
sum-added ⦃F = F⦄ name want mf = λ i. (
  sum_samples-added (select name want mf) (F.of_nat 0, false) i,
  sum_samples-found (select name want mf) (F.of_nat 0, false) i,
)

module _ {A : Type 0} ⦃F : Float64 A⦄ ⦃T : FloatText A⦄ where
  max-found_iff :
      (name : Text) (want : Labels) (mf : MetricFamilies A)
      → (max name want mf).1 ≡ not (all_nan (select name want mf))
  unfolding max
  max-found_iff name want mf =
      ground (arith, max_samples-found (select name want mf) (T.neg_inf, false))

  max-value :
      (name : Text) (want : Labels) (mf : MetricFamilies A)
      → (max name want mf).1 ≡ true
      → (max name want mf).0 ≡ (max_samples (select name want mf) (T.neg_inf, false)).0
  unfolding max
  max-value name want mf h = ground arith

  not_nan :
      (ss : List (Sample A)) (acc : A × Bool)
      → F.is_nan acc.0 ≡ false
      → F.is_nan (max_samples ss acc).0 ≡ false
  not_nan ss acc n = elim (max_samples-Elem ss acc) [ inl e ↦ rw e n | inr (s, m, k, e) ↦ rw e k ]

  -- Where `Max` reports a value, it is -Inf or the value of a selected sample that is not NaN, and no
  -- selected sample that is not NaN has a greater value.
  pub max-greatest :
      (lawful : Lawful F)
      → F.is_nan T.neg_inf ≡ false
      → (name : Text) (want : Labels) (mf : MetricFamilies A) → (max name want mf).1 ≡ true
      → All (λ s. F.le s.value (max name want mf).0 ≡ true) (numbers (select name want mf))
        × (((max name want mf).0 ≡ T.neg_inf)
            ⊎ ((s : Sample A) × Elem s (select name want mf)
                × (F.is_nan s.value ≡ false)
                × ((max name want mf).0 ≡ s.value)))
  max-greatest lawful n name want mf h =
      let ss = select name want mf in
      rw (max-value name want mf h) (
        All-le lawful (max_samples ss (T.neg_inf, false)).0 ss (not_nan ss (T.neg_inf, false) n)
            (max_samples-All lawful ss (T.neg_inf, false)),
        max_samples-Elem ss (T.neg_inf, false),
      )
