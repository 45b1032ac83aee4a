-- ===== src/Collector/Rates.antt =====
-- internal/collector/rate.go: counters to rates. The mutex makes each method one step.
pub mod Sequence
use inference_fabric_autopil.Prelude.{
  ℕ, Bool, true, false, Option, none, some, List, [], ◌∷◌, if◌then◌else◌,
}
use inference_fabric_autopil.Prelude.Int.{ℤ, ◌-ℤ◌}
use inference_fabric_autopil.Prelude.Texts.{Text, has_prefix}
use inference_fabric_autopil.Prelude.Maps.{Map, lookup, insert}
use inference_fabric_autopil.Float.{Float64}
use inference_fabric_autopil.Recommender.Rules.Observability.{seconds}

pub record RateEntry (A : Type 0) : Type 0 where
  pub value : A
  pub at : ℤ

module _ {A : Type 0} ⦃F : Float64 A⦄ where
  -- The rate from one observation of a counter to the next; `none` is "not measured".
  unfoldable pub rate_between : RateEntry A → A → ℤ → Option A
  unfolding seconds
  rate_between prev current now =
      let elapsed = seconds (now -ℤ prev.at) in
      let delta = F.sub current prev.value in
      if F.le elapsed (F.of_nat 0)
      then none
      else if F.lt delta (F.of_nat 0)
      then none
      else some (F.div delta elapsed)

  -- `rate`, with the entries after it.
  unfoldable pub rate : Map (RateEntry A) → Text → A → ℤ → Map (RateEntry A) × Option A
  unfolding rate_between
  rate entries key current now = (
    insert key (record { value = current; at = now }) entries,
    elim (lookup key entries) [ none ↦ none | some prev ↦ rate_between prev current now ],
  )

module _ {A : Type 0} where
  -- `forget`
  unfoldable pub forget : Map (RateEntry A) → Text → Map (RateEntry A)
  unfolding has_prefix
  forget [] prefix = []
  forget (e ∷ entries) prefix =
      let rest = forget entries prefix in if has_prefix prefix e.0 then rest else e ∷ rest
