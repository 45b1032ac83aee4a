-- ===== src/Collector/Rates/Sequence.antt =====
-- Rates over a sequence of observations.
use inference_fabric_autopil.Prelude.{
  ◌≡◌, refl, sym, ◌||◌, Option, none, some, List, [], ◌∷◌, arith, if◌then◌else◌,
}
use inference_fabric_autopil.Prelude.Int.{ℤ, ◌-ℤ◌}
use inference_fabric_autopil.Prelude.Texts.{Text, text_eq, text_eq_iff, has_prefix}
use inference_fabric_autopil.Prelude.Maps.{Map, lookup, lookup-insert}
use inference_fabric_autopil.Float.{Float64}
use inference_fabric_autopil.Recommender.Rules.Observability.{seconds}
use inference_fabric_autopil.Collector.Rates.{RateEntry, rate, rate_between, forget}

-- One call of `rate`: the counter, its value and the time.
pub record Observation (A : Type 0) : Type 0 where
  pub key : Text
  pub value : A
  pub at : ℤ

module _ {A : Type 0} where
  -- The last observation of a counter, where the sequence is listed from the latest call on.
  unfoldable pub last_seen : Text → List (Observation A) → Option (RateEntry A)
  last_seen key [] = none
  last_seen key (o ∷ os) =
      if text_eq key o.key then some (record { value = o.value; at = o.at }) else last_seen key os

module _ {A : Type 0} ⦃F : Float64 A⦄ where
  -- The entries after the calls.
  unfoldable pub after : List (Observation A) → Map (RateEntry A)
  unfolding rate
  after [] = []
  after (o ∷ os) = (rate (after os) o.key o.value o.at).0

  lookup-after : (key : Text) (os : List (Observation A)) → lookup key (after os) ≡ last_seen key os
  unfolding after rate last_seen lookup
  lookup-after key [] = refl
  lookup-after key (o ∷ os) = ground (
    arith,
    lookup-insert o.key key (record { value = o.value; at = o.at }) (after os),
    lookup-after key os,
  )

  since :
      (o : Option (RateEntry A)) (current : A) (now : ℤ)
      → elim o [ none ↦ none | some prev ↦ rate_between prev current now ] ≡ elim o [
        | none ↦ none
        | some prev ↦
            let elapsed = seconds (now -ℤ prev.at) in
            let change = F.sub current prev.value in
            if F.le elapsed (F.of_nat 0) || F.lt change (F.of_nat 0)
            then none
            else some (F.div change elapsed)
      ]
  unfolding rate_between
  since none current now = refl
  since (some prev) current now = ground arith

  -- After any calls of `rate`, for this and for other counters, a call yields the change since the
  -- last observation of the same counter over the seconds since then. It yields nothing if there was
  -- no observation, if no time has passed since, or if the value has fallen: a counter reset or a
  -- clock that stood still spoils one interval only, and counters do not disturb each other.
  pub rate-after :
      (os : List (Observation A)) (key : Text) (current : A) (now : ℤ)
      → (rate (after os) key current now).1 ≡ elim (last_seen key os) [
        | none ↦ none
        | some prev ↦
            let elapsed = seconds (now -ℤ prev.at) in
            let change = F.sub current prev.value in
            if F.le elapsed (F.of_nat 0) || F.lt change (F.of_nat 0)
            then none
            else some (F.div change elapsed)
      ]
  unfolding rate
  rate-after os key current now =
      rw (sym (lookup-after key os)) (since (lookup key (after os)) current now)

module _ {A : Type 0} where
  -- `forget` drops exactly the counters that begin with the prefix.
  pub lookup-forget :
      (entries : Map (RateEntry A)) (prefix key : Text)
      → lookup key (forget entries prefix)
        ≡ (if has_prefix prefix key then none else lookup key entries)
  unfolding forget lookup
  lookup-forget [] prefix key = ground arith
  lookup-forget (e ∷ entries) prefix key =
      ground (arith, text_eq_iff key e.0, lookup-forget entries prefix key)
