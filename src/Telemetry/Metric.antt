-- ===== src/Telemetry/Metric.antt =====
-- internal/telemetry/metric.go: a measurement that may be absent.
use inference_fabric_autopil.Prelude.{
  Bool, true, false, ◌&&◌, ◌||◌, if◌then◌else◌, Option, none, some, ◌≡◌, ◌⊎◌, arith, not, refl,
}
use inference_fabric_autopil.Prelude.Texts.{Text, codes, text_eq}
use inference_fabric_autopil.Float.{Float64}

pub record Metric (A : Type 0) : Type 0 where
  pub value : A
  pub ok : Bool

-- What encoding/json does with a float64: `none` where `Marshal` or `Unmarshal` returns an error.
pub record JsonNumber (A : Type 0) : Type 0 where
  pub encode : A → Option Text
  pub decode : Text → Option A

module _ {A : Type 0} ⦃F : Float64 A⦄ where
  -- `Metric{}`
  abbrev pub unmeasured : Metric A
  unmeasured = record { value = F.of_nat 0; ok = false }

  unfoldable pub observed : A → Metric A
  observed v = if F.is_nan v || F.is_inf v then unmeasured else record { value = v; ok = true }

  unfoldable pub observed_if : A → Bool → Metric A
  unfolding observed
  observed_if v ok = if ok then observed v else unmeasured

  -- `Metric.Or`
  unfoldable pub value_or : Metric A → A → A
  value_or m def = if m.ok then m.value else def

  unfoldable pub above : Metric A → A → Bool
  above m threshold = m.ok && F.lt threshold m.value

  unfoldable pub below : Metric A → A → Bool
  below m threshold = m.ok && F.lt m.value threshold

  -- A metric as the program makes them: unmeasured, or a number that is not NaN or infinite.
  abbrev pub IsProper : Metric A → Type 0
  IsProper m =
      (m ≡ unmeasured) ⊎ ((m.ok ≡ true) × (F.is_nan m.value ≡ false) × (F.is_inf m.value ≡ false))

  pub observed-IsProper : (v : A) → IsProper (observed v)
  unfolding observed
  observed-IsProper v = ground arith

  pub observed_if-IsProper : (v : A) (ok : Bool) → IsProper (observed_if v ok)
  unfolding observed_if
  observed_if-IsProper v ok = ground arith

module _ {A : Type 0} ⦃F : Float64 A⦄ (J : JsonNumber A) where
  unfoldable pub marshal_json : Metric A → Option Text
  marshal_json m = if not m.ok then some (codes "null") else J.encode m.value

  -- `none` is the decoding error.
  unfoldable pub unmarshal_json : Text → Option (Metric A)
  unfolding observed text_eq
  unmarshal_json b =
      if text_eq b (codes "null")
      then some unmeasured
      else elim (J.decode b) [ none ↦ none | some v ↦ some (observed v) ]

  -- An unmeasured metric is encoded as null and decoded from it.
  pub unmarshal_json-null :
      (marshal_json unmeasured ≡ some (codes "null"))
      × (unmarshal_json (codes "null") ≡ some unmeasured)
  unfolding marshal_json unmarshal_json text_eq
  unmarshal_json-null = (refl, refl)

  -- A measured metric that is encoded is decoded from its text, where encoding/json decodes that text
  -- to the number, and it is not null.
  pub unmarshal_json-marshal_json :
      (v : A) (b : Text)
      → F.is_nan v ≡ false
      → F.is_inf v ≡ false
      → marshal_json (observed v) ≡ some b
      → ((w : A) → J.encode w ≡ some b → (J.decode b ≡ some w) × (text_eq b (codes "null") ≡ false))
      → unmarshal_json b ≡ some (observed v)
  unfolding marshal_json unmarshal_json observed
  unmarshal_json-marshal_json v b n i e back =
      let r = back v (rw (n, i) at e) in rw (r.1, r.0, unmarshal_json) refl

  -- What the decoder yields is proper, whatever it reads.
  pub unmarshal_json-IsProper : (b : Text) (m : Metric A) → unmarshal_json b ≡ some m → IsProper m
  unfolding unmarshal_json
  unmarshal_json-IsProper b m h = ground arith
