-- ===== src/Float.antt =====
-- float64. antt has no floats, so the type and its operations are a parameter of the model, as
-- IEEE 754 and the Go packages math and strconv document them; `Laws` names what the theorems use.
pub mod Laws
pub mod Sample
use inference_fabric_autopil.Prelude.{ℕ, Bool, Option}
use inference_fabric_autopil.Prelude.Int.{ℤ}
use inference_fabric_autopil.Prelude.Texts.{Text}

pub record Float64 (A : Type 0) : Type 0 where
  -- a < b and a <= b, false where either is NaN.
  pub lt : A → A → Bool
  pub le : A → A → Bool
  pub is_nan : A → Bool
  -- math.IsInf(a, 0)
  pub is_inf : A → Bool
  pub add : A → A → A
  pub sub : A → A → A
  pub mul : A → A → A
  pub div : A → A → A
  -- The conversion of an integer, which also writes the constants.
  pub of_nat : ℕ → A
  pub of_int : ℤ → A

-- What the packages math and strconv add where floats are read from text.
pub record FloatText (A : Type 0) : Type 0 where
  -- math.Inf(1), math.Inf(-1) and math.NaN()
  pub inf : A
  pub neg_inf : A
  pub nan : A
  -- math.IsInf(a, 1)
  pub is_pos_inf : A → Bool
  -- math.Abs
  pub abs : A → A
  -- strconv.ParseFloat(s, 64), `none` where it returns an error.
  pub parse_float : Text → Option A
