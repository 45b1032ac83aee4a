-- ===== src/Float/Laws.antt =====
-- What IEEE 754 says of float64, as far as the theorems rest on it.
use inference_fabric_autopil.Prelude.{true, false, ◌≡◌}
use inference_fabric_autopil.Float.{Float64}

pub record Lawful {A : Type 0} (F : Float64 A) : Type 0 where
  -- The contrary of a comparison that holds does not hold, NaN or not.
  pub not_le_of_lt : (a b : A) → F.lt a b ≡ true → F.le b a ≡ false
  pub le_of_lt : (a b : A) → F.lt a b ≡ true → F.le a b ≡ true
  pub lt_trans : (a b c : A) → F.lt a b ≡ true → F.lt b c ≡ true → F.lt a c ≡ true
  -- Of two numbers that are not NaN, one comparison or its contrary holds.
  pub le_total :
      (a b : A) → F.is_nan a ≡ false → F.is_nan b ≡ false → F.lt a b ≡ false → F.le b a ≡ true
