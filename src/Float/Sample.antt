-- ===== src/Float/Sample.antt =====
-- A small type of floats on which the model runs: the natural numbers, one infinity and NaN.
use inference_fabric_autopil.Prelude.{
  ℕ, ◌+◌, ◌-◌, ◌*◌, ◌/◌, Bool, true, false, ◌&&◌, Option, none, some, [], ◌∷◌, if◌then◌else◌, ltb,
  leb, arith,
}
use inference_fabric_autopil.Prelude.Int.{pos_part}
use inference_fabric_autopil.Prelude.Texts.{Text}
use inference_fabric_autopil.Float.{Float64, FloatText}
use inference_fabric_autopil.Float.Laws.{Lawful}

pub data Num : Type 0 where
  num : ℕ → Num
  infinity : Num
  nan : Num

abbrev pub num_lt : Num → Num → Bool
num_lt (num a) (num b) = ltb a b
num_lt (num a) infinity = true
num_lt _ _ = false

abbrev pub num_le : Num → Num → Bool
num_le (num a) (num b) = leb a b
num_le (num a) infinity = true
num_le infinity infinity = true
num_le _ _ = false

abbrev is_nan : Num → Bool
is_nan nan = true
is_nan _ = false

abbrev is_inf : Num → Bool
is_inf infinity = true
is_inf _ = false

-- An operation on numbers; anything else is NaN.
abbrev lift : (ℕ → ℕ → ℕ) → Num → Num → Num
lift f (num a) (num b) = num (f a b)
lift f _ _ = nan

instance abbrev pub sample : Float64 Num
sample = record {
  lt = num_lt;
  le = num_le;
  is_nan = is_nan;
  is_inf = is_inf;
  add = lift ◌+◌;
  sub = lift ◌-◌;
  mul = lift ◌*◌;
  div = lift ◌/◌;
  of_nat = num;
  of_int = λ n. num (pos_part n);
}

pub sample-Lawful : Lawful sample
sample-Lawful = record {
  not_le_of_lt = λ a b h. ground arith;
  le_of_lt = λ a b h. ground arith;
  lt_trans = λ a b c h k. ground arith;
  le_total = λ a b p q h. ground arith;
}

-- A digit's value.
abbrev digit : ℕ → Option ℕ
digit c = if leb 48 c && leb c 57 then some (c - 48) else none

-- A text of digits after a number.
abbrev digits : ℕ → Text → Option Num
digits n [] = some (num n)
digits n (c ∷ s) = elim (digit c) [ none ↦ none | some d ↦ digits (n * 10 + d) s ]

abbrev read_digits : Text → Option Num
read_digits [] = none
read_digits (c ∷ s) = digits 0 (c ∷ s)

-- Decimal natural numbers; the least number stands for -Inf.
instance abbrev pub sample_text : FloatText Num
sample_text = record {
  inf = infinity;
  neg_inf = num 0;
  nan = nan;
  is_pos_inf = is_inf;
  abs = λ a. a;
  parse_float = read_digits;
}
