-- ===== src/Recommender/Eval/Search.antt =====
-- `sort.Search` finds the first index at which a monotone test holds.
use inference_fabric_autopil.Prelude.{
  ℕ, zero, suc, ◌+◌, ◌-◌, ◌/◌, ◌≤◌, ◌≡◌, ◌⊎◌, Bool, true, false, arith,
}
use inference_fabric_autopil.Recommender.Eval.{search_from}

-- What the loop leaves at its ends, from any test.
pub search_from-ends :
    (fuel : ℕ) (f : ℕ → Bool) (i j : ℕ)
    → j ≤ i + fuel
    → i ≤ j
    → let r = search_from fuel f i j in
      (i ≤ r) × (r ≤ j) × ((r ≡ i) ⊎ (f (r - 1) ≡ false)) × ((r ≡ j) ⊎ (f r ≡ true))
unfolding search_from
search_from-ends zero f i j h k = ground arith
search_from-ends (suc fuel) f i j h k =
    ground
      (arith, search_from-ends fuel f i ((i + j) / 2), search_from-ends fuel f ((i + j) / 2 + 1) j)
