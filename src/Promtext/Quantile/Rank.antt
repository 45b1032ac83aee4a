-- ===== src/Promtext/Quantile/Rank.antt =====
-- The bucket that the rank of a quantile falls in.
use inference_fabric_autopil.Prelude.{
  ℕ, zero, suc, ◌-◌, ◌≡◌, ◌<◌, ◌≤◌, refl, sym, ◌∙◌, true, false, some, List, [], ◌∷◌, length,
  get_elem?, get_last?, none, ap, Option, Bool, arith, ◌==◌, if◌then◌else◌, Bool-cases, inl, inr,
  ◌⊎◌,
}
use inference_fabric_autopil.Float.{Float64, FloatText}
use inference_fabric_autopil.Recommender.Eval.{sort_search, search_from}
use inference_fabric_autopil.Recommender.Eval.Search.{search_from-ends}
use inference_fabric_autopil.Promtext.Quantile.{
  Bucket, reaches, bucket_index, largest_finite, interpolated, floor_of, estimate_at, estimate,
  total_of,
}

module _ {ℓ} {A : Type ℓ} where
  get_elem?-in_range : (xs : List A) (i : ℕ) → i < length xs → (x : A) × (get_elem? xs i ≡ some x)
  get_elem?-in_range [] i h = absurd (omega arith)
  get_elem?-in_range (x ∷ xs) zero h = (x, refl)
  get_elem?-in_range (x ∷ xs) (suc i) h = get_elem?-in_range xs i (omega arith)

  get_last?-some : (x : A) (xs : List A) → (y : A) × (get_last? (x ∷ xs) ≡ some y)
  get_last?-some x [] = (x, refl)
  get_last?-some x (y ∷ xs) = get_last?-some y xs

  get_last?-cons :
      (x : A) (xs : List A)
      → get_last? (x ∷ xs) ≡ elim (get_last? xs) [ none ↦ some x | some y ↦ some y ]
  get_last?-cons x [] = refl
  get_last?-cons x (y ∷ xs) = let (z, e) = get_last?-some y xs in rw e refl

  some-eta : (o : Option A) → elim o [ none ↦ none | some y ↦ some y ] ≡ o
  some-eta none = refl
  some-eta (some y) = refl

  last_unless :
      (skipped : Bool) (x : A) (xs : List A)
      → elim (get_last? xs) [ none ↦ if skipped then none else some x | some y ↦ some y ]
        ≡ get_last? (if skipped then xs else x ∷ xs)
  last_unless true x xs = some-eta (get_last? xs)
  last_unless false x xs = sym (get_last?-cons x xs)

module _ {A : Type 0} ⦃F : Float64 A⦄ ⦃T : FloatText A⦄ where
  reaches-last :
      (b : Bucket A) (bs : List (Bucket A)) (rank : A)
      → reaches (b ∷ bs) rank (length bs) ≡ F.le rank (total_of b bs)
  unfolding reaches
  reaches-last b [] rank = refl
  reaches-last b (c ∷ bs) rank = reaches-last c bs rank

  reaches-bucket :
      (bs : List (Bucket A)) (rank : A) (i : ℕ) (b : Bucket A)
      → get_elem? bs i ≡ some b
      → reaches bs rank i ≡ F.le rank b.count
  unfolding reaches
  reaches-bucket bs rank i b h = ground arith

  -- The search stops before the end where the last bucket reaches the rank.
  stop-in_range :
      (b : Bucket A) (bs : List (Bucket A)) (rank : A) (i : ℕ)
      → F.le rank (total_of b bs) ≡ true
      → i ≤ suc (length bs)
      → (i ≡ 0) ⊎ (reaches (b ∷ bs) rank (i - 1) ≡ false)
      → i < suc (length bs)
  stop-in_range b bs rank i h high left = elim (Bool-cases (i == suc (length bs))) [
    | inl e ↦ elim left [ inl z ↦ ground arith | inr f ↦ absurd (differ (before_last e) f) ]
    | inr e ↦ ground arith
  ]
    where
      differ : reaches (b ∷ bs) rank (i - 1) ≡ true → reaches (b ∷ bs) rank (i - 1) ≡ false → ⊥
      differ t f = cc

      before_last : (i == suc (length bs)) ≡ true → reaches (b ∷ bs) rank (i - 1) ≡ true
      before_last e = rw (length_before e) (reaches-last b bs rank ∙ h)
        where
          length_before : (i == suc (length bs)) ≡ true → i - 1 ≡ length bs
          length_before e = ground arith

  -- Where the search stops in range, `Quantile` takes that index.
  bucket_index-search :
      (b : Bucket A) (bs : List (Bucket A)) (rank : A)
      → F.le rank (total_of b bs) ≡ true
      → let i = bucket_index (b ∷ bs) rank in
        (i < suc (length bs))
        × ((i ≡ 0) ⊎ (reaches (b ∷ bs) rank (i - 1) ≡ false))
        × (reaches (b ∷ bs) rank i ≡ true)
  unfolding bucket_index sort_search
  bucket_index-search b bs rank h =
      go (search_from (suc (length bs)) (reaches (b ∷ bs) rank) 0 (suc (length bs))) (
        search_from-ends (suc (length bs)) (reaches (b ∷ bs) rank) 0 (suc (length bs)) (omega arith)
          (omega arith))
    where
      clipped : ℕ → ℕ
      clipped r = if r == suc (length bs) then suc (length bs) - 1 else r

      in_range : (r : ℕ) → r < suc (length bs) → clipped r ≡ r
      in_range r k = ground arith

      found :
          (r : ℕ)
          → r < suc (length bs)
          → (r ≡ suc (length bs)) ⊎ (reaches (b ∷ bs) rank r ≡ true)
          → reaches (b ∷ bs) rank r ≡ true
      found r k (inl e) = absurd (omega arith)
      found r k (inr f) = f

      go :
          (r : ℕ)
          → (0 ≤ r)
            × (r ≤ suc (length bs))
            × ((r ≡ 0) ⊎ (reaches (b ∷ bs) rank (r - 1) ≡ false))
            × ((r ≡ suc (length bs)) ⊎ (reaches (b ∷ bs) rank r ≡ true))
          → (clipped r < suc (length bs))
            × ((clipped r ≡ 0) ⊎ (reaches (b ∷ bs) rank (clipped r - 1) ≡ false))
            × (reaches (b ∷ bs) rank (clipped r) ≡ true)
      go r (low, high, left, right) =
          let k = stop-in_range b bs rank r h high left in
          rw (in_range r k) (k, left, found r k right)

  -- The boundaries that are not +Inf, in the order of the buckets.
  abbrev pub finite_boundaries : List (Bucket A) → List A
  finite_boundaries [] = []
  finite_boundaries (b ∷ bs) =
      let rest = finite_boundaries bs in if T.is_pos_inf b.le then rest else b.le ∷ rest

  largest_finite-last :
      (bs : List (Bucket A)) → largest_finite bs ≡ get_last? (finite_boundaries bs)
  unfolding largest_finite
  largest_finite-last [] = refl
  largest_finite-last (b ∷ bs) =
      rw (largest_finite-last bs) (last_unless (T.is_pos_inf b.le) b.le (finite_boundaries bs))

  -- The straight line through the boundaries and the counts of a bucket, at a rank; the boundary
  -- where the bucket counts nothing.
  abbrev pub on_line : A → A → Bucket A → A → A
  on_line lower below c rank =
      if F.le (F.sub c.count below) (F.of_nat 0)
      then c.le
      else F.add lower (F.mul (F.sub c.le lower) (F.div (F.sub rank below) (F.sub c.count below)))

  -- Where a bucket begins: at 0 for the first, else at the boundary and the count of the one before
  -- it, which does not reach the rank.
  abbrev pub BeginsAt : List (Bucket A) → A → ℕ → A → A → Type 0
  BeginsAt bs rank i lower below =
      ((i ≡ 0) × (lower ≡ F.of_nat 0) × (below ≡ F.of_nat 0))
      ⊎ ((d : Bucket A) × (0 < i)
          × (get_elem? bs (i - 1) ≡ some d)
          × (F.le rank d.count ≡ false)
          × (lower ≡ d.le)
          × (below ≡ d.count))

  floor_of-suc :
      (bs : List (Bucket A)) (i : ℕ) (d : Bucket A)
      → get_elem? bs i ≡ some d
      → floor_of bs (suc i) ≡ (d.le, d.count)
  unfolding floor_of
  floor_of-suc bs i d h = rw (h, floor_of) refl

  floor_of-BeginsAt :
      (bs : List (Bucket A)) (rank : A) (i : ℕ)
      → i < length bs
      → (i ≡ 0) ⊎ (reaches bs rank (i - 1) ≡ false)
      → BeginsAt bs rank i (floor_of bs i).0 (floor_of bs i).1
  unfolding floor_of
  floor_of-BeginsAt bs rank zero h left = inl (refl, refl, refl)
  floor_of-BeginsAt bs rank (suc i) h left =
      let (d, q) = get_elem?-in_range bs i (omega arith) in
      elim left [
        | inl z ↦ absurd (omega arith)
        | inr f ↦
            let p : suc i - 1 ≡ i = omega arith in
            let e = floor_of-suc bs i d q in
            inr (
              d,
              omega arith,
              rw p q,
              sym (reaches-bucket bs rank i d q) ∙ rw p at f,
              ap (λ (x : A × A). x.0) e,
              ap (λ (x : A × A). x.1) e,
            )
      ]

  estimate_at-bucket :
      (bs : List (Bucket A)) (rank : A) (i : ℕ) (c : Bucket A)
      → get_elem? bs i ≡ some c
      → estimate_at bs rank i ≡ (
          if T.is_pos_inf c.le
          then get_last? (finite_boundaries bs)
          else some (on_line (floor_of bs i).0 (floor_of bs i).1 c rank))
  unfolding estimate_at interpolated
  estimate_at-bucket bs rank i c h = ground (arith, largest_finite-last bs)

  -- What the estimate is for a rank that the last bucket reaches: the search stops at a bucket that
  -- reaches the rank and is the first or follows one that does not; the estimate is the last
  -- boundary that is not +Inf where this bucket's boundary is +Inf. Where it is not, the estimate
  -- lies on the straight line from the boundary and the count before the bucket, which are 0 for the
  -- first, to those of the bucket, or is its boundary where the bucket counts nothing.
  pub estimate-first_bucket :
      (b : Bucket A) (bs : List (Bucket A)) (rank : A)
      → F.le rank (total_of b bs) ≡ true
      → (i : ℕ) × (c : Bucket A) × (lower : A) × (below : A) × (get_elem? (b ∷ bs) i ≡ some c)
        × (F.le rank c.count ≡ true)
        × BeginsAt (b ∷ bs) rank i lower below
        × (estimate (b ∷ bs) rank ≡ (
            if T.is_pos_inf c.le
            then get_last? (finite_boundaries (b ∷ bs))
            else some (on_line lower below c rank)))
  unfolding estimate
  estimate-first_bucket b bs rank h =
      let i = bucket_index (b ∷ bs) rank in
      let (k, left, found) = bucket_index-search b bs rank h in
      let (c, e) = get_elem?-in_range (b ∷ bs) i k in
      (
        i,
        c,
        (floor_of (b ∷ bs) i).0,
        (floor_of (b ∷ bs) i).1,
        e,
        sym (reaches-bucket (b ∷ bs) rank i c e) ∙ found,
        floor_of-BeginsAt (b ∷ bs) rank i k left,
        estimate_at-bucket (b ∷ bs) rank i c e,
      )
