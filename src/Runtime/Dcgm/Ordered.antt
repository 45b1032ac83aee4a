-- ===== src/Runtime/Dcgm/Ordered.antt =====
-- The devices of a payload: one for each index that it names, in order.
use inference_fabric_autopil.Prelude.{
  ◌≡◌, ◌↔◌, refl, sym, ap, Bool, Option, List, [], ◌∷◌, map, arith, Bool-cases, inl, inr, Elem,
}
use inference_fabric_autopil.Prelude.Int.{ℤ, ltb_ℤ}
use inference_fabric_autopil.Prelude.Texts.{Text}
use inference_fabric_autopil.Prelude.Sort.{
  sort_by, Elem-sort_by, IsSorted, sort_by-IsSorted, IsWeakOrder,
}
use inference_fabric_autopil.Float.{Float64, FloatText}
use inference_fabric_autopil.Promtext.Families.{MetricFamilies}
use inference_fabric_autopil.Runtime.Dcgm.{
  Device, all_indexes, device_metrics, device_at, devices_of,
}
use inference_fabric_autopil.Runtime.Dcgm.Indexes.{
  IsNodup, NamesAny, all_indexes_sound, all_indexes_complete, all_indexes-IsNodup,
}
use inference_fabric_autopil.Prelude.Sort.{insert_sorted, Elem-insert_sorted}

ltb_ℤ-IsWeakOrder : IsWeakOrder ltb_ℤ
ltb_ℤ-IsWeakOrder = record {
  asymmetric = λ a b h. ground arith;
  not_trans = λ a b c h k. ground arith;
}

module _ (lt : ℤ → ℤ → Bool) where
  insert_sorted-IsNodup :
      (x : ℤ) (ys : List ℤ) → (¬ Elem x ys) → IsNodup ys → IsNodup (insert_sorted lt x ys)
  unfolding insert_sorted
  insert_sorted-IsNodup x [] n h = (n, tt)
  insert_sorted-IsNodup x (y ∷ ys) n h = elim (Bool-cases (lt y x)) [
    | inl before ↦ rw before (fresh, insert_sorted-IsNodup x ys (λ m. n (inr m)) h.1)
    | inr after ↦ rw after (n, h)
  ]
    where
      fresh : ¬ Elem y (insert_sorted lt x ys)
      fresh m = elim ((Elem-insert_sorted lt y x ys).0 m) [
        | inl e ↦ n (inl (sym e))
        | inr k ↦ h.0 k
      ]

  sort_by-IsNodup : (xs : List ℤ) → IsNodup xs → IsNodup (sort_by lt xs)
  unfolding sort_by
  sort_by-IsNodup [] h = tt
  sort_by-IsNodup (x ∷ xs) h =
      insert_sorted-IsNodup x (sort_by lt xs) (λ m. h.0 ((Elem-sort_by lt x xs).0 m))
        (sort_by-IsNodup xs h.1)

module _ {A : Type 0} ⦃F : Float64 A⦄ ⦃T : FloatText A⦄ where
  -- The indexes of devices.
  abbrev pub indexes : List (Device A) → List ℤ
  indexes ds = map (λ d. d.index) ds

  indexes-device_at :
      (itoa : ℤ → Text) (mf : MetricFamilies A) (is : List ℤ)
      → indexes (map (device_at itoa mf) is) ≡ is
  unfolding device_at
  indexes-device_at itoa mf [] = refl
  indexes-device_at itoa mf (i ∷ is) = ap (λ l. i ∷ l) (indexes-device_at itoa mf is)

  -- The devices of a payload have no index twice and come in the order of their indexes, and there
  -- is one for an index just where a series of one of the six metrics has a label gpu that reads as
  -- the index.
  pub devices_of_lem :
      (atoi : Text → Option ℤ) (itoa : ℤ → Text) (mf : MetricFamilies A)
      → IsSorted ltb_ℤ (indexes (devices_of atoi itoa mf))
        × IsNodup (indexes (devices_of atoi itoa mf))
        × ((i : ℤ) → Elem i (indexes (devices_of atoi itoa mf)) ↔ NamesAny atoi i mf device_metrics)
  unfolding devices_of
  devices_of_lem atoi itoa mf =
      let found = all_indexes atoi mf device_metrics [] in
      rw (indexes-device_at itoa mf (sort_by ltb_ℤ found)) (
        sort_by-IsSorted ltb_ℤ ltb_ℤ-IsWeakOrder found,
        sort_by-IsNodup ltb_ℤ found (all_indexes-IsNodup atoi mf device_metrics [] tt),
        λ i. (
          λ m.
              elim (all_indexes_sound atoi i mf device_metrics []
                ((Elem-sort_by ltb_ℤ i found).0 m)) [ inl h ↦ h | inr n ↦ absurd n ],
          λ h. (Elem-sort_by ltb_ℤ i found).1 (all_indexes_complete atoi i mf device_metrics [] h),
        ),
      )
