-- ===== src/Runtime/Missing.antt =====
-- Which metrics a reading reports as missing.
use inference_fabric_autopil.Prelude.{
  ◌≡◌, ◌↔◌, ◌⊎◌, subst, sym, Bool, false, ◌||◌, List, [], ◌∷◌, arith, Bool-cases, inl, inr, Elem,
}
use inference_fabric_autopil.Prelude.Texts.{Text, text_lt}
use inference_fabric_autopil.Prelude.Sort.{
  Elem-sort_by, IsSorted, sort_by-IsSorted, text_lt-IsWeakOrder,
}
use inference_fabric_autopil.Runtime.{Seen, is_seen, unseen, missing_from}

module _ (optional : Text → Bool) (seen : Seen) where
  abbrev IsMissing : Text → Type 0
  IsMissing name = (optional name ≡ false) × (is_seen name seen ≡ false)

  unseen_complete :
      (name : Text) (names : List Text)
      → Elem name names
      → IsMissing name
      → Elem name (unseen optional names seen)
  unfolding unseen
  unseen_complete name [] m h = absurd m
  unseen_complete name (n ∷ names) (inl e) h =
      rw (subst IsMissing e h).0 (rw (subst IsMissing e h).1 (inl e))
  unseen_complete name (n ∷ names) (inr m) h = elim (Bool-cases (optional n || is_seen n seen)) [
    | inl skip ↦ rw skip (unseen_complete name names m h)
    | inr kept ↦ rw kept (inr (unseen_complete name names m h))
  ]

  unseen_sound :
      (name : Text) (names : List Text)
      → Elem name (unseen optional names seen)
      → Elem name names × IsMissing name
  unfolding unseen
  unseen_sound name [] m = absurd m
  unseen_sound name (n ∷ names) m = elim (Bool-cases (optional n || is_seen n seen)) [
    | inl skip ↦ later (unseen_sound name names (rw skip at m))
    | inr kept ↦ found kept (rw kept at m) (unseen_sound name names)
  ]
    where
      later : Elem name names × IsMissing name → Elem name (n ∷ names) × IsMissing name
      later h = (inr h.0, h.1)

      found :
          (optional n || is_seen n seen) ≡ false
          → (name ≡ n) ⊎ Elem name (unseen optional names seen)
          → (Elem name (unseen optional names seen) → Elem name names × IsMissing name)
          → Elem name (n ∷ names) × IsMissing name
      found k (inl e) ih = (inl e, subst IsMissing (sym e) (ground arith, ground arith))
      found k (inr h) ih = later (ih h)

  -- The metrics that an adapter reports as missing are just the expected ones that are not optional
  -- and were not seen, sorted by name.
  pub missing_from_lem :
      (expected : List Text)
      → IsSorted text_lt (missing_from optional expected seen)
        × ((name : Text)
            → Elem name (missing_from optional expected seen)
              ↔ (Elem name expected × (optional name ≡ false) × (is_seen name seen ≡ false)))
  unfolding missing_from
  missing_from_lem expected =
      let listed = unseen optional expected seen in
      (
        sort_by-IsSorted text_lt (text_lt-IsWeakOrder (λ t. t)) listed,
        λ name. (
          λ m.
              let h = unseen_sound name expected ((Elem-sort_by text_lt name listed).0 m) in
              (h.0, h.1.0, h.1.1),
          λ h. (Elem-sort_by text_lt name listed).1 (unseen_complete name expected h.0 (h.1, h.2)),
        ),
      )
