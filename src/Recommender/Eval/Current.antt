-- ===== src/Recommender/Eval/Current.antt =====
-- Where the latest snapshot ends the history, a sustained condition holds of it.
use inference_fabric_autopil.Prelude.{
  ℕ, zero, suc, ◌-◌, Bool, true, false, ◌≡◌, refl, sym, ◌∙◌, inl, inr, ◌⊎◌, some, List, [], ◌∷◌,
  drop, get_last?, all-Elem, get_last?-Elem, Bool-cases, arith, ltb, if◌then◌else◌, length,
}
use inference_fabric_autopil.Prelude.Int.{ℤ, pos, leb_ℤ, ◌-ℤ◌}
use inference_fabric_autopil.Telemetry.Snapshot.{Snapshot}
use inference_fabric_autopil.Recommender.Eval.{
  Eval, sustained, recent, span, sort_search, not_before, last_of,
}

module _ {A : Type 0} where
  abbrev pub IsCurrent : Eval A → Type 0
  IsCurrent e = get_last? e.window ≡ some e.latest

  get_last?-drop_cons :
      (n : ℕ) (xs : List (Snapshot A)) {y : Snapshot A} {ys : List (Snapshot A)}
      → drop n xs ≡ y ∷ ys
      → get_last? (drop n xs) ≡ get_last? xs
  get_last?-drop_cons zero xs h = refl
  get_last?-drop_cons (suc n) [] h = refl
  get_last?-drop_cons (suc zero) (x ∷ []) h = absurd (cc)
  get_last?-drop_cons (suc (suc n)) (x ∷ []) h = absurd (cc)
  get_last?-drop_cons (suc n) (x ∷ y ∷ xs) h = get_last?-drop_cons n (y ∷ xs) h

  -- `recent` cuts off a prefix.
  pub recent-drop : (w : List (Snapshot A)) (d : ℤ) → (n : ℕ) × (recent w d ≡ drop n w)
  unfolding recent
  recent-drop [] d = (0, refl)
  recent-drop (x ∷ xs) d = elim (Bool-cases (leb_ℤ d (pos 0))) [
    | inl whole ↦ (0, rw whole refl)
    | inr part ↦
        let start =
          sort_search (length (x ∷ xs)) (not_before (x ∷ xs) ((last_of x xs).timestamp -ℤ d)) in
        (if ltb 0 start then start - 1 else start, rw part refl)
  ]

  List-cases :
      (xs : List (Snapshot A))
      → (xs ≡ []) ⊎ ((y : Snapshot A) × (ys : List (Snapshot A)) × (xs ≡ y ∷ ys))
  List-cases [] = inl refl
  List-cases (x ∷ xs) = inr (x, xs, refl)

  get_last?-recent :
      (w : List (Snapshot A)) (d : ℤ) {y : Snapshot A} {ys : List (Snapshot A)}
      → recent w d ≡ y ∷ ys
      → get_last? (recent w d) ≡ get_last? w
  get_last?-recent w d h =
      let (n, e) = recent-drop w d in rw e (get_last?-drop_cons n w (sym e ∙ h))

  empty_short :
      (e : Eval A) (pred : Snapshot A → Bool)
      → recent e.window e.t.sustain_for ≡ []
      → leb_ℤ e.t.sustain_for (pos 0) ≡ false
      → sustained e pred ≡ true
      → ⊥
  unfolding sustained span
  empty_short e pred empty asked h = let h' = rw (asked, empty) at h in ground arith

  pub sustained-latest :
      (e : Eval A) (pred : Snapshot A → Bool)
      → IsCurrent e
      → sustained e pred ≡ true
      → pred e.latest ≡ true
  unfolding sustained
  sustained-latest e pred c h = elim (Bool-cases (leb_ℤ e.t.sustain_for (pos 0))) [
    | inl none_asked ↦ ground arith
    | inr asked ↦ elim (List-cases (recent e.window e.t.sustain_for)) [
      | inl empty ↦ absurd (empty_short e pred empty asked h)
      | inr (y, ys, some_left) ↦
          all-Elem pred (recent e.window e.t.sustain_for) (ground arith)
            (get_last?-Elem _ (get_last?-recent e.window e.t.sustain_for some_left ∙ c))
    ]
  ]
