-- ===== src/Prelude/Sort.antt =====
-- `sort.Slice` by a strict order, as insertion sort: where no two elements are tied, every sorting
-- algorithm gives this list.
use mathlib.Core.Path.{◌≡◌, refl, sym, ◌∙◌}
use mathlib.Core.Bool.{Bool, true, false}
use mathlib.Core.Logic.{◌⊎◌, inl, inr, ◌↔◌}
use mathlib.Core.List.{List, [], ◌∷◌}
use mathlib.Core.List.{Permᴰ}
use native.Mathlib.Omega.{arith}
use inference_fabric_autopil.Prelude.Tests.{if◌then◌else◌, Bool-cases}
use inference_fabric_autopil.Prelude.Lists.{All, Elem}
use inference_fabric_autopil.Prelude.Texts.{Text, text_lt, text_lt_asymm, text_lt_not_trans}

module _ {A : Type 0} (lt : A → A → Bool) where
  unfoldable pub insert_sorted : A → List A → List A
  insert_sorted x [] = x ∷ []
  insert_sorted x (y ∷ ys) = if lt y x then y ∷ insert_sorted x ys else x ∷ y ∷ ys

  unfoldable pub sort_by : List A → List A
  unfolding insert_sorted
  sort_by [] = []
  sort_by (x ∷ xs) = insert_sorted x (sort_by xs)

  pub Elem-insert_sorted :
      (a x : A) (ys : List A) → Elem a (insert_sorted x ys) ↔ ((a ≡ x) ⊎ Elem a ys)
  unfolding insert_sorted
  Elem-insert_sorted a x [] = (λ h. h, λ h. h)
  Elem-insert_sorted a x (y ∷ ys) = elim (Bool-cases (lt y x)) [
    | inl before ↦ rw before (forth (Elem-insert_sorted a x ys), back (Elem-insert_sorted a x ys))
    | inr after ↦ rw after (λ h. h, λ h. h)
  ]
    where
      forth :
          (Elem a (insert_sorted x ys) ↔ ((a ≡ x) ⊎ Elem a ys))
          → (a ≡ y) ⊎ Elem a (insert_sorted x ys)
          → (a ≡ x) ⊎ Elem a (y ∷ ys)
      forth ih (inl e) = inr (inl e)
      forth ih (inr m) = elim (ih.0 m) [ inl e ↦ inl e | inr h ↦ inr (inr h) ]

      back :
          (Elem a (insert_sorted x ys) ↔ ((a ≡ x) ⊎ Elem a ys))
          → (a ≡ x) ⊎ Elem a (y ∷ ys)
          → (a ≡ y) ⊎ Elem a (insert_sorted x ys)
      back ih (inl e) = inr (ih.1 (inl e))
      back ih (inr (inl e)) = inl e
      back ih (inr (inr m)) = inr (ih.1 (inr m))

  pub Elem-sort_by : (a : A) (xs : List A) → Elem a (sort_by xs) ↔ Elem a xs
  unfolding sort_by
  Elem-sort_by a [] = (λ h. h, λ h. h)
  Elem-sort_by a (x ∷ xs) = (forth (Elem-sort_by a xs).0, back (Elem-sort_by a xs).1)
    where
      forth :
          (Elem a (sort_by xs) → Elem a xs)
          → Elem a (insert_sorted x (sort_by xs))
          → Elem a (x ∷ xs)
      forth ih m = elim ((Elem-insert_sorted a x (sort_by xs)).0 m) [
        | inl e ↦ inl e
        | inr h ↦ inr (ih h)
      ]

      back :
          (Elem a xs → Elem a (sort_by xs))
          → Elem a (x ∷ xs)
          → Elem a (insert_sorted x (sort_by xs))
      back ih (inl e) = (Elem-insert_sorted a x (sort_by xs)).1 (inl e)
      back ih (inr m) = (Elem-insert_sorted a x (sort_by xs)).1 (inr (ih m))

  -- Each element comes before no earlier one.
  abbrev pub IsSorted : List A → Type 0
  IsSorted [] = Unit
  IsSorted (x ∷ xs) = All (λ y. lt y x ≡ false) xs × IsSorted xs

-- `lt` is a strict weak order.
pub record IsWeakOrder {A : Type 0} (lt : A → A → Bool) : Type 0 where
  pub asymmetric : (a b : A) → lt a b ≡ true → lt b a ≡ false
  pub not_trans : (a b c : A) → lt b a ≡ false → lt c b ≡ false → lt c a ≡ false

module _ {A : Type 0} (lt : A → A → Bool) (order : IsWeakOrder lt) where
  All-insert_sorted {κ} :
      (P : A → Type κ) (x : A) (ys : List A) → P x → All P ys → All P (insert_sorted lt x ys)
  unfolding insert_sorted
  All-insert_sorted P x [] p h = (p, tt)
  All-insert_sorted P x (y ∷ ys) p h = elim (Bool-cases (lt y x)) [
    | inl before ↦ rw before (h.0, All-insert_sorted P x ys p h.1)
    | inr after ↦ rw after (p, h)
  ]

  All-later :
      (x y : A) (ys : List A)
      → lt y x ≡ false
      → All (λ z. lt z y ≡ false) ys
      → All (λ z. lt z x ≡ false) ys
  All-later x y [] e h = tt
  All-later x y (z ∷ ys) e h = (order.not_trans x y z e h.0, All-later x y ys e h.1)

  insert_sorted-IsSorted :
      (x : A) (ys : List A) → IsSorted lt ys → IsSorted lt (insert_sorted lt x ys)
  unfolding insert_sorted
  insert_sorted-IsSorted x [] h = (tt, tt)
  insert_sorted-IsSorted x (y ∷ ys) h = elim (Bool-cases (lt y x)) [
    | inl before ↦ rw before (
      All-insert_sorted (λ z. lt z y ≡ false) x ys (order.asymmetric y x before) h.0,
      insert_sorted-IsSorted x ys h.1,
    )
    | inr after ↦ rw after ((after, All-later x y ys after h.0), h)
  ]

  pub sort_by-IsSorted : (xs : List A) → IsSorted lt (sort_by lt xs)
  unfolding sort_by
  sort_by-IsSorted [] = tt
  sort_by-IsSorted (x ∷ xs) = insert_sorted-IsSorted x (sort_by lt xs) (sort_by-IsSorted xs)

module _ {A : Type 0} (lt : A → A → Bool) (order : IsWeakOrder lt)
    (trans : (a b c : A) → lt a b ≡ true → lt b c ≡ true → lt a c ≡ true) where
  insert_sorted-swap :
      (x y : A) (l : List A)
      → lt x y ≡ true
      → insert_sorted lt x (insert_sorted lt y l) ≡ insert_sorted lt y (insert_sorted lt x l)
  unfolding insert_sorted
  insert_sorted-swap x y [] h = ground (arith, order.asymmetric x y)
  insert_sorted-swap x y (z ∷ l) h =
      ground (arith, order.asymmetric x y, trans z x y, insert_sorted-swap x y l h)

  abbrev pub IsTied : A → A → Type 0
  IsTied a b = (lt a b ≡ false) × (lt b a ≡ false)

  insert_sorted_comm :
      (x y : A) (l : List A)
      → (IsTied x y → x ≡ y)
      → insert_sorted lt x (insert_sorted lt y l) ≡ insert_sorted lt y (insert_sorted lt x l)
  insert_sorted_comm x y l h = elim (Bool-cases (lt x y)) [
    | inl before ↦ insert_sorted-swap x y l before
    | inr not_before ↦ elim (Bool-cases (lt y x)) [
      | inl after ↦ sym (insert_sorted-swap y x l after)
      | inr not_after ↦ rw (h (not_before, not_after)) refl
    ]
  ]

  pub Elem-perm : (a : A) {xs ys : List A} → Permᴰ xs ys → Elem a xs → Elem a ys
  Elem-perm a Permᴰ.nil h = h
  Elem-perm a (Permᴰ.cons e p) (inl q) = inl (q ∙ e)
  Elem-perm a (Permᴰ.cons e p) (inr m) = inr (Elem-perm a p m)
  Elem-perm a (Permᴰ.swap e d) (inl q) = inr (inl (q ∙ e))
  Elem-perm a (Permᴰ.swap e d) (inr (inl q)) = inl (q ∙ d)
  Elem-perm a (Permᴰ.swap e d) (inr (inr m)) = inr (inr m)
  Elem-perm a (Permᴰ.trans p q) h = Elem-perm a q (Elem-perm a p h)

  -- No two elements of the list are tied, but an element with itself.
  abbrev pub IsTotal : List A → Type 0
  IsTotal xs = (a b : A) → Elem a xs → Elem b xs → IsTied a b → a ≡ b

  -- Without ties the sorted list does not depend on the order of the input.
  pub sort_by-perm : {xs ys : List A} → Permᴰ xs ys → IsTotal ys → sort_by lt xs ≡ sort_by lt ys
  unfolding sort_by
  sort_by-perm Permᴰ.nil t = refl
  sort_by-perm (Permᴰ.cons {b = b} {l₂ = ys} e p) t =
      rw (e, sort_by-perm p (λ a c m n. t a c (inr m) (inr n))) refl
  sort_by-perm (Permᴰ.swap {a' = a'} {b' = b'} {l = l} e d) t =
      rw (e, d) (insert_sorted_comm b' a' (sort_by lt l) (t b' a' (inr (inl refl)) (inl refl)))
  sort_by-perm (Permᴰ.trans p q) t =
      sort_by-perm p (λ a c m n. t a c (Elem-perm a q m) (Elem-perm c q n)) ∙ sort_by-perm q t

-- The order of texts, and of what is compared by a text.
pub text_lt-IsWeakOrder : {A : Type 0} (f : A → Text) → IsWeakOrder (λ a b. text_lt (f a) (f b))
text_lt-IsWeakOrder f = record {
  asymmetric = λ a b h. text_lt_asymm (f a) (f b) h;
  not_trans = λ a b c h k. text_lt_not_trans (f a) (f b) (f c) h k;
}
