-- ===== src/Runtime/Dcgm/Indexes.antt =====
-- The device indexes that a payload names, each once.
use inference_fabric_autopil.Prelude.{
  ◌≡◌, ◌↔◌, ◌⊎◌, refl, sym, ap, subst, ◌∙◌, true, false, Option, none, some, List, [], ◌∷◌, arith,
  Bool-cases, inl, inr, Elem,
}
use inference_fabric_autopil.Prelude.Int.{ℤ, pos, negsuc}
use inference_fabric_autopil.Prelude.Texts.{Text}
use inference_fabric_autopil.Promtext.Sample.{Sample}
use inference_fabric_autopil.Promtext.Families.{MetricFamilies, select}
use inference_fabric_autopil.Runtime.Dcgm.{
  eq_ℤ, add_index, gpu_index, with_index, indexes_of, all_indexes,
}

eq_ℤ→eq : (a b : ℤ) → eq_ℤ a b ≡ true → a ≡ b
eq_ℤ→eq (pos a) (pos b) h = ap pos (ground arith)
eq_ℤ→eq (pos a) (negsuc b) h = ground arith
eq_ℤ→eq (negsuc a) (pos b) h = ground arith
eq_ℤ→eq (negsuc a) (negsuc b) h = ap negsuc (ground arith)

Elem-add_index : (i a : ℤ) (js : List ℤ) → Elem a (add_index i js) ↔ ((a ≡ i) ⊎ Elem a js)
unfolding add_index
Elem-add_index i a [] = (λ h. h, λ h. h)
Elem-add_index i a (j ∷ js) = elim (Bool-cases (eq_ℤ i j)) [
  | inl same ↦ rw same (λ h. inr h, known (eq_ℤ→eq i j same))
  | inr other ↦ rw other (forth (Elem-add_index i a js).0, back (Elem-add_index i a js).1)
]
  where
    known : i ≡ j → (a ≡ i) ⊎ ((a ≡ j) ⊎ Elem a js) → (a ≡ j) ⊎ Elem a js
    known e (inl h) = inl (h ∙ e)
    known e (inr h) = h

    forth :
        (Elem a (add_index i js) → (a ≡ i) ⊎ Elem a js)
        → (a ≡ j) ⊎ Elem a (add_index i js)
        → (a ≡ i) ⊎ ((a ≡ j) ⊎ Elem a js)
    forth ih (inl e) = inr (inl e)
    forth ih (inr m) = elim (ih m) [ inl e ↦ inl e | inr h ↦ inr (inr h) ]

    back :
        ((a ≡ i) ⊎ Elem a js → Elem a (add_index i js))
        → (a ≡ i) ⊎ ((a ≡ j) ⊎ Elem a js)
        → (a ≡ j) ⊎ Elem a (add_index i js)
    back ih (inl e) = inr (ih (inl e))
    back ih (inr (inl e)) = inl e
    back ih (inr (inr m)) = inr (ih (inr m))

-- No index is listed twice.
abbrev pub IsNodup : List ℤ → Type 0
IsNodup [] = Unit
IsNodup (i ∷ is) = (¬ Elem i is) × IsNodup is

not_self : (i : ℤ) → eq_ℤ i i ≡ false → ⊥
not_self (pos a) h = ground arith
not_self (negsuc a) h = ground arith

add_index-IsNodup : (i : ℤ) (js : List ℤ) → IsNodup js → IsNodup (add_index i js)
unfolding add_index
add_index-IsNodup i [] h = (λ m. absurd m, tt)
add_index-IsNodup i (j ∷ js) h = elim (Bool-cases (eq_ℤ i j)) [
  | inl same ↦ rw same h
  | inr other ↦ rw other (fresh other, add_index-IsNodup i js h.1)
]
  where
    fresh : eq_ℤ i j ≡ false → ¬ Elem j (add_index i js)
    fresh other m = elim ((Elem-add_index i j js).0 m) [
      | inl e ↦ not_self i (subst (λ k. eq_ℤ i k ≡ false) e other)
      | inr n ↦ h.0 n
    ]

module _ (atoi : Text → Option ℤ) where
  with_index-Elem :
      (i : ℤ) (o : Option ℤ) (is : List ℤ)
      → Elem i (with_index atoi o is) ↔ ((o ≡ some i) ⊎ Elem i is)
  with_index-Elem i none is = (inr, λ h. elim h [ inl e ↦ absurd_none e | inr m ↦ m ])
    where
      absurd_none : (none ≡ some i) → Elem i is
      absurd_none e = cc
  with_index-Elem i (some j) is = (
    λ m. elim ((Elem-add_index j i is).0 m) [ inl e ↦ inl (ap some (sym e)) | inr n ↦ inr n ],
    λ h. (Elem-add_index j i is).1 (elim h [ inl e ↦ inl (sym (value j i e)) | inr n ↦ inr n ]),
  )
    where
      value : (j i : ℤ) → some j ≡ some i → j ≡ i
      value j i e = cc

module _ (atoi : Text → Option ℤ) {A : Type 0} where
  -- A series of the list carries the index.
  abbrev pub Names : ℤ → List (Sample A) → Type 0
  Names i ss = (s : Sample A) × Elem s ss × (gpu_index atoi s.labels ≡ some i)

  indexes_of-IsNodup :
      (ss : List (Sample A)) (is : List ℤ) → IsNodup is → IsNodup (indexes_of atoi ss is)
  unfolding indexes_of
  indexes_of-IsNodup [] is h = h
  indexes_of-IsNodup (s ∷ ss) is h =
      indexes_of-IsNodup ss (with_index atoi (gpu_index atoi s.labels) is)
        (step (gpu_index atoi s.labels))
    where
      step : (o : Option ℤ) → IsNodup (with_index atoi o is)
      step none = h
      step (some i) = add_index-IsNodup i is h

  indexes_of_sound :
      (i : ℤ) (ss : List (Sample A)) (is : List ℤ)
      → Elem i (indexes_of atoi ss is)
      → Names i ss ⊎ Elem i is
  unfolding indexes_of
  indexes_of_sound i [] is m = inr m
  indexes_of_sound i (s ∷ ss) is m =
      elim (indexes_of_sound i ss (with_index atoi (gpu_index atoi s.labels) is) m) [
        | inl (u, n, e) ↦ inl (u, inr n, e)
        | inr n ↦ elim ((with_index-Elem atoi i (gpu_index atoi s.labels) is).0 n) [
          | inl e ↦ inl (s, inl refl, e)
          | inr k ↦ inr k
        ]
      ]

  indexes_of-kept :
      (i : ℤ) (ss : List (Sample A)) (is : List ℤ) → Elem i is → Elem i (indexes_of atoi ss is)
  unfolding indexes_of
  indexes_of-kept i [] is m = m
  indexes_of-kept i (s ∷ ss) is m =
      indexes_of-kept i ss (with_index atoi (gpu_index atoi s.labels) is)
        ((with_index-Elem atoi i (gpu_index atoi s.labels) is).1 (inr m))

  indexes_of_complete :
      (i : ℤ) (ss : List (Sample A)) (is : List ℤ) → Names i ss → Elem i (indexes_of atoi ss is)
  unfolding indexes_of
  indexes_of_complete i [] is (u, n, e) = absurd n
  indexes_of_complete i (s ∷ ss) is (u, inl q, e) =
      indexes_of-kept i ss (with_index atoi (gpu_index atoi s.labels) is) (
        (with_index-Elem atoi i (gpu_index atoi s.labels) is).1
          (inl (ap (λ (t : Sample A). gpu_index atoi t.labels) (sym q) ∙ e)))
  indexes_of_complete i (s ∷ ss) is (u, inr n, e) =
      indexes_of_complete i ss (with_index atoi (gpu_index atoi s.labels) is) (u, n, e)

  -- A series of one of the metrics carries the index.
  abbrev pub NamesAny : ℤ → MetricFamilies A → List Text → Type 0
  NamesAny i mf names = (name : Text) × Elem name names × Names i (select name [] mf)

  pub all_indexes_sound :
      (i : ℤ) (mf : MetricFamilies A) (names : List Text) (is : List ℤ)
      → Elem i (all_indexes atoi mf names is)
      → NamesAny i mf names ⊎ Elem i is
  unfolding all_indexes
  all_indexes_sound i mf [] is m = inr m
  all_indexes_sound i mf (name ∷ names) is m =
      elim (all_indexes_sound i mf names (indexes_of atoi (select name [] mf) is) m) [
        | inl (k, n, h) ↦ inl (k, inr n, h)
        | inr n ↦ elim (indexes_of_sound i (select name [] mf) is n) [
          | inl h ↦ inl (name, inl refl, h)
          | inr k ↦ inr k
        ]
      ]

  all_indexes-kept :
      (i : ℤ) (mf : MetricFamilies A) (names : List Text) (is : List ℤ)
      → Elem i is
      → Elem i (all_indexes atoi mf names is)
  unfolding all_indexes
  all_indexes-kept i mf [] is m = m
  all_indexes-kept i mf (name ∷ names) is m =
      all_indexes-kept i mf names (indexes_of atoi (select name [] mf) is)
        (indexes_of-kept i (select name [] mf) is m)

  pub all_indexes_complete :
      (i : ℤ) (mf : MetricFamilies A) (names : List Text) (is : List ℤ)
      → NamesAny i mf names
      → Elem i (all_indexes atoi mf names is)
  unfolding all_indexes
  all_indexes_complete i mf [] is (k, n, h) = absurd n
  all_indexes_complete i mf (name ∷ names) is (k, inl e, h) =
      all_indexes-kept i mf names (indexes_of atoi (select name [] mf) is)
        (indexes_of_complete i (select name [] mf) is (subst (λ t. Names i (select t [] mf)) e h))
  all_indexes_complete i mf (name ∷ names) is (k, inr n, h) =
      all_indexes_complete i mf names (indexes_of atoi (select name [] mf) is) (k, n, h)

  pub all_indexes-IsNodup :
      (mf : MetricFamilies A) (names : List Text) (is : List ℤ)
      → IsNodup is
      → IsNodup (all_indexes atoi mf names is)
  unfolding all_indexes
  all_indexes-IsNodup mf [] is h = h
  all_indexes-IsNodup mf (name ∷ names) is h =
      all_indexes-IsNodup mf names (indexes_of atoi (select name [] mf) is)
        (indexes_of-IsNodup (select name [] mf) is h)
