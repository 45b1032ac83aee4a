-- ===== src/Prelude/Maps.antt =====
-- Go maps keyed by strings, as association lists; the order of a list stands for one order in
-- which `range` may visit the map.
use mathlib.Core.Path.{◌≡◌, refl, subst, sym, ap}
use mathlib.Core.Logic.{inl, inr}
use mathlib.Core.Bool.{false}
use mathlib.Core.Option.{Option, none, some}
use mathlib.Core.List.{List, [], ◌∷◌}
use native.Mathlib.Omega.{arith}
use inference_fabric_autopil.Prelude.Tests.{if◌then◌else◌, Bool-cases}
use inference_fabric_autopil.Prelude.Lists.{All, Elem}
use inference_fabric_autopil.Prelude.Texts.{Text, text_eq, text_eq→eq, text_eq_iff}

abbrev pub Map {ℓ} : Type ℓ → Type ℓ
Map V = List (Text × V)

module _ {ℓ} {V : Type ℓ} where
  unfoldable pub lookup : Text → Map V → Option V
  lookup k [] = none
  lookup k (e ∷ m) = if text_eq k e.0 then some e.1 else lookup k m

  -- `m[k] = v`
  unfoldable pub insert : Text → V → Map V → Map V
  insert k v [] = (k, v) ∷ []
  insert k v (e ∷ m) = if text_eq k e.0 then (k, v) ∷ m else e ∷ insert k v m

  -- `delete(m, k)`
  unfoldable pub erase : Text → Map V → Map V
  erase k [] = []
  erase k (e ∷ m) = if text_eq k e.0 then m else e ∷ erase k m

  -- No key is listed twice.
  abbrev pub NodupKeys : Map V → Type ℓ
  NodupKeys [] = Unit
  NodupKeys (e ∷ m) = (lookup e.0 m ≡ none) × NodupKeys m

  pub lookup-insert :
      (k j : Text) (v : V) (m : Map V)
      → lookup j (insert k v m) ≡ (if text_eq j k then some v else lookup j m)
  unfolding lookup insert
  lookup-insert k j v [] = refl
  lookup-insert k j v (e ∷ m) =
      ground (arith, text_eq_iff j k, text_eq_iff k e.0, text_eq_iff j e.0, lookup-insert k j v m)

  pub lookup-erase_ne :
      (k j : Text) (m : Map V) → text_eq j k ≡ false → lookup j (erase k m) ≡ lookup j m
  unfolding lookup erase
  lookup-erase_ne k j [] h = refl
  lookup-erase_ne k j (e ∷ m) h =
      ground (arith, text_eq_iff j k, text_eq_iff k e.0, text_eq_iff j e.0, lookup-erase_ne k j m h)

  pub lookup-erase_self : (k : Text) (m : Map V) → NodupKeys m → lookup k (erase k m) ≡ none
  unfolding lookup erase
  lookup-erase_self k [] h = refl
  lookup-erase_self k (e ∷ m) h = ground (arith, text_eq_iff k e.0, lookup-erase_self k m h.1)

  pub lookup-insert-none :
      (k j : Text) (v : V) (m : Map V)
      → text_eq j k ≡ false
      → lookup j m ≡ none
      → lookup j (insert k v m) ≡ none
  lookup-insert-none k j v m h e = ground (arith, lookup-insert k j v m)

  pub NodupKeys-insert : (k : Text) (v : V) (m : Map V) → NodupKeys m → NodupKeys (insert k v m)
  unfolding insert lookup
  NodupKeys-insert k v [] h = (refl, tt)
  NodupKeys-insert k v (e ∷ m) h = elim (Bool-cases (text_eq k e.0)) [
    | inl hit ↦ rw hit (rw (text_eq→eq k e.0 hit) h.0, h.1)
    | inr miss ↦ rw miss (
      lookup-insert-none k e.0 v m (ground (arith, text_eq_iff k e.0, text_eq_iff e.0 k)) h.0,
      NodupKeys-insert k v m h.1,
    )
  ]

  pub lookup-erase-none : (k j : Text) (m : Map V) → lookup j m ≡ none → lookup j (erase k m) ≡ none
  unfolding lookup erase
  lookup-erase-none k j [] h = refl
  lookup-erase-none k j (e ∷ m) h =
      ground (arith, text_eq_iff k e.0, text_eq_iff j e.0, lookup-erase-none k j m)

  pub NodupKeys-erase : (k : Text) (m : Map V) → NodupKeys m → NodupKeys (erase k m)
  unfolding erase
  NodupKeys-erase k [] h = h
  NodupKeys-erase k (e ∷ m) h = elim (Bool-cases (text_eq k e.0)) [
    | inl hit ↦ rw hit h.1
    | inr miss ↦ rw miss (lookup-erase-none k e.0 m h.0, NodupKeys-erase k m h.1)
  ]

  module _ {κ} (P : Text × V → Type κ) where
    pub All-lookup : (k : Text) (m : Map V) {v : V} → All P m → lookup k m ≡ some v → P (k, v)
    unfolding lookup
    All-lookup k [] h e = cc
    All-lookup k (x ∷ m) {v} h e = elim (Bool-cases (text_eq k x.0)) [
      | inl hit ↦ subst P (pair_eq (text_eq→eq k x.0 hit) (option_eq (rw hit at e))) h.0
      | inr miss ↦ All-lookup k m h.1 (rw miss at e)
    ]
      where
        option_eq : some x.1 ≡ some v → x.1 ≡ v
        option_eq q = cc

        pair_eq : k ≡ x.0 → x.1 ≡ v → x ≡ (k, v)
        pair_eq p q = λ i. (sym p i, q i)

    pub All-insert : (k : Text) (v : V) (m : Map V) → P (k, v) → All P m → All P (insert k v m)
    unfolding insert
    All-insert k v [] p h = (p, tt)
    All-insert k v (x ∷ m) p h = elim (Bool-cases (text_eq k x.0)) [
      | inl hit ↦ rw hit (p, h.1)
      | inr miss ↦ rw miss (h.0, All-insert k v m p h.1)
    ]

    pub All-erase : (k : Text) (m : Map V) → All P m → All P (erase k m)
    unfolding erase
    All-erase k [] h = h
    All-erase k (x ∷ m) h = elim (Bool-cases (text_eq k x.0)) [
      | inl hit ↦ rw hit h.1
      | inr miss ↦ rw miss (h.0, All-erase k m h.1)
    ]

module _ {V : Type 0} where
  -- With distinct keys, what stands under a key is what a lookup finds.
  pub Elem-lookup :
      (k : Text) (v : V) (m : Map V) → NodupKeys m → Elem (k, v) m → lookup k m ≡ some v
  unfolding lookup
  Elem-lookup k v [] d h = absurd h
  Elem-lookup k v ((j, w) ∷ m) d (inl e) =
      ground (arith, text_eq_iff k j, ap (λ (q : Text × V). q.0) e, ap (λ (q : Text × V). q.1) e)
  Elem-lookup k v ((j, w) ∷ m) d (inr n) = ground (arith, text_eq_iff k j, Elem-lookup k v m d.1 n)
