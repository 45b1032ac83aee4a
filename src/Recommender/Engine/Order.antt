-- ===== src/Recommender/Engine/Order.antt =====
-- The report does not depend on the order in which Go ranges over the map of findings.
use mathlib.Core.List.{Permᴰ}
use mathlib.Core.List.Permᴰ
use inference_fabric_autopil.Prelude.{
  true, ◌≡◌, refl, sym, ap, ◌∙◌, inl, inr, some, List, [], ◌∷◌, ◌++◌, Elem, All-elem, Bool-cases,
  arith, if◌then◌else◌, subst,
}
use inference_fabric_autopil.Prelude.Texts.{Text, text_lt_trans, text_lt_total}
use inference_fabric_autopil.Prelude.Maps.{Map, lookup, Elem-lookup}
use inference_fabric_autopil.Prelude.Sort.{sort_by-perm, IsTotal}
use inference_fabric_autopil.Telemetry.Snapshot.{Recommendation}
use inference_fabric_autopil.Recommender.Eval.{Eval}
use inference_fabric_autopil.Recommender.Rules.Defs.{Rule}
use inference_fabric_autopil.Recommender.Engine.{
  Engine, contains, recommend, evaluate_rules, no_outcome, not_superseded, report, by_rank,
  sorted_rules,
}
use inference_fabric_autopil.Recommender.Engine.Findings.{
  fired_sound, Justified, evaluate_rules-NodupKeys,
}
use inference_fabric_autopil.Recommender.Engine.Report.{by_rank-IsWeakOrder, not_superseded_sound}

module _ {A : Type 0} where
  -- What is left of one entry.
  left_of : List Text → Text × Recommendation A → List (Recommendation A)
  left_of cs p = if contains p.0 cs then [] else p.1 ∷ []

  not_superseded-cons :
      (cs : List Text) (p : Text × Recommendation A) (m : Map (Recommendation A))
      → not_superseded cs (p ∷ m) ≡ left_of cs p ++ not_superseded cs m
  unfolding not_superseded left_of
  not_superseded-cons cs p m = ground arith

  left_of-swap :
      (cs : List Text) (p q : Text × Recommendation A) (l : List (Recommendation A))
      → Permᴰ (left_of cs p ++ (left_of cs q ++ l)) (left_of cs q ++ (left_of cs p ++ l))
  unfolding left_of
  left_of-swap cs p q l = elim (Bool-cases (contains p.0 cs)) [
    | inl a ↦ rw a (Permᴰ.refl _)
    | inr a ↦ elim (Bool-cases (contains q.0 cs)) [
      | inl b ↦ rw (a, b) (Permᴰ.refl _)
      | inr b ↦ rw (a, b) (Permᴰ.swap refl refl)
    ]
  ]

  not_superseded-perm :
      (cs : List Text) {m m' : Map (Recommendation A)}
      → Permᴰ m m'
      → Permᴰ (not_superseded cs m) (not_superseded cs m')
  not_superseded-perm cs Permᴰ.nil = Permᴰ.refl _
  not_superseded-perm cs (Permᴰ.cons {a = a} {b = b} {l₁ = m} {l₂ = m'} e p) =
      rw (not_superseded-cons cs a m, not_superseded-cons cs b m', e)
        (Permᴰ.append_left (left_of cs b) (not_superseded-perm cs p))
  not_superseded-perm cs (Permᴰ.swap {a = a} {b = b} {a' = a'} {b' = b'} {l = l} e d) =
      rw
        (
          e,
          d,
          not_superseded-cons cs b' (a' ∷ l),
          not_superseded-cons cs a' (b' ∷ l),
          not_superseded-cons cs a' l,
          not_superseded-cons cs b' l,
        )
        (left_of-swap cs b' a' (not_superseded cs l))
  not_superseded-perm cs (Permᴰ.trans p q) =
      Permᴰ.trans (not_superseded-perm cs p) (not_superseded-perm cs q)

  by_rank-trans :
      (a b c : Recommendation A) → by_rank a b ≡ true → by_rank b c ≡ true → by_rank a c ≡ true
  by_rank-trans a b c h k = ground (arith, text_lt_trans a.code b.code c.code)

  -- What is reported is told apart by its code.
  left-coded :
      (rules : List (Rule A)) (e : Eval A) (cs : List Text) (x : Recommendation A)
      → Elem x (not_superseded cs (evaluate_rules rules e no_outcome).fired)
      → lookup x.code (evaluate_rules rules e no_outcome).fired ≡ some x
  unfolding recommend
  left-coded rules e cs x h =
      let fired = (evaluate_rules rules e no_outcome).fired in
      let (c, m, k) = not_superseded_sound cs fired x h in
      let (r, f, fires, same, y) =
        All-elem (Justified rules e) fired (fired_sound rules rules e no_outcome (λ q i. i) tt) m in
      let code : x.code ≡ c = ap (λ (q : Recommendation A). q.code) y ∙ sym same in
      subst (λ k. lookup k fired ≡ some x) (sym code)
        (Elem-lookup c x fired (evaluate_rules-NodupKeys rules e no_outcome tt) m)

  left-IsTotal :
      (rules : List (Rule A)) (e : Eval A) (cs : List Text)
      → IsTotal by_rank by_rank-IsWeakOrder by_rank-trans
          (not_superseded cs (evaluate_rules rules e no_outcome).fired)
  left-IsTotal rules e cs a b m n (h, k) =
      let i = left-coded rules e cs a m in
      let j = left-coded rules e cs b n in
      let same : a.code ≡ b.code = ground (arith, text_lt_total a.code b.code) in cc

  -- `analyzeWorkload` reports the same list in whatever order Go visits the findings that it
  -- gathered.
  pub report-perm :
      (g : Engine A) (e : Eval A) (fired' : Map (Recommendation A))
      → Permᴰ fired' (evaluate_rules (sorted_rules g) e no_outcome).fired
      → report (record {
        fired = fired';
        superseded = (evaluate_rules (sorted_rules g) e no_outcome).superseded;
      })
        ≡ report (evaluate_rules (sorted_rules g) e no_outcome)
  unfolding report
  report-perm g e fired' p =
      let o = evaluate_rules (sorted_rules g) e no_outcome in
      sort_by-perm by_rank by_rank-IsWeakOrder by_rank-trans (not_superseded-perm o.superseded p)
        (left-IsTotal (sorted_rules g) e o.superseded)
