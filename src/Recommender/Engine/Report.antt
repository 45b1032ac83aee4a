-- ===== src/Recommender/Engine/Report.antt =====
-- What `analyzeWorkload` reports: exactly the findings that no other finding supersedes, in a fixed
-- order.
use inference_fabric_autopil.Prelude.{
  true, false, ◌≡◌, sym, ◌⊎◌, ◌↔◌, inl, inr, some, List, [], ◌∷◌, Elem, All-elem, Bool-cases, arith,
}
use inference_fabric_autopil.Prelude.Int.{ℤ}
use inference_fabric_autopil.Prelude.Texts.{
  Text, text_eq, text_lt_asymm, text_lt_not_trans, text_eq→eq,
}
use inference_fabric_autopil.Prelude.Maps.{Map, lookup}
use inference_fabric_autopil.Prelude.Sort.{Elem-sort_by, IsSorted, IsWeakOrder, sort_by-IsSorted}
use inference_fabric_autopil.Telemetry.Snapshot.{Snapshot, Recommendation}
use inference_fabric_autopil.Recommender.Eval.{Eval}
use inference_fabric_autopil.Recommender.Rules.Defs.{Rule, Finding}
use inference_fabric_autopil.Recommender.Engine.{
  Engine, contains, recommend, evaluate_rules, no_outcome, not_superseded, report, by_rank, by_code,
  sorted_rules, analyze_workload,
}
use inference_fabric_autopil.Recommender.Engine.Findings.{
  contains-Elem, Fires, NodupCodes, NodupCodes-CodeDetermines, fired_complete, fired_sound,
  Justified, Supersedes, superseded_complete, superseded_sound,
}

module _ {A : Type 0} where
  pub not_superseded_sound :
      (cs : List Text) (m : Map (Recommendation A)) (x : Recommendation A)
      → Elem x (not_superseded cs m)
      → (c : Text) × Elem (c, x) m × (contains c cs ≡ false)
  unfolding not_superseded
  not_superseded_sound cs [] x h = absurd h
  not_superseded_sound cs ((c, y) ∷ m) x h = elim (Bool-cases (contains c cs)) [
    | inl gone ↦ later (not_superseded_sound cs m x (rw gone at h))
    | inr left ↦ first left (rw left at h) (not_superseded_sound cs m x)
  ]
    where
      later :
          ((d : Text) × Elem (d, x) m × (contains d cs ≡ false))
          → (d : Text) × Elem (d, x) ((c, y) ∷ m) × (contains d cs ≡ false)
      later (d, n, k) = (d, inr n, k)

      first :
          contains c cs ≡ false
          → (x ≡ y) ⊎ Elem x (not_superseded cs m)
          → (Elem x (not_superseded cs m) → (d : Text) × Elem (d, x) m × (contains d cs ≡ false))
          → (d : Text) × Elem (d, x) ((c, y) ∷ m) × (contains d cs ≡ false)
      first left (inl e) ih = (c, inl (λ i. (c, e i)), left)
      first left (inr n) ih = later (ih n)

  not_superseded_complete :
      (cs : List Text) (m : Map (Recommendation A)) (c : Text) (x : Recommendation A)
      → lookup c m ≡ some x
      → contains c cs ≡ false
      → Elem x (not_superseded cs m)
  unfolding not_superseded lookup
  not_superseded_complete cs [] c x h k = absurd (cc)
  not_superseded_complete cs ((d, y) ∷ m) c x h k = elim (Bool-cases (text_eq c d)) [
    | inl hit ↦
        let k' : contains d cs ≡ false = rw (sym (text_eq→eq c d hit)) k in
        rw k' (inl (ground arith))
    | inr miss ↦
        skip (Bool-cases (contains d cs)) (not_superseded_complete cs m c x (rw miss at h) k)
  ]
    where
      skip :
          (contains d cs ≡ true) ⊎ (contains d cs ≡ false)
          → Elem x (not_superseded cs m)
          → Elem x (not_superseded cs ((d, y) ∷ m))
      skip (inl gone) n = rw gone n
      skip (inr left) n = rw left (inr n)

  -- A rule of the set found it, and no rule that found something supersedes it.
  abbrev pub IsReported : List (Rule A) → Eval A → Recommendation A → Type 0
  IsReported rules e x =
      (r : Rule A) × (f : Finding A) × Fires rules e r f
      × (x ≡ recommend r f e.latest)
      × ¬ Supersedes rules e r.code

  abbrev pub context_of : Engine A → Snapshot A → List (Snapshot A) → ℤ → Eval A
  context_of g snap hist now = record { latest = snap; window = hist; t = g.t; now = now }

  pub Supersedes-sorted :
      (g : Engine A) (e : Eval A) (c : Text)
      → Supersedes (sorted_rules g) e c ↔ Supersedes g.rules e c
  unfolding sorted_rules
  Supersedes-sorted g e c = (
    λ (q, f, (m, h), s). (q, f, ((Elem-sort_by by_code q g.rules).0 m, h), s),
    λ (q, f, (m, h), s). (q, f, ((Elem-sort_by by_code q g.rules).1 m, h), s),
  )

  analyze_workload_sound :
      (g : Engine A) (snap : Snapshot A) (hist : List (Snapshot A)) (now : ℤ) (x : Recommendation A)
      → Elem x (analyze_workload g snap hist now)
      → IsReported g.rules (context_of g snap hist now) x
  unfolding analyze_workload report sorted_rules
  analyze_workload_sound g snap hist now x h =
      let e = context_of g snap hist now in
      let rules = sorted_rules g in
      let o = evaluate_rules rules e no_outcome in
      let (c, n, k) =
        not_superseded_sound o.superseded o.fired x ((Elem-sort_by by_rank x _).0 h) in
      let (r, f, (m, fires), same, y) =
        All-elem (Justified rules e) o.fired (fired_sound rules rules e no_outcome (λ q i. i) tt)
          n in
      (
        r,
        f,
        ((Elem-sort_by by_code r g.rules).0 m, fires),
        y,
        λ s.
            let s' =
              superseded_complete rules e no_outcome r.code
                (inr ((Supersedes-sorted g e r.code).1 s)) in
            let gone = (contains-Elem r.code o.superseded).1 s' in
            let left : contains r.code o.superseded ≡ false = rw (sym same) k in cc,
      )

  analyze_workload_complete :
      (g : Engine A) (snap : Snapshot A) (hist : List (Snapshot A)) (now : ℤ) (x : Recommendation A)
      → NodupCodes g.rules
      → IsReported g.rules (context_of g snap hist now) x
      → Elem x (analyze_workload g snap hist now)
  unfolding analyze_workload report sorted_rules
  analyze_workload_complete g snap hist now x d (r, f, (m, fires), y, left) =
      let e = context_of g snap hist now in
      let rules = sorted_rules g in
      let o = evaluate_rules rules e no_outcome in
      let found =
        fired_complete rules e no_outcome r f
          (λ q n h.
            NodupCodes-CodeDetermines g.rules r q d m ((Elem-sort_by by_code q g.rules).0 n) h)
          ((Elem-sort_by by_code r g.rules).1 m) fires in
      (Elem-sort_by by_rank x _).1 (
        not_superseded_complete o.superseded o.fired r.code x (rw y found)
          (kept (Bool-cases (contains r.code o.superseded))))
    where
      kept :
          let o = evaluate_rules (sorted_rules g) (context_of g snap hist now) no_outcome in
          (contains r.code o.superseded ≡ true) ⊎ (contains r.code o.superseded ≡ false)
          → contains r.code o.superseded ≡ false
      kept (inr k) = k
      kept (inl k) =
          let e = context_of g snap hist now in
          let o = evaluate_rules (sorted_rules g) e no_outcome in
          elim (superseded_sound (sorted_rules g) e no_outcome r.code
            ((contains-Elem r.code o.superseded).0 k)) [
              | inl none_before ↦ absurd none_before
              | inr s ↦ absurd (left ((Supersedes-sorted g e r.code).0 s))
            ]

  pub by_rank-IsWeakOrder : IsWeakOrder (by_rank {A = A})
  by_rank-IsWeakOrder = record {
    asymmetric = λ a b h. ground (arith, text_lt_asymm a.code b.code);
    not_trans = λ a b c h k. ground (arith, text_lt_not_trans a.code b.code c.code);
  }

  -- With rules of distinct codes, `analyzeWorkload` reports a recommendation exactly if a rule of the
  -- set that applies to the runtime found it and no rule that found something supersedes its
  -- code; and no recommendation stands before a more severe one, or before one of the same
  -- severity with a smaller code.
  pub analyze_workload_lem :
      (g : Engine A) (snap : Snapshot A) (hist : List (Snapshot A)) (now : ℤ) (x : Recommendation A)
      → NodupCodes g.rules
      → (Elem x (analyze_workload g snap hist now)
          ↔ IsReported g.rules (context_of g snap hist now) x)
        × IsSorted by_rank (analyze_workload g snap hist now)
  unfolding analyze_workload report
  analyze_workload_lem g snap hist now x d = (
    (analyze_workload_sound g snap hist now x, analyze_workload_complete g snap hist now x d),
    sort_by-IsSorted by_rank by_rank-IsWeakOrder _,
  )
