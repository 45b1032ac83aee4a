-- ===== src/Recommender/Engine/Coverage.antt =====
-- The default rules never silence one another altogether.
use inference_fabric_autopil.Prelude.{
  ℕ, zero, suc, ◌-◌, ◌<◌, ◌≤◌, true, ◌≡◌, refl, ◌⊎◌, inl, inr, List, [], ◌∷◌, Elem, all, all-Elem,
  Bool-cases, arith, if◌then◌else◌, ltb,
}
use inference_fabric_autopil.Prelude.Int.{ℤ}
use inference_fabric_autopil.Prelude.Texts.{Text, text_eq}
use inference_fabric_autopil.Float.{Float64}
use inference_fabric_autopil.Telemetry.Snapshot.{Snapshot, Recommendation}
use inference_fabric_autopil.Recommender.Eval.{Eval}
use inference_fabric_autopil.Recommender.Thresholds.{Thresholds}
use inference_fabric_autopil.Recommender.Rules.Defs.{
  Rule, Finding, code_queue_with_saturated_gpu, code_queue_with_idle_gpu, code_queue_deferred,
  code_kv_preemption, code_ttft_admission_bound, code_ttft_prefill_bound, code_at_replica_ceiling,
}
use inference_fabric_autopil.Recommender.Rules.Catalogue.{default_rules}
use inference_fabric_autopil.Recommender.Engine.{
  Engine, contains, recommend, analyze_workload, sorted_rules, evaluate_rules, no_outcome,
}
use inference_fabric_autopil.Recommender.Engine.Findings.{
  Fires, NodupCodes, Supersedes, contains-Elem, superseded_sound, superseded_complete,
}
use inference_fabric_autopil.Recommender.Engine.Report.{
  context_of, IsReported, analyze_workload_lem, Supersedes-sorted,
}

-- How far a code stands above what its rule supersedes.
height : Text → ℕ
height c =
    if contains c (code_queue_deferred ∷ code_at_replica_ceiling ∷ [])
    then 2
    else if contains c (
        code_queue_with_saturated_gpu ∷ code_queue_with_idle_gpu ∷ code_kv_preemption
        ∷ code_ttft_admission_bound ∷ code_ttft_prefill_bound ∷ [])
    then 1
    else 0

height-le : (c : Text) → height c ≤ 2
unfolding height
height-le c = ground arith

module _ (A : Type 0) ⦃F : Float64 A⦄ where
  rules_up :
      all (λ (q : Rule A). all (λ c. ltb (height c) (height q.code)) q.supersedes) default_rules
      ≡ true
  unfolding default_rules height contains text_eq
  rules_up = refl

  -- The default rules have distinct codes.
  pub default_rules-NodupCodes : NodupCodes (default_rules {A = A})
  unfolding default_rules text_eq
  default_rules-NodupCodes = assumption (refl, tt)

module _ {A : Type 0} ⦃F : Float64 A⦄ where
  supersedes_up :
      (q : Rule A) (c : Text)
      → Elem q default_rules
      → Elem c q.supersedes
      → height c < height q.code
  supersedes_up q c m s =
      let up =
        all-Elem (λ (c' : Text). ltb (height c') (height q.code)) q.supersedes
          (all-Elem (λ (p : Rule A). all (λ c'. ltb (height c') (height p.code)) p.supersedes)
            default_rules (rules_up A) m)
          s in
      ground arith

  -- `NewEngine`
  abbrev pub default_engine : Thresholds A → Engine A
  default_engine t = record { rules = default_rules; t = t }

  -- Whether a code is superseded is decided by the set that the loop collects.
  superseded_cases :
      (g : Engine A) (e : Eval A) (c : Text) → Supersedes g.rules e c ⊎ (¬ Supersedes g.rules e c)
  superseded_cases g e c =
      let rules = sorted_rules g in
      let o = evaluate_rules rules e no_outcome in
      elim (Bool-cases (contains c o.superseded)) [
        | inl gone ↦
            elim (superseded_sound rules e no_outcome c ((contains-Elem c o.superseded).0 gone)) [
              | inl none_before ↦ absurd none_before
              | inr s ↦ inl ((Supersedes-sorted g e c).0 s)
            ]
        | inr left ↦ inr λ s.
            let gone =
              (contains-Elem c o.superseded).1
                (superseded_complete rules e no_outcome c (inr ((Supersedes-sorted g e c).1 s))) in
            cc
      ]

  climb :
      (fuel : ℕ) (t : Thresholds A) (e : Eval A) (r : Rule A) (f : Finding A)
      → Fires default_rules e r f
      → 2 - height r.code < fuel
      → (x : Recommendation A) × IsReported default_rules e x
  climb zero t e r f m h = absurd (omega arith)
  climb (suc fuel) t e r f m h = elim (superseded_cases (default_engine t) e r.code) [
    | inr free ↦ (recommend r f e.latest, (r, f, m, refl, free))
    | inl (q, f', n, s) ↦
        climb fuel t e q f' n (omega (arith, supersedes_up q r.code n.0 s, height-le q.code))
  ]

  -- Whenever a default rule finds something in a workload, the default rules report something on
  -- it: no finding is superseded without one that stays.
  pub default_rules_report :
      (t : Thresholds A) (snap : Snapshot A) (hist : List (Snapshot A)) (now : ℤ) (r : Rule A)
      (f : Finding A)
      → Fires default_rules (context_of (default_engine t) snap hist now) r f
      → (x : Recommendation A) × Elem x (analyze_workload (default_engine t) snap hist now)
  default_rules_report t snap hist now r f m =
      let g = default_engine t in
      let (x, n) = climb 3 t (context_of g snap hist now) r f m (omega arith) in
      (x, (analyze_workload_lem g snap hist now x (default_rules-NodupCodes A)).0.1 n)
