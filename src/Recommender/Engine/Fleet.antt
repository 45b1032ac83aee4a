-- ===== src/Recommender/Engine/Fleet.antt =====
-- `Analyze` over the store: what it reports of a whole fleet.
use inference_fabric_autopil.Prelude.{
  ◌≡◌, refl, sym, ap, subst, ◌∙◌, ◌⊎◌, inl, inr, false, some, List, [], ◌∷◌, ◌++◌, get_last?, All,
  Elem, Elem-append_cases, arith,
}
use inference_fabric_autopil.Prelude.Int.{ℤ}
use inference_fabric_autopil.Prelude.Texts.{Text, text_eq, text_eq_refl}
use inference_fabric_autopil.Prelude.Sort.{Elem-sort_by}
use inference_fabric_autopil.Float.{Float64}
use inference_fabric_autopil.Float.Laws.{Lawful}
use inference_fabric_autopil.Telemetry.Snapshot.{Snapshot, Recommendation, key}
use inference_fabric_autopil.Telemetry.Store.{Store, latest, history}
use inference_fabric_autopil.Telemetry.Store.Retention.{IsValid}
use inference_fabric_autopil.Telemetry.Store.Queries.{latest_lem}
use inference_fabric_autopil.Recommender.Eval.{Eval}
use inference_fabric_autopil.Recommender.Thresholds.{Thresholds}
use inference_fabric_autopil.Recommender.Rules.Defs.{Rule, Finding, code_telemetry_stale}
use inference_fabric_autopil.Recommender.Rules.Catalogue.{default_rules}
use inference_fabric_autopil.Recommender.Rules.Observability.{telemetry_stale}
use inference_fabric_autopil.Recommender.Rules.Truthful.{
  IsTrue, measured_rules, default_rules-measured, finding_evidence,
}
use inference_fabric_autopil.Recommender.Engine.{
  Engine, recommend, finding_of, analyze_workload, or_alone, analyze_each, analyze,
}
use inference_fabric_autopil.Recommender.Engine.Report.{
  IsReported, context_of, analyze_workload_lem,
}
use inference_fabric_autopil.Recommender.Engine.Coverage.{default_engine, default_rules-NodupCodes}

module _ {A : Type 0} where
  -- A workload that the recommendation is about.
  abbrev From :
      Engine A → List (Snapshot A) → (Text → List (Snapshot A)) → ℤ → Recommendation A → Type 0
  From g snaps window now x =
      (snap : Snapshot A) × Elem snap snaps
      × Elem x (analyze_workload g snap (or_alone snap (window (key snap))) now)

  analyze_each-From :
      (g : Engine A) (snaps : List (Snapshot A)) (window : Text → List (Snapshot A)) (now : ℤ)
      (x : Recommendation A)
      → Elem x (analyze_each g snaps window now)
      → From g snaps window now x
  unfolding analyze_each
  analyze_each-From g [] window now x m = absurd m
  analyze_each-From g (snap ∷ snaps) window now x m =
      here (Elem-append_cases x _ (analyze_each g snaps window now) m)
        (analyze_each-From g snaps window now x)
    where
      here :
          Elem x (analyze_workload g snap (or_alone snap (window (key snap))) now)
            ⊎ Elem x (analyze_each g snaps window now)
          → (Elem x (analyze_each g snaps window now) → From g snaps window now x)
          → From g (snap ∷ snaps) window now x
      here (inl own) ih = (snap, inl refl, own)
      here (inr n) ih = let (other, i, f) = ih n in (other, inr i, f)

  or_alone_lem :
      (snap : Snapshot A) (hist : List (Snapshot A))
      → get_last? hist ≡ some snap
      → or_alone snap hist ≡ hist
  unfolding or_alone
  or_alone_lem snap [] h = cc
  or_alone_lem snap (x ∷ xs) h = refl

module _ {A : Type 0} ⦃F : Float64 A⦄ where
  -- What `Analyze` reports, with the store's latest snapshots and histories, comes from the newest
  -- snapshot of a workload at the end of that workload's history.
  analyze-IsReported :
      (t : Thresholds A) (s : Store A) (now : ℤ) (x : Recommendation A)
      → IsValid s
      → Elem x (analyze (default_engine t) (latest s) (history s) now)
      → (snap : Snapshot A) × (get_last? (history s (key snap)) ≡ some snap)
        × IsReported default_rules (context_of (default_engine t) snap (history s (key snap)) now) x
  unfolding analyze
  analyze-IsReported t s now x v m =
      let g = default_engine t in
      let (snap, i, own) = analyze_each-From g _ (history s) now x m in
      let last = (latest_lem s snap v).1.0 ((Elem-sort_by _ snap (latest s)).0 i) in
      let own' : Elem x (analyze_workload g snap (history s (key snap)) now) =
        rw (sym (or_alone_lem snap (history s (key snap)) last)) own in
      (
        snap,
        last,
        (analyze_workload_lem g snap (history s (key snap)) now x (default_rules-NodupCodes A)).0.0
            own',
      )

module _ {A : Type 0} ⦃F : Float64 A⦄ (laws : Lawful F) where
  found_of : (r : Rule A) (e : Eval A) (f : Finding A) → finding_of r e ≡ some f → r.eval e ≡ some f
  unfolding finding_of
  found_of r e f h = ground arith

  reported-IsTrue :
      (e : Eval A) (x : Recommendation A)
      → get_last? e.window ≡ some e.latest
      → IsReported default_rules e x
      → text_eq x.code code_telemetry_stale ≡ false
      → All IsTrue x.evidence
  unfolding recommend finding_of telemetry_stale
  reported-IsTrue e x c (r, f, (m, fires), y, left) h =
      let m' : Elem r (measured_rules ++ telemetry_stale ∷ []) =
        subst (Elem r) default_rules-measured m in
      let shown : x.evidence ≡ f.evidence = ap (λ (q : Recommendation A). q.evidence) y in
      let code : x.code ≡ r.code = ap (λ (q : Recommendation A). q.code) y in
      let found : r.eval e ≡ some f = found_of r e f fires in
      elim (Elem-append_cases r measured_rules (telemetry_stale ∷ []) m') [
        | inl i ↦ subst (All IsTrue) (sym shown) (finding_evidence laws r e f i c found)
        | inr (inl stale) ↦
            let same : x.code ≡ code_telemetry_stale = code ∙ ap (λ (q : Rule A). q.code) stale in
            absurd (let yes = text_eq_refl code_telemetry_stale in let no = rw same at h in cc)
        | inr (inr none_left) ↦ absurd none_left
      ]

  -- Every recommendation of `Analyze` over a valid store, but that of `telemetry_stale`, comes
  -- from the newest snapshot of a workload, by a default rule that no rule that found something
  -- supersedes, and no comparison that its evidence shows is contradicted by the numbers beside it.
  pub analyze-store :
      (t : Thresholds A) (s : Store A) (now : ℤ) (x : Recommendation A)
      → IsValid s
      → Elem x (analyze (default_engine t) (latest s) (history s) now)
      → text_eq x.code code_telemetry_stale ≡ false
      → (snap : Snapshot A) × (get_last? (history s (key snap)) ≡ some snap)
        × IsReported default_rules (context_of (default_engine t) snap (history s (key snap)) now) x
        × All IsTrue x.evidence
  analyze-store t s now x v m h =
      let (snap, last, from) = analyze-IsReported t s now x v m in
      (snap, last, from, reported-IsTrue _ x last from h)
