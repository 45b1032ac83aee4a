-- ===== src/Collector/Target/Distinct.antt =====
-- The targets that a collector accepts.
use inference_fabric_autopil.Prelude.{
  ◌≡◌, Bool, true, false, Option, some, some-injective, List, [], ◌∷◌, All, Bool-cases, inl, inr,
  arith, subst,
}
use inference_fabric_autopil.Prelude.Int.{leb_ℤ}
use inference_fabric_autopil.Prelude.Texts.{Text, text_eq, text_eq_iff}
use inference_fabric_autopil.Recommender.Engine.{contains}
use inference_fabric_autopil.Alerting.Url.{Url}
use inference_fabric_autopil.Collector.Target.{
  Target, target_key, validate_target, CollectorOptions, with_defaults, accept_targets,
  new_collector,
}

-- No two targets of the list have the same key.
abbrev pub IsDistinct : List Target → Type 0
IsDistinct [] = Unit
IsDistinct (t ∷ ts) = All (λ u. text_eq (target_key u) (target_key t) ≡ false) ts × IsDistinct ts

module _ (parse : Text → Option Url) where
  accept_targets_unseen :
      (seen : List Text) (ts : List Target)
      → accept_targets parse seen ts ≡ true
      → All (λ t. contains (target_key t) seen ≡ false) ts
  unfolding accept_targets contains
  accept_targets_unseen seen [] h = tt
  accept_targets_unseen seen (t ∷ ts) h = (
    ground arith,
    weaken (target_key t) seen ts (accept_targets_unseen (target_key t ∷ seen) ts (ground arith)),
  )
    where
      weaken :
          (k : Text) (seen : List Text) (us : List Target)
          → All (λ u. contains (target_key u) (k ∷ seen) ≡ false) us
          → All (λ u. contains (target_key u) seen ≡ false) us
      weaken k seen [] a = tt
      weaken k seen (u ∷ us) a = (ground arith, weaken k seen us a.1)

  accept_targets_lem :
      (seen : List Text) (ts : List Target)
      → accept_targets parse seen ts ≡ true
      → IsDistinct ts × All (λ t. validate_target parse t ≡ true) ts
  unfolding accept_targets contains
  accept_targets_lem seen [] h = (tt, tt)
  accept_targets_lem seen (t ∷ ts) h =
      let rest : accept_targets parse (target_key t ∷ seen) ts ≡ true = ground arith in
      let (distinct, valid) = accept_targets_lem (target_key t ∷ seen) ts rest in
      (
        (others t ts (accept_targets_unseen (target_key t ∷ seen) ts rest), distinct),
        (ground arith, valid),
      )
    where
      others :
          (t : Target) (us : List Target)
          → All (λ u. contains (target_key u) (target_key t ∷ seen) ≡ false) us
          → All (λ u. text_eq (target_key u) (target_key t) ≡ false) us
      others t [] a = tt
      others t (u ∷ us) a = (
        ground (
          arith,
          text_eq_iff (target_key t) (target_key u),
          text_eq_iff (target_key u) (target_key t),
        ),
        others t us a.1,
      )

  -- A collector that `New` makes has targets that pass `Validate`, no two of them with the same key,
  -- and a scrape timeout shorter than its interval, the defaults included.
  pub new_collector_lem :
      (has_store : Bool) (ts kept : List Target) (o opts : CollectorOptions)
      → new_collector parse has_store ts o ≡ some (kept, opts)
      → IsDistinct kept
        × All (λ t. validate_target parse t ≡ true) kept
        × (leb_ℤ opts.interval opts.timeout ≡ false)
  unfolding new_collector with_defaults
  new_collector_lem has_store ts kept o opts e = elim (Bool-cases has_store) [
    | inr storeless ↦ absurd (let e' = rw storeless at e in cc)
    | inl stored ↦ elim (Bool-cases (with_defaults o).has_logger) [
      | inr unlogged ↦ absurd (let e' = rw (stored, unlogged) at e in cc)
      | inl logged ↦
          elim (Bool-cases (leb_ℤ (with_defaults o).interval (with_defaults o).timeout)) [
            | inl slow ↦ absurd (let e' = rw (stored, logged, slow) at e in cc)
            | inr fast ↦ elim (Bool-cases (accept_targets parse [] ts)) [
              | inr refused ↦ absurd (let e' = rw (stored, logged, fast, refused) at e in cc)
              | inl accepted ↦
                  let e' = rw (stored, logged, fast, accepted) at e in
                  let same = some-injective _ _ e' in
                  let (distinct, valid) = accept_targets_lem [] ts accepted in
                  subst
                    (λ (q : List Target × CollectorOptions).
                      IsDistinct q.0
                      × All (λ t. validate_target parse t ≡ true) q.0
                      × (leb_ℤ q.1.interval q.1.timeout ≡ false))
                    same (distinct, valid, fast)
            ]
          ]
    ]
  ]
