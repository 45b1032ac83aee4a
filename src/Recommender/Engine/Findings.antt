-- ===== src/Recommender/Engine/Findings.antt =====
-- What the loop over the rules records.
use inference_fabric_autopil.Prelude.{
  true, false, ◌≡◌, refl, sym, ◌∙◌, ◌⊎◌, ◌↔◌, inl, inr, none, some, List, [], ◌∷◌, Elem, All,
  All-elem, Elem-append_cases, Elem-append_left, Elem-append_right, Bool-cases, Option-cases, arith,
}
use inference_fabric_autopil.Prelude.Texts.{Text, text_eq, text_eq→eq, text_eq_refl, text_eq_iff}
use inference_fabric_autopil.Prelude.Maps.{
  lookup, lookup-insert, NodupKeys, NodupKeys-insert, All-insert,
}
use inference_fabric_autopil.Telemetry.Snapshot.{Recommendation}
use inference_fabric_autopil.Recommender.Eval.{Eval}
use inference_fabric_autopil.Recommender.Rules.Defs.{Rule, Finding}
use inference_fabric_autopil.Recommender.Engine.{
  Outcome, contains, finding_of, recommend, evaluate_rule, evaluate_rules,
}

pub contains-Elem : (c : Text) (cs : List Text) → (contains c cs ≡ true) ↔ Elem c cs
unfolding contains
contains-Elem c cs = (to cs, from cs)
  where
    to : (ds : List Text) → contains c ds ≡ true → Elem c ds
    to [] h = absurd (cc)
    to (d ∷ ds) h = elim (Bool-cases (text_eq d c)) [
      | inl hit ↦ inl (sym (text_eq→eq d c hit))
      | inr miss ↦ inr (to ds (rw miss at h))
    ]

    from : (ds : List Text) → Elem c ds → contains c ds ≡ true
    from [] h = absurd h
    from (d ∷ ds) (inl e) = ground (arith, text_eq_iff d c)
    from (d ∷ ds) (inr m) = ground (arith, from ds m)

module _ {A : Type 0} where
  -- A rule of the list that finds something.
  abbrev pub Fires : List (Rule A) → Eval A → Rule A → Finding A → Type 0
  Fires rules e r f = Elem r rules × (finding_of r e ≡ some f)

  -- No rule of the list has this code.
  abbrev pub IsFresh : Text → List (Rule A) → Type 0
  IsFresh c = All (λ r. text_eq c r.code ≡ false)

  abbrev pub NodupCodes : List (Rule A) → Type 0
  NodupCodes [] = Unit
  NodupCodes (r ∷ rs) = IsFresh r.code rs × NodupCodes rs

  lookup-evaluate_rule :
      (c : Text) (r : Rule A) (e : Eval A) (o : Outcome A)
      → text_eq c r.code ≡ false
      → lookup c (evaluate_rule r e o).fired ≡ lookup c o.fired
  unfolding evaluate_rule
  lookup-evaluate_rule c r e o h = elim (Option-cases (finding_of r e)) [
    | inl quiet ↦ rw (quiet, evaluate_rule) refl
    | inr (f, fires) ↦
        rw (fires, evaluate_rule)
          (rw (lookup-insert r.code c (recommend r f e.latest) o.fired) (rw h refl))
  ]

  lookup-evaluate_rules :
      (c : Text) (rs : List (Rule A)) (e : Eval A) (o : Outcome A)
      → IsFresh c rs
      → lookup c (evaluate_rules rs e o).fired ≡ lookup c o.fired
  unfolding evaluate_rules
  lookup-evaluate_rules c [] e o h = refl
  lookup-evaluate_rules c (r ∷ rs) e o h =
      lookup-evaluate_rules c rs e (evaluate_rule r e o) h.1 ∙ lookup-evaluate_rule c r e o h.0

  evaluate_rule_self :
      (r : Rule A) (e : Eval A) (o : Outcome A) (f : Finding A)
      → finding_of r e ≡ some f
      → lookup r.code (evaluate_rule r e o).fired ≡ some (recommend r f e.latest)
  unfolding evaluate_rule
  evaluate_rule_self r e o f fires =
      rw (fires, evaluate_rule)
        (rw (lookup-insert r.code r.code (recommend r f e.latest) o.fired)
          (rw (text_eq_refl r.code) refl))

  -- Among the rules of the list the code tells which rule it is.
  abbrev pub CodeDetermines : Rule A → List (Rule A) → Type 0
  CodeDetermines r rs = (q : Rule A) → Elem q rs → text_eq r.code q.code ≡ true → q ≡ r

  evaluate_rule-keeps :
      (q r : Rule A) (e : Eval A) (o : Outcome A) (f : Finding A)
      → (text_eq r.code q.code ≡ true → q ≡ r)
      → finding_of r e ≡ some f
      → lookup r.code o.fired ≡ some (recommend r f e.latest)
      → lookup r.code (evaluate_rule q e o).fired ≡ some (recommend r f e.latest)
  evaluate_rule-keeps q r e o f one h l = elim (Bool-cases (text_eq r.code q.code)) [
    | inl hit ↦ rw (one hit) (evaluate_rule_self r e o f h)
    | inr miss ↦ lookup-evaluate_rule r.code q e o miss ∙ l
  ]

  evaluate_rules-keeps :
      (rs : List (Rule A)) (r : Rule A) (e : Eval A) (o : Outcome A) (f : Finding A)
      → CodeDetermines r rs
      → finding_of r e ≡ some f
      → lookup r.code o.fired ≡ some (recommend r f e.latest)
      → lookup r.code (evaluate_rules rs e o).fired ≡ some (recommend r f e.latest)
  unfolding evaluate_rules
  evaluate_rules-keeps [] r e o f d h l = l
  evaluate_rules-keeps (q ∷ rs) r e o f d h l =
      evaluate_rules-keeps rs r e (evaluate_rule q e o) f (λ p m. d p (inr m)) h
        (evaluate_rule-keeps q r e o f (d q (inl refl)) h l)

  -- Each rule that finds something has its recommendation under its code.
  pub fired_complete :
      (rs : List (Rule A)) (e : Eval A) (o : Outcome A) (r : Rule A) (f : Finding A)
      → CodeDetermines r rs
      → Elem r rs
      → finding_of r e ≡ some f
      → lookup r.code (evaluate_rules rs e o).fired ≡ some (recommend r f e.latest)
  unfolding evaluate_rules
  fired_complete [] e o r f d m h = absurd m
  fired_complete (q ∷ rs) e o r f d (inl same) h =
      evaluate_rules-keeps rs r e (evaluate_rule q e o) f (λ p m. d p (inr m)) h
        (rw (sym same) (evaluate_rule_self r e o f h))
  fired_complete (q ∷ rs) e o r f d (inr m) h =
      fired_complete rs e (evaluate_rule q e o) r f (λ p n. d p (inr n)) m h

  -- The recommendation under a code comes from a rule with that code.
  abbrev pub Justified : List (Rule A) → Eval A → Text × Recommendation A → Type 0
  Justified rules e (c, x) =
      (r : Rule A) × (f : Finding A) × Fires rules e r f
      × (c ≡ r.code)
      × (x ≡ recommend r f e.latest)

  pub fired_sound :
      (rules rs : List (Rule A)) (e : Eval A) (o : Outcome A)
      → ((r : Rule A) → Elem r rs → Elem r rules)
      → All (Justified rules e) o.fired
      → All (Justified rules e) (evaluate_rules rs e o).fired
  unfolding evaluate_rules evaluate_rule
  fired_sound rules [] e o sub h = h
  fired_sound rules (r ∷ rs) e o sub h =
      fired_sound rules rs e (evaluate_rule r e o) (λ q m. sub q (inr m))
        (one (Option-cases (finding_of r e)))
    where
      one :
          (finding_of r e ≡ none) ⊎ ((f : Finding A) × (finding_of r e ≡ some f))
          → All (Justified rules e) (evaluate_rule r e o).fired
      one (inl quiet) = rw (quiet, evaluate_rule) h
      one (inr (f, fires)) =
          rw (fires, evaluate_rule)
            (All-insert (Justified rules e) r.code (recommend r f e.latest) o.fired
              (r, f, (sub r (inl refl), fires), refl, refl) h)

  evaluate_rule-NodupKeys :
      (r : Rule A) (e : Eval A) (o : Outcome A)
      → NodupKeys o.fired
      → NodupKeys (evaluate_rule r e o).fired
  unfolding evaluate_rule
  evaluate_rule-NodupKeys r e o h = elim (Option-cases (finding_of r e)) [
    | inl quiet ↦ rw (quiet, evaluate_rule, NodupKeys) h
    | inr (f, fires) ↦
        rw (fires, evaluate_rule, NodupKeys)
          (NodupKeys-insert r.code (recommend r f e.latest) o.fired h)
  ]

  pub evaluate_rules-NodupKeys :
      (rs : List (Rule A)) (e : Eval A) (o : Outcome A)
      → NodupKeys o.fired
      → NodupKeys (evaluate_rules rs e o).fired
  unfolding evaluate_rules
  evaluate_rules-NodupKeys [] e o h = h
  evaluate_rules-NodupKeys (r ∷ rs) e o h =
      evaluate_rules-NodupKeys rs e (evaluate_rule r e o) (evaluate_rule-NodupKeys r e o h)

  -- A rule that finds something and supersedes a code.
  abbrev pub Supersedes : List (Rule A) → Eval A → Text → Type 0
  Supersedes rules e c = (q : Rule A) × (f : Finding A) × Fires rules e q f × Elem c q.supersedes

  pub superseded_complete :
      (rs : List (Rule A)) (e : Eval A) (o : Outcome A) (c : Text)
      → Elem c o.superseded ⊎ Supersedes rs e c
      → Elem c (evaluate_rules rs e o).superseded
  unfolding evaluate_rules evaluate_rule
  superseded_complete [] e o c (inl m) = m
  superseded_complete [] e o c (inr (q, f, (m, h), s)) = absurd m
  superseded_complete (r ∷ rs) e o c h = superseded_complete rs e (evaluate_rule r e o) c (go h)
    where
      go :
          Elem c o.superseded ⊎ Supersedes (r ∷ rs) e c
          → Elem c (evaluate_rule r e o).superseded ⊎ Supersedes rs e c
      go (inl m) = elim (Option-cases (finding_of r e)) [
        | inl quiet ↦ rw (quiet, evaluate_rule) (inl m)
        | inr (f, fires) ↦
            rw (fires, evaluate_rule) (inl (Elem-append_left c o.superseded r.supersedes m))
      ]
      go (inr (q, f, (inl same, fires), s)) =
          let fires' : finding_of r e ≡ some f = rw (sym same) fires in
          let s' : Elem c r.supersedes = rw (sym same) s in
          rw (fires', evaluate_rule) (inl (Elem-append_right c o.superseded r.supersedes s'))
      go (inr (q, f, (inr m, fires), s)) = inr (q, f, (m, fires), s)

  pub superseded_sound :
      (rs : List (Rule A)) (e : Eval A) (o : Outcome A) (c : Text)
      → Elem c (evaluate_rules rs e o).superseded
      → Elem c o.superseded ⊎ Supersedes rs e c
  unfolding evaluate_rules evaluate_rule
  superseded_sound [] e o c m = inl m
  superseded_sound (r ∷ rs) e o c m = elim (superseded_sound rs e (evaluate_rule r e o) c m) [
    | inr (q, f, (n, fires), s) ↦ inr (q, f, (inr n, fires), s)
    | inl n ↦ elim (Option-cases (finding_of r e)) [
      | inl quiet ↦ inl (rw (quiet, evaluate_rule) at n)
      | inr (f, fires) ↦
          elim (Elem-append_cases c o.superseded r.supersedes (rw (fires, evaluate_rule) at n)) [
            | inl old ↦ inl old
            | inr new ↦ inr (r, f, (inl refl, fires), new)
          ]
    ]
  ]

  codes_differ :
      (p q r : Rule A) → text_eq p.code r.code ≡ false → q ≡ p → text_eq r.code q.code ≡ true → ⊥
  codes_differ p q r d k h =
      let h' : text_eq r.code p.code ≡ true = rw (sym k) h in
      ground (arith, text_eq_iff r.code p.code, text_eq_iff p.code r.code)

  pub NodupCodes-CodeDetermines :
      (rs : List (Rule A)) (r q : Rule A)
      → NodupCodes rs
      → Elem r rs
      → Elem q rs
      → text_eq r.code q.code ≡ true
      → q ≡ r
  NodupCodes-CodeDetermines [] r q d m n h = absurd m
  NodupCodes-CodeDetermines (p ∷ rs) r q d (inl e) (inl k) h = k ∙ sym e
  NodupCodes-CodeDetermines (p ∷ rs) r q d (inl e) (inr n) h =
      let differ = All-elem (λ x. text_eq p.code x.code ≡ false) rs d.0 n in
      let h' : text_eq p.code q.code ≡ true = rw (sym e) h in absurd (cc)
  NodupCodes-CodeDetermines (p ∷ rs) r q d (inr m) (inl k) h =
      absurd (codes_differ p q r (All-elem (λ x. text_eq p.code x.code ≡ false) rs d.0 m) k h)
  NodupCodes-CodeDetermines (p ∷ rs) r q d (inr m) (inr n) h =
      NodupCodes-CodeDetermines rs r q d.1 m n h
