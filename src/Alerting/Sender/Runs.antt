-- ===== src/Alerting/Sender/Runs.antt =====
-- Every run of a sender from `New` keeps the invariant.
use inference_fabric_autopil.Prelude.{
  ℕ, suc, ◌+◌, ◌≡◌, refl, sym, ap, ◌∙◌, Bool, some, List, [], ◌∷◌, ◌++◌, length, length-append,
  Bool-cases, some-injective, subst, List-cases, inl, inr, arith,
}
use inference_fabric_autopil.Prelude.Texts.{Text}
use inference_fabric_autopil.Alerting.Payload.{Payload}
use inference_fabric_autopil.Alerting.Sender.{
  Sender, Options, new_sender, valid_severity, or_warning,
}
use inference_fabric_autopil.Alerting.Delivery.{Exchange, serve, deliver}
use inference_fabric_autopil.Alerting.Delivery.Attempts.{deliver-counts}
use inference_fabric_autopil.Alerting.Sender.View.{
  severities, view, view-append, Op, step, run, notifies, serves,
}
use inference_fabric_autopil.Alerting.Sender.Invariant.{IsValid, notify-IsValid}

module _ {A : Type 0} where
  -- One payload more was taken, and one more was counted.
  taken-IsValid :
      (log : List (Payload A)) (p : Payload A) (ps : List (Payload A)) (s t : Sender A)
      → s.queue ≡ p ∷ ps
      → IsValid log s
      → (t.queue ≡ ps) × (t.capacity ≡ s.capacity) × (t.open_alerts ≡ s.open_alerts)
      → suc (s.sent + s.failed) ≡ t.sent + t.failed
      → IsValid (log ++ p ∷ []) t
  unfolding view
  taken-IsValid log p ps s t e v (q, c, o) n =
      let len : length s.queue ≡ suc (length ps) = ap length e in
      record {
        bounded = rw (q, c) (let b = v.bounded in omega arith);
        distinct = rw o v.distinct;
        own = rw o v.own;
        seen =
            rw (q, o)
              (rw (view-append (log ++ p ∷ []) ps [], view-append log (p ∷ []) [])
                (sym (view-append log (p ∷ ps) [])
                  ∙ ap (λ x. view (log ++ x) []) (sym e)
                  ∙ v.seen));
        accounted = rw (length-append log (p ∷ [])) (let a = v.accounted in omega arith);
      }

  deliver-IsValid :
      (log : List (Payload A)) (p : Payload A) (ps : List (Payload A)) (net : ℕ → Exchange)
      (s : Sender A)
      → s.queue ≡ p ∷ ps
      → IsValid log s
      → IsValid (log ++ p ∷ []) (deliver net (record s { queue = ps })).1
  deliver-IsValid log p ps net s e v = elim (deliver-counts net (record s { queue = ps })) [
    | inl ok ↦ rw ok (taken-IsValid log p ps s _ e v (refl, refl, refl) (omega arith))
    | inr bad ↦ rw bad (taken-IsValid log p ps s _ e v (refl, refl, refl) (omega arith))
  ]

  append-nil : (log : List (Payload A)) → log ++ [] ≡ log
  append-nil [] = refl
  append-nil (p ∷ log) = ap (λ l. p ∷ l) (append-nil log)

  serve-IsValid :
      (log : List (Payload A)) (net : Payload A → ℕ → Exchange) (s : Sender A)
      → IsValid log s
      → IsValid (log ++ (serve net s).0) (serve net s).1
  unfolding serve
  serve-IsValid log net s v = elim (List-cases s.queue) [
    | inl e ↦ rw (e, serve) (rw (append-nil log) v)
    | inr (p, ps, e) ↦ rw (e, serve) (deliver-IsValid log p ps (net p) s e v)
  ]

  step-IsValid :
      (c : List (Payload A) × Sender A) (op : Op A)
      → IsValid c.0 c.1
      → IsValid (step c op).0 (step c op).1
  unfolding step
  step-IsValid (log, s) (notifies now recs) v = notify-IsValid log now recs s v
  step-IsValid (log, s) (serves net) v = serve-IsValid log net s v

  run-IsValid :
      (c : List (Payload A) × Sender A) (ops : List (Op A))
      → IsValid c.0 c.1
      → IsValid (run c ops).0 (run c ops).1
  unfolding run
  run-IsValid c [] v = v
  run-IsValid c (op ∷ ops) v = run-IsValid (step c op) ops (step-IsValid c op v)

  new_sender-IsValid :
      (valid_url : Text → Bool) (o : Options) (s : Sender A)
      → new_sender valid_url o ≡ some s
      → IsValid [] s
  unfolding new_sender severities view
  new_sender-IsValid valid_url o s e = elim (Bool-cases o.has_logger) [
    | inr unlogged ↦ let e' = rw (unlogged) at e in cc
    | inl logged ↦ elim (Bool-cases (valid_url o.url)) [
      | inr invalid ↦ let e' = rw (logged, invalid) at e in cc
      | inl valid ↦ elim (Bool-cases (valid_severity (or_warning o.min_severity))) [
        | inr unknown ↦ let e' = rw (logged, valid, unknown) at e in cc
        | inl known ↦
            let e' = rw (logged, valid, known) at e in
            subst (IsValid []) (some-injective _ _ e') (record {
              bounded = ground arith;
              distinct = tt;
              own = tt;
              seen = refl;
              accounted = refl;
            })
      ]
    ]
  ]

  -- After any sequence of evaluations handed to a sender made by `New` and of deliveries, whatever
  -- the endpoint answers: the queue is within its capacity; the open findings have distinct ids,
  -- their own; a subscriber that applies the payloads taken and queued, in order, sees exactly the
  -- open findings at their severities, even where payloads were dropped; and each payload taken
  -- was counted once, as sent or as failed.
  pub run-new_sender-IsValid :
      (valid_url : Text → Bool) (o : Options) (s : Sender A) (ops : List (Op A))
      → new_sender valid_url o ≡ some s
      → IsValid (run ([], s) ops).0 (run ([], s) ops).1
  run-new_sender-IsValid valid_url o s ops e =
      run-IsValid ([], s) ops (new_sender-IsValid valid_url o s e)
