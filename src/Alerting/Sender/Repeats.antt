-- ===== src/Alerting/Sender/Repeats.antt =====
-- What `Notify` leaves open, and that a second call with the same findings sends nothing.
use inference_fabric_autopil.Prelude.{
  ◌≡◌, refl, sym, ap, ◌∙◌, true, false, List, [], ◌∷◌, All, All-of_Elem, All-elem, Elem, Bool-cases,
  inl, inr, arith, is_some,
}
use inference_fabric_autopil.Prelude.Int.{ℤ}
use inference_fabric_autopil.Prelude.Texts.{Text, text_eq, text_eq_iff}
use inference_fabric_autopil.Prelude.Maps.{lookup, NodupKeys, Elem-lookup}
use inference_fabric_autopil.Telemetry.Snapshot.{Recommendation}
use inference_fabric_autopil.Recommender.Engine.{contains}
use inference_fabric_autopil.Alerting.Payload.{OpenAlert}
use inference_fabric_autopil.Alerting.Sender.{
  Sender, note_present, note_one, note_all, too_mild, notify,
}
use inference_fabric_autopil.Alerting.Sender.Noted.{
  known, wanted, heard, wanted-min, note_all-frame, note_all-heard, note_all-present, wanted-open,
  note_all-distinct, heard-note_one,
}
use inference_fabric_autopil.Alerting.Sender.Resolved.{
  resolve_all-frame, resolve_all-kept, resolve_all-distinct, resolve_all-closed, resolve_all-quiet,
  IsLeft-start,
}

module _ {A : Type 0} where
  -- If an evaluation drops no payload, then the findings that are open after it are exactly
  -- those of the evaluation that are severe enough.
  pub notify-open :
      (now : ℤ) (recs : List (Recommendation A)) (s : Sender A) (id : Text)
      → NodupKeys s.open_alerts
      → (notify now recs s).dropped ≡ s.dropped
      → is_some (lookup id (notify now recs s).open_alerts) ≡ contains id (wanted s recs)
  unfolding notify contains
  notify-open now recs s id d n =
      let acc = note_all now recs ([], s) in
      let (m, le) = note_all-frame now recs ([], s) in
      let (m', le') = resolve_all-frame now acc.0 acc.1.open_alerts acc.1 in
      let present = note_all-present now recs ([], s) id in
      let all_heard = note_all-heard now recs ([], s) (omega arith) in
      let same = wanted-min acc.1 s recs m in
      let distinct = note_all-distinct now recs ([], s) d in
      elim (Bool-cases (contains id (wanted s recs))) [
        | inl want ↦
            let some_open = wanted-open acc.1 recs id all_heard (rw same want) in
            let kept =
              resolve_all-kept now acc.0 acc.1.open_alerts acc.1 id (ground (arith, present)) in
            rw kept (some_open ∙ sym want)
        | inr other ↦
            rw
              (resolve_all-closed now acc.0 acc.1.open_alerts acc.1 id distinct
                (ground (arith, present)) (omega arith) (IsLeft-start id acc.1))
              (sym other)
      ]

  wanted-Elem :
      (s : Sender A) (recs : List (Recommendation A)) (rec : Recommendation A)
      → Elem rec recs
      → too_mild s rec ≡ false
      → contains rec.id (wanted s recs) ≡ true
  unfolding wanted contains
  wanted-Elem s [] rec m h = absurd m
  wanted-Elem s (r ∷ recs) rec (inl e) h =
      let h' : too_mild s r ≡ false = rw (sym e) h in
      let same : text_eq r.id rec.id ≡ true =
        (text_eq_iff r.id rec.id).1 (ap (λ (q : Recommendation A). q.id) (sym e)) in
      rw (h', same) refl
  wanted-Elem s (r ∷ recs) rec (inr m) h = ground (arith, wanted-Elem s recs rec m h)

  heard-notify :
      (now : ℤ) (recs : List (Recommendation A)) (s : Sender A) (rec : Recommendation A)
      → Elem rec recs
      → heard (note_all now recs ([], s)).1 rec ≡ true
      → heard (notify now recs s) rec ≡ true
  unfolding notify heard known too_mild contains
  heard-notify now recs s rec m h =
      let acc = note_all now recs ([], s) in
      let (same, le) = note_all-frame now recs ([], s) in
      let (same', le') = resolve_all-frame now acc.0 acc.1.open_alerts acc.1 in
      elim (Bool-cases (too_mild s rec)) [
        | inl mild ↦ ground arith
        | inr fine ↦
            let present = note_all-present now recs ([], s) rec.id in
            let want = wanted-Elem s recs rec m fine in
            let kept = resolve_all-kept now acc.0 acc.1.open_alerts acc.1 rec.id (ground arith) in
            ground arith
      ]

  -- Nothing but the count of suppressed repeats differs.
  abbrev pub IsQuiet : Sender A → Sender A → Type 0
  IsQuiet s t = (t.queue ≡ s.queue) × (t.open_alerts ≡ s.open_alerts) × (t.dropped ≡ s.dropped)

  note_one-IsQuiet :
      (now : ℤ) (rec : Recommendation A) (acc : List Text × Sender A)
      → heard acc.1 rec ≡ true
      → IsQuiet acc.1 (note_one now rec acc).1
  unfolding note_one note_present heard known
  note_one-IsQuiet now rec acc h = (ground arith, ground arith, ground arith)

  note_all-IsQuiet :
      (now : ℤ) (recs : List (Recommendation A)) (acc : List Text × Sender A)
      → All (λ rec. heard acc.1 rec ≡ true) recs
      → IsQuiet acc.1 (note_all now recs acc).1
  unfolding note_all
  note_all-IsQuiet now [] acc h = (refl, refl, refl)
  note_all-IsQuiet now (rec ∷ recs) acc h =
      let (q, o, d) = note_one-IsQuiet now rec acc h.0 in
      let (q', o', d') = note_all-IsQuiet now recs (note_one now rec acc) (later recs h.1) in
      (q' ∙ q, o' ∙ o, d' ∙ d)
    where
      later :
          (rs : List (Recommendation A))
          → All (λ r. heard acc.1 r ≡ true) rs
          → All (λ r. heard (note_one now rec acc).1 r ≡ true) rs
      later [] h = tt
      later (r ∷ rs) h = (heard-note_one now rec r acc h.0, later rs h.1)

  heard_again :
      (now : ℤ) (recs : List (Recommendation A)) (s : Sender A)
      → (notify now recs s).dropped ≡ s.dropped
      → (rec : Recommendation A) → Elem rec recs
      → heard (notify now recs s) rec ≡ true
  unfolding notify
  heard_again now recs s n rec m =
      let acc = note_all now recs ([], s) in
      let (same, le) = note_all-frame now recs ([], s) in
      let (same', le') = resolve_all-frame now acc.0 acc.1.open_alerts acc.1 in
      heard-notify now recs s rec m (
        All-elem (λ r. heard acc.1 r ≡ true) recs (note_all-heard now recs ([], s) (omega arith)) m)

  notify-distinct :
      (now : ℤ) (recs : List (Recommendation A)) (s : Sender A)
      → NodupKeys s.open_alerts
      → NodupKeys (notify now recs s).open_alerts
  unfolding notify
  notify-distinct now recs s d =
      let acc = note_all now recs ([], s) in
      resolve_all-distinct now acc.0 acc.1.open_alerts acc.1 (note_all-distinct now recs ([], s) d)

  notify-min :
      (now : ℤ) (recs : List (Recommendation A)) (s : Sender A)
      → (notify now recs s).min_severity ≡ s.min_severity
  unfolding notify
  notify-min now recs s =
      let acc = note_all now recs ([], s) in
      (resolve_all-frame now acc.0 acc.1.open_alerts acc.1).0 ∙ (note_all-frame now recs ([], s)).0

  -- What is open after the evaluation is present in the second one.
  still_present :
      (now later : ℤ) (recs : List (Recommendation A)) (s : Sender A)
      → NodupKeys s.open_alerts
      → (notify now recs s).dropped ≡ s.dropped
      → (e : Text × OpenAlert) → Elem e (notify now recs s).open_alerts
      → contains e.0 (note_all later recs ([], notify now recs s)).0 ≡ true
  unfolding contains
  still_present now later recs s d n e m =
      let t = notify now recs s in
      let found = Elem-lookup e.0 e.1 t.open_alerts (notify-distinct now recs s d) m in
      let is_open = notify-open now recs s e.0 d n in
      let same = wanted-min t s recs (notify-min now recs s) in
      let want : contains e.0 (wanted s recs) ≡ true = sym is_open ∙ ap is_some found in
      note_all-present later recs ([], t) e.0 ∙ (rw same want)

  second-IsQuiet :
      (later : ℤ) (recs : List (Recommendation A)) (t : Sender A)
      → All (λ rec. heard t rec ≡ true) recs
      → All (λ e. contains e.0 (note_all later recs ([], t)).0 ≡ true) t.open_alerts
      → IsQuiet t (notify later recs t)
  unfolding notify
  second-IsQuiet later recs t h present =
      let acc = note_all later recs ([], t) in
      let (q, o, k) = note_all-IsQuiet later recs ([], t) h in
      let quiet = resolve_all-quiet later acc.0 acc.1.open_alerts acc.1 (rw o present) in
      rw quiet (q, o, k)

  -- After an evaluation that drops no payload, a second one with the same findings sends
  -- nothing: the queue, the open findings and the count of dropped payloads stay.
  pub notify-repeated :
      (now later : ℤ) (recs : List (Recommendation A)) (s : Sender A)
      → NodupKeys s.open_alerts
      → (notify now recs s).dropped ≡ s.dropped
      → IsQuiet (notify now recs s) (notify later recs (notify now recs s))
  notify-repeated now later recs s d n =
      second-IsQuiet later recs (notify now recs s) (All-of_Elem _ recs (heard_again now recs s n))
        (All-of_Elem _ _ (still_present now later recs s d n))
