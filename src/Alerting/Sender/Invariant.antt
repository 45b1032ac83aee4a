-- ===== src/Alerting/Sender/Invariant.antt =====
-- The invariant of a sender.
use inference_fabric_autopil.Prelude.{
  ℕ, ◌+◌, ◌≤◌, ◌≡◌, refl, sym, ap, ◌∙◌, List, [], ◌∷◌, ◌++◌, length, length-append, All, Bool-cases,
  Option-cases, inl, inr, arith, ltb,
}
use inference_fabric_autopil.Prelude.Int.{ℤ}
use inference_fabric_autopil.Prelude.Texts.{Text}
use inference_fabric_autopil.Prelude.Maps.{
  Map, lookup, insert, erase, NodupKeys, NodupKeys-insert, NodupKeys-erase, All-insert, All-erase,
}
use inference_fabric_autopil.Telemetry.Snapshot.{Recommendation, rank}
use inference_fabric_autopil.Recommender.Engine.{contains}
use inference_fabric_autopil.Alerting.Payload.{
  Payload, OpenAlert, Event, firing, escalated, firing_payload, resolved_payload, new_open_alert,
}
use inference_fabric_autopil.Alerting.Sender.{
  Sender, enqueue, announce, note_present, note_one, note_all, too_mild, resolve_one, resolve_all,
  notify,
}
use inference_fabric_autopil.Alerting.Sender.View.{
  severities, severities-insert, severities-erase, see, view, view-append,
}

-- The entry stands under its own id.
abbrev pub IsOwn : Text × OpenAlert → Type 0
IsOwn e = e.0 ≡ e.1.id

module _ {A : Type 0} where
  -- The queue is within its capacity; the open findings have distinct ids, their own; a
  -- subscriber that gets what was taken and what is queued sees exactly the open findings at
  -- their severities; and each payload taken was counted once.
  pub record IsValid (log : List (Payload A)) (s : Sender A) : Type 0 where
    pub bounded : length s.queue ≤ s.capacity
    pub distinct : NodupKeys s.open_alerts
    pub own : All IsOwn s.open_alerts
    pub seen : view (log ++ s.queue) [] ≡ severities s.open_alerts
    pub accounted : length log ≡ s.sent + s.failed

  seen-more :
      (log queue : List (Payload A)) (p : Payload A)
      → view (log ++ (queue ++ p ∷ [])) [] ≡ see p (view (log ++ queue) [])
  unfolding view
  seen-more log queue p =
      rw
        (
          view-append log (queue ++ p ∷ []) [],
          view-append queue (p ∷ []) (view log []),
          view-append log queue [],
        )
        refl

  announce-IsValid :
      (log : List (Payload A)) (p : Payload A) (change : Map OpenAlert → Map OpenAlert)
      (s : Sender A)
      → NodupKeys (change s.open_alerts)
      → All IsOwn (change s.open_alerts)
      → see p (severities s.open_alerts) ≡ severities (change s.open_alerts)
      → IsValid log s
      → IsValid log (announce p change s)
  unfolding announce enqueue
  announce-IsValid log p change s d o e v = elim (Bool-cases (ltb (length s.queue) s.capacity)) [
    | inl room ↦ rw room (record {
      bounded = rw (length-append s.queue (p ∷ [])) (ground arith);
      distinct = d;
      own = o;
      seen = seen-more log s.queue p ∙ ap (see p) v.seen ∙ e;
      accounted = v.accounted;
    })
    | inr full ↦ rw full (record {
      bounded = v.bounded;
      distinct = v.distinct;
      own = v.own;
      seen = v.seen;
      accounted = v.accounted;
    })
  ]

  suppress-IsValid :
      (log : List (Payload A)) (n : ℕ) (s : Sender A)
      → IsValid log s
      → IsValid log (record s { suppressed = n })
  suppress-IsValid log n s v = record {
    bounded = v.bounded;
    distinct = v.distinct;
    own = v.own;
    seen = v.seen;
    accounted = v.accounted;
  }

  announce_open-IsValid :
      (log : List (Payload A)) (now : ℤ) (rec : Recommendation A) (ev : Event) (previous : Text)
      (s : Sender A)
      → ((m : Map Text)
          → see (firing_payload rec ev previous s.cluster now) m ≡ insert rec.id rec.severity m)
      → IsValid log s
      → IsValid log (
          announce
            (firing_payload rec ev previous s.cluster now)
            (insert rec.id (new_open_alert rec))
            s)
  unfolding new_open_alert
  announce_open-IsValid log now rec ev previous s e v =
      announce-IsValid log _ (insert rec.id (new_open_alert rec)) s
        (NodupKeys-insert rec.id _ s.open_alerts v.distinct)
        (All-insert IsOwn rec.id _ s.open_alerts refl v.own)
        (e _ ∙ sym (severities-insert rec.id _ s.open_alerts)) v

  note_present-IsValid :
      (log : List (Payload A)) (now : ℤ) (rec : Recommendation A) (s : Sender A)
      → IsValid log s
      → IsValid log (note_present now rec s)
  unfolding note_present see firing_payload
  note_present-IsValid log now rec s v = elim (Option-cases (lookup rec.id s.open_alerts)) [
    | inl new ↦ rw (new, note_present) (announce_open-IsValid log now rec firing [] s (λ m. refl) v)
    | inr (prev, known) ↦ elim (Bool-cases (ltb (rank rec.severity) (rank prev.severity))) [
      | inl worse ↦
          rw (known, worse, note_present)
            (announce_open-IsValid log now rec escalated prev.severity s (λ m. refl) v)
      | inr same ↦ rw (known, same, note_present) (suppress-IsValid log _ s v)
    ]
  ]

  note_one-IsValid :
      (log : List (Payload A)) (now : ℤ) (rec : Recommendation A) (acc : List Text × Sender A)
      → IsValid log acc.1
      → IsValid log (note_one now rec acc).1
  unfolding note_one
  note_one-IsValid log now rec acc v = elim (Bool-cases (too_mild acc.1 rec)) [
    | inl mild ↦ rw (mild) v
    | inr heard ↦ rw (heard) (note_present-IsValid log now rec acc.1 v)
  ]

  note_all-IsValid :
      (log : List (Payload A)) (now : ℤ) (recs : List (Recommendation A))
      (acc : List Text × Sender A)
      → IsValid log acc.1
      → IsValid log (note_all now recs acc).1
  unfolding note_all
  note_all-IsValid log now [] acc v = v
  note_all-IsValid log now (rec ∷ recs) acc v =
      note_all-IsValid log now recs (note_one now rec acc) (note_one-IsValid log now rec acc v)

  resolve_one-IsValid :
      (log : List (Payload A)) (now : ℤ) (present : List Text) (e : Text × OpenAlert) (s : Sender A)
      → IsOwn e
      → IsValid log s
      → IsValid log (resolve_one now present e s)
  unfolding resolve_one resolved_payload see
  resolve_one-IsValid log now present (id, a) s o v = elim (Bool-cases (contains id present)) [
    | inl still ↦ rw still v
    | inr gone ↦ rw gone (
        announce-IsValid log (resolved_payload a s.cluster now) (erase id) s
          (NodupKeys-erase id s.open_alerts v.distinct) (All-erase IsOwn id s.open_alerts v.own)
          (rw (sym o) (sym (severities-erase id s.open_alerts))) v)
  ]

  resolve_all-IsValid :
      (log : List (Payload A)) (now : ℤ) (present : List Text) (entries : Map OpenAlert)
      (s : Sender A)
      → All IsOwn entries
      → IsValid log s
      → IsValid log (resolve_all now present entries s)
  unfolding resolve_all
  resolve_all-IsValid log now present [] s o v = v
  resolve_all-IsValid log now present (e ∷ entries) s o v =
      resolve_all-IsValid log now present entries (resolve_one now present e s) o.1
        (resolve_one-IsValid log now present e s o.0 v)

  pub notify-IsValid :
      (log : List (Payload A)) (now : ℤ) (recs : List (Recommendation A)) (s : Sender A)
      → IsValid log s
      → IsValid log (notify now recs s)
  unfolding notify
  notify-IsValid log now recs s v =
      let w = note_all-IsValid log now recs ([], s) v in resolve_all-IsValid log now _ _ _ w.own w
