-- ===== src/Alerting/Sender/Noted.antt =====
-- What the first loop of `Notify` does.
use inference_fabric_autopil.Prelude.{
  suc, ◌≤◌, ◌≡◌, refl, ap, ◌∙◌, Bool, true, false, ◌||◌, none, some, List, [], ◌∷◌, ◌++◌, All,
  arith, is_some, if◌then◌else◌, ltb, leb, length,
}
use inference_fabric_autopil.Prelude.Int.{ℤ}
use inference_fabric_autopil.Prelude.Texts.{Text, text_eq_iff}
use inference_fabric_autopil.Prelude.Maps.{Map, lookup, NodupKeys, lookup-insert, NodupKeys-insert}
use inference_fabric_autopil.Telemetry.Snapshot.{Recommendation, rank}
use inference_fabric_autopil.Recommender.Engine.{contains}
use inference_fabric_autopil.Alerting.Payload.{Payload, OpenAlert, new_open_alert}
use inference_fabric_autopil.Alerting.Sender.{
  Sender, enqueue, announce, note_present, note_one, note_all, too_mild,
}

module _ {A : Type 0} where
  -- The finding is open, at its severity or a more severe one.
  unfoldable pub known : Sender A → Recommendation A → Bool
  known s rec = elim (lookup rec.id s.open_alerts) [
    | none ↦ false
    | some a ↦ leb (rank a.severity) (rank rec.severity)
  ]

  -- The ids of the findings that are severe enough.
  unfoldable pub wanted : Sender A → List (Recommendation A) → List Text
  wanted s [] = []
  wanted s (rec ∷ recs) = let rest = wanted s recs in if too_mild s rec then rest else rec.id ∷ rest

  pub announce_lem :
      (p : Payload A) (change : Map OpenAlert → Map OpenAlert) (s : Sender A)
      → announce p change s ≡ (
          if ltb (length s.queue) s.capacity
          then record s { queue = s.queue ++ p ∷ []; open_alerts = change s.open_alerts }
          else record s { dropped = suc s.dropped })
  unfolding announce enqueue
  announce_lem p change s = ground arith

  -- What a step of the first loop leaves or only raises.
  note_present-frame :
      (now : ℤ) (rec : Recommendation A) (s : Sender A)
      → ((note_present now rec s).min_severity ≡ s.min_severity)
        × (s.dropped ≤ (note_present now rec s).dropped)
  unfolding note_present announce enqueue
  note_present-frame now rec s = (ground arith, ground arith)

  note_present-known :
      (now : ℤ) (rec : Recommendation A) (s : Sender A)
      → (note_present now rec s).dropped ≡ s.dropped
      → known (note_present now rec s) rec ≡ true
  unfolding note_present announce enqueue known new_open_alert
  note_present-known now rec s h = ground (
    arith,
    text_eq_iff rec.id rec.id,
    lookup-insert rec.id rec.id (new_open_alert rec) s.open_alerts,
  )

  known-note_present :
      (now : ℤ) (rec other : Recommendation A) (s : Sender A)
      → known s other ≡ true
      → known (note_present now rec s) other ≡ true
  unfolding note_present announce enqueue known new_open_alert
  known-note_present now rec other s h = ground (
    arith,
    text_eq_iff other.id rec.id,
    lookup-insert rec.id other.id (new_open_alert rec) s.open_alerts,
  )

  -- The finding is below the minimum, or open.
  unfoldable pub heard : Sender A → Recommendation A → Bool
  unfolding known
  heard s rec = too_mild s rec || known s rec

  note_one-frame :
      (now : ℤ) (rec : Recommendation A) (acc : List Text × Sender A)
      → ((note_one now rec acc).1.min_severity ≡ acc.1.min_severity)
        × (acc.1.dropped ≤ (note_one now rec acc).1.dropped)
  unfolding note_one
  note_one-frame now rec acc = ground (arith, note_present-frame now rec acc.1)

  pub note_all-frame :
      (now : ℤ) (recs : List (Recommendation A)) (acc : List Text × Sender A)
      → ((note_all now recs acc).1.min_severity ≡ acc.1.min_severity)
        × (acc.1.dropped ≤ (note_all now recs acc).1.dropped)
  unfolding note_all
  note_all-frame now [] acc = (refl, omega arith)
  note_all-frame now (rec ∷ recs) acc =
      let (m, d) = note_one-frame now rec acc in
      let (m', d') = note_all-frame now recs (note_one now rec acc) in (m' ∙ m, omega arith)

  note_one-heard :
      (now : ℤ) (rec : Recommendation A) (acc : List Text × Sender A)
      → (note_one now rec acc).1.dropped ≡ acc.1.dropped
      → heard (note_one now rec acc).1 rec ≡ true
  unfolding note_one heard too_mild
  note_one-heard now rec acc h =
      ground (arith, note_present-known now rec acc.1, note_present-frame now rec acc.1)

  pub heard-note_one :
      (now : ℤ) (rec other : Recommendation A) (acc : List Text × Sender A)
      → heard acc.1 other ≡ true
      → heard (note_one now rec acc).1 other ≡ true
  unfolding note_one heard too_mild
  heard-note_one now rec other acc h =
      ground (arith, known-note_present now rec other acc.1, note_present-frame now rec acc.1)

  heard-note_all :
      (now : ℤ) (recs : List (Recommendation A)) (other : Recommendation A)
      (acc : List Text × Sender A)
      → heard acc.1 other ≡ true
      → heard (note_all now recs acc).1 other ≡ true
  unfolding note_all
  heard-note_all now [] other acc h = h
  heard-note_all now (rec ∷ recs) other acc h =
      heard-note_all now recs other (note_one now rec acc) (heard-note_one now rec other acc h)

  pub note_all-heard :
      (now : ℤ) (recs : List (Recommendation A)) (acc : List Text × Sender A)
      → (note_all now recs acc).1.dropped ≡ acc.1.dropped
      → All (λ rec. heard (note_all now recs acc).1 rec ≡ true) recs
  unfolding note_all
  note_all-heard now [] acc h = tt
  note_all-heard now (rec ∷ recs) acc h =
      let (m, d) = note_one-frame now rec acc in
      let (m', d') = note_all-frame now recs (note_one now rec acc) in
      (
        heard-note_all now recs rec (note_one now rec acc)
            (note_one-heard now rec acc (omega arith)),
        note_all-heard now recs (note_one now rec acc) (omega arith),
      )

  pub wanted-min :
      (s t : Sender A) (recs : List (Recommendation A))
      → s.min_severity ≡ t.min_severity
      → wanted s recs ≡ wanted t recs
  unfolding wanted too_mild
  wanted-min s t [] h = refl
  wanted-min s t (rec ∷ recs) h = rw (wanted-min s t recs h, h) refl

  note_one-present :
      (now : ℤ) (rec : Recommendation A) (acc : List Text × Sender A) (id : Text) (rest : List Text)
      → (contains id (note_one now rec acc).0 || contains id rest)
        ≡ (contains id acc.0 || contains id (if too_mild acc.1 rec then rest else rec.id ∷ rest))
  unfolding note_one contains
  note_one-present now rec acc id rest = ground arith

  -- The ids that the first loop gathers.
  pub note_all-present :
      (now : ℤ) (recs : List (Recommendation A)) (acc : List Text × Sender A) (id : Text)
      → contains id (note_all now recs acc).0
        ≡ (contains id acc.0 || contains id (wanted acc.1 recs))
  unfolding note_all wanted contains
  note_all-present now [] acc id = ground arith
  note_all-present now (rec ∷ recs) acc id =
      note_all-present now recs (note_one now rec acc) id
      ∙ ap (λ ids. contains id (note_one now rec acc).0 || contains id ids)
          (wanted-min _ acc.1 recs (note_one-frame now rec acc).0)
      ∙ note_one-present now rec acc id (wanted acc.1 recs)

  pub wanted-open :
      (s : Sender A) (recs : List (Recommendation A)) (id : Text)
      → All (λ rec. heard s rec ≡ true) recs
      → contains id (wanted s recs) ≡ true
      → is_some (lookup id s.open_alerts) ≡ true
  unfolding wanted heard known contains
  wanted-open s [] id h k = cc
  wanted-open s (rec ∷ recs) id h k =
      ground (arith, text_eq_iff rec.id id, h.0, wanted-open s recs id h.1)

  note_present-distinct :
      (now : ℤ) (rec : Recommendation A) (s : Sender A)
      → NodupKeys s.open_alerts
      → NodupKeys (note_present now rec s).open_alerts
  unfolding note_present announce enqueue
  note_present-distinct now rec s d =
      ground (arith, NodupKeys-insert rec.id (new_open_alert rec) s.open_alerts)

  pub note_all-distinct :
      (now : ℤ) (recs : List (Recommendation A)) (acc : List Text × Sender A)
      → NodupKeys acc.1.open_alerts
      → NodupKeys (note_all now recs acc).1.open_alerts
  unfolding note_all note_one
  note_all-distinct now [] acc d = d
  note_all-distinct now (rec ∷ recs) acc d =
      note_all-distinct now recs (note_one now rec acc)
        (ground (arith, note_present-distinct now rec acc.1))
