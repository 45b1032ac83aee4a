-- ===== src/Alerting/Sender/View.antt =====
-- What a subscriber that keeps its own view of the open findings sees, and the runs of a sender.
use inference_fabric_autopil.Prelude.{ℕ, ◌≡◌, refl, List, [], ◌∷◌, ◌++◌, Bool-cases, inl, inr}
use inference_fabric_autopil.Prelude.Int.{ℤ}
use inference_fabric_autopil.Prelude.Texts.{Text, text_eq}
use inference_fabric_autopil.Prelude.Maps.{Map, insert, erase}
use inference_fabric_autopil.Telemetry.Snapshot.{Recommendation}
use inference_fabric_autopil.Alerting.Payload.{Payload, OpenAlert, firing, escalated, resolved}
use inference_fabric_autopil.Alerting.Sender.{Sender, notify}
use inference_fabric_autopil.Alerting.Delivery.{Exchange, serve}

-- The severities of the open findings.
unfoldable pub severities : Map OpenAlert → Map Text
severities [] = []
severities (e ∷ m) = (e.0, e.1.severity) ∷ severities m

pub severities-insert :
    (k : Text) (a : OpenAlert) (m : Map OpenAlert)
    → severities (insert k a m) ≡ insert k a.severity (severities m)
unfolding severities insert
severities-insert k a [] = refl
severities-insert k a (e ∷ m) = elim (Bool-cases (text_eq k e.0)) [
  | inl hit ↦ rw (hit, severities) refl
  | inr miss ↦ rw (miss, severities, severities-insert k a m) refl
]

pub severities-erase :
    (k : Text) (m : Map OpenAlert) → severities (erase k m) ≡ erase k (severities m)
unfolding severities erase
severities-erase k [] = refl
severities-erase k (e ∷ m) = elim (Bool-cases (text_eq k e.0)) [
  | inl hit ↦ rw (hit, severities) refl
  | inr miss ↦ rw (miss, severities, severities-erase k m) refl
]

module _ {A : Type 0} where
  -- What a payload tells a subscriber: the finding is open at this severity, or it is not open.
  unfoldable pub see : Payload A → Map Text → Map Text
  see p v = elim p.event [
    | firing ↦ insert p.id p.severity v
    | escalated ↦ insert p.id p.severity v
    | resolved ↦ erase p.id v
  ]

  unfoldable pub view : List (Payload A) → Map Text → Map Text
  unfolding see
  view [] v = v
  view (p ∷ ps) v = view ps (see p v)

  pub view-append :
      (ps qs : List (Payload A)) (v : Map Text) → view (ps ++ qs) v ≡ view qs (view ps v)
  unfolding view
  view-append [] qs v = refl
  view-append (p ∷ ps) qs v = view-append ps qs (see p v)

-- What happens to a sender: an evaluation hands over its findings, or the sender goroutine takes
-- a payload and delivers it.
pub data Op (A : Type 0) : Type 0 where
  notifies : ℤ → List (Recommendation A) → Op A
  serves : (Payload A → ℕ → Exchange) → Op A

module _ {A : Type 0} where
  -- The payloads that the goroutine took so far, and the sender.
  unfoldable pub step : List (Payload A) × Sender A → Op A → List (Payload A) × Sender A
  unfolding notify serve
  step (log, s) (notifies now recs) = (log, notify now recs s)
  step (log, s) (serves net) = let (taken, s') = serve net s in (log ++ taken, s')

  unfoldable pub run : List (Payload A) × Sender A → List (Op A) → List (Payload A) × Sender A
  unfolding step
  run c [] = c
  run c (op ∷ ops) = run (step c op) ops
