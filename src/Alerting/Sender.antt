-- ===== src/Alerting/Sender.antt =====
-- internal/alerting/sender.go: `New`, `Notify` and the queue. A method takes the time that its clock
-- reads; the mutex makes it one step. `Notify` visits the open findings in the order of the map.
pub mod Invariant
pub mod View
pub mod Runs
pub mod Noted
pub mod Resolved
pub mod Repeats
use inference_fabric_autopil.Prelude.{
  ℕ, suc, ◌+◌, Bool, true, false, Option, none, some, List, [], ◌∷◌, ◌++◌, ltb, length,
  if◌then◌else◌, ◌||◌, not,
}
use inference_fabric_autopil.Prelude.Int.{ℤ, pos, leb_ℤ, pos_part}
use inference_fabric_autopil.Prelude.Texts.{Text, text_eq}
use inference_fabric_autopil.Prelude.Maps.{Map, lookup, insert, erase}
use inference_fabric_autopil.Telemetry.Snapshot.{
  Recommendation, rank, severity_info, severity_warning, severity_critical,
}
use inference_fabric_autopil.Recommender.Engine.{contains}
use inference_fabric_autopil.Alerting.Payload.{
  Payload, OpenAlert, firing, escalated, resolved, firing_payload, resolved_payload, new_open_alert,
}

pub record Sender (A : Type 0) : Type 0 where
  pub min_severity : Text
  pub cluster : Text
  pub timeout : ℤ
  pub backoff : ℤ
  pub capacity : ℕ
  pub queue : List (Payload A)
  pub sent : ℕ
  pub failed : ℕ
  pub dropped : ℕ
  pub suppressed : ℕ
  pub open_alerts : Map OpenAlert

-- `Options`, without the client's clock.
pub record Options : Type 0 where
  pub has_logger : Bool
  pub url : Text
  pub min_severity : Text
  pub cluster : Text
  pub timeout : ℤ
  pub queue_size : ℤ
  pub backoff : ℤ

-- 5 seconds
abbrev pub default_timeout : ℤ
default_timeout = pos 5_000_000_000

abbrev pub default_queue_size : ℕ
default_queue_size = 256

-- 500 milliseconds
abbrev pub default_backoff : ℤ
default_backoff = pos 500_000_000

unfoldable pub valid_severity : Text → Bool
valid_severity s =
    text_eq s severity_info || (text_eq s severity_warning || text_eq s severity_critical)

abbrev pub or_warning : Text → Text
or_warning s = if text_eq s [] then severity_warning else s

abbrev pub or_default : ℤ → ℤ → ℤ
or_default d x = if leb_ℤ x (pos 0) then d else x

module _ {A : Type 0} where
  -- `New`, with the test of `ValidateURL` as an argument; `none` is an error.
  unfoldable pub new_sender : (Text → Bool) → Options → Option (Sender A)
  unfolding valid_severity
  new_sender valid_url o =
      let severity = or_warning o.min_severity in
      if not o.has_logger
      then none
      else if not (valid_url o.url)
      then none
      else if not (valid_severity severity)
      then none
      else some (record {
        min_severity = severity;
        cluster = o.cluster;
        timeout = or_default default_timeout o.timeout;
        backoff = or_default default_backoff o.backoff;
        capacity = if leb_ℤ o.queue_size (pos 0) then default_queue_size else pos_part o.queue_size;
        queue = [];
        sent = 0;
        failed = 0;
        dropped = 0;
        suppressed = 0;
        open_alerts = [];
      })

  -- A write to the channel that does not block.
  unfoldable pub enqueue : Payload A → Sender A → Bool × Sender A
  enqueue p s =
      if ltb (length s.queue) s.capacity
      then (true, record s { queue = s.queue ++ p ∷ [] })
      else (false, record s { dropped = suc s.dropped })

  -- `if s.enqueue(p) { … }`, where the body changes `s.open_alerts`.
  unfoldable pub announce : Payload A → (Map OpenAlert → Map OpenAlert) → Sender A → Sender A
  unfolding enqueue
  announce p change s =
      let r = enqueue p s in
      if r.0 then record r.1 { open_alerts = change r.1.open_alerts } else r.1

  -- The `switch` of the first loop of `Notify`.
  unfoldable pub note_present : ℤ → Recommendation A → Sender A → Sender A
  unfolding announce firing_payload new_open_alert
  note_present now rec s = elim (lookup rec.id s.open_alerts) [
    | none ↦
        announce (firing_payload rec firing [] s.cluster now) (insert rec.id (new_open_alert rec)) s
    | some prev ↦
        if ltb (rank rec.severity) (rank prev.severity)
        then announce (firing_payload rec escalated prev.severity s.cluster now)
            (insert rec.id (new_open_alert rec)) s
        else record s { suppressed = suc s.suppressed }
  ]

  -- A finding less severe than the minimum is skipped.
  unfoldable pub too_mild : Sender A → Recommendation A → Bool
  too_mild s rec = ltb (rank s.min_severity) (rank rec.severity)

  -- The body of the first loop of `Notify`, with the ids in `present`.
  unfoldable pub note_one : ℤ → Recommendation A → List Text × Sender A → List Text × Sender A
  unfolding note_present
  note_one now rec (present, s) =
      if too_mild s rec then (present, s) else (rec.id ∷ present, note_present now rec s)

  unfoldable pub note_all :
      ℤ → List (Recommendation A) → List Text × Sender A → List Text × Sender A
  unfolding note_one
  note_all now [] acc = acc
  note_all now (rec ∷ recs) acc = note_all now recs (note_one now rec acc)

  -- The body of the second loop of `Notify`.
  unfoldable pub resolve_one : ℤ → List Text → Text × OpenAlert → Sender A → Sender A
  unfolding announce resolved_payload contains
  resolve_one now present (id, a) s =
      if contains id present then s else announce (resolved_payload a s.cluster now) (erase id) s

  -- The second loop of `Notify`, over the entries of the map.
  unfoldable pub resolve_all : ℤ → List Text → Map OpenAlert → Sender A → Sender A
  unfolding resolve_one
  resolve_all now present [] s = s
  resolve_all now present (e ∷ entries) s =
      resolve_all now present entries (resolve_one now present e s)

  unfoldable pub notify : ℤ → List (Recommendation A) → Sender A → Sender A
  unfolding note_all resolve_all
  notify now recs s =
      let (present, s') = note_all now recs ([], s) in resolve_all now present s'.open_alerts s'

  -- `Stats`
  unfoldable pub stats : Sender A → ℕ × ℕ × ℕ × ℕ
  stats s = (s.sent, s.failed, s.dropped, s.suppressed)

  -- `Open`
  unfoldable pub open_count : Sender A → ℕ
  open_count s = length s.open_alerts
