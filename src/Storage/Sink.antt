-- ===== src/Storage/Sink.antt =====
-- internal/storage/timescale/sink.go: the bounded queue and its single writer. The database is an
-- argument: whether one insert succeeds. The SQL text and the pool are left out.
pub mod Order
pub mod Close
use inference_fabric_autopil.Prelude.{
  ℕ, zero, suc, ◌+◌, Bool, true, false, Option, none, some, List, [], ◌∷◌, ◌++◌, ltb, length,
  if◌then◌else◌,
}
use inference_fabric_autopil.Prelude.Int.{ℤ, pos, leb_ℤ, pos_part}
use inference_fabric_autopil.Telemetry.Metric.{Metric}
use inference_fabric_autopil.Telemetry.Snapshot.{Snapshot}

pub record Sink (A : Type 0) : Type 0 where
  pub capacity : ℕ
  pub waiting : List (Snapshot A)
  pub dropped : ℕ
  pub failed : ℕ
  pub written : ℕ

module _ {A : Type 0} where
  -- `Open` after the connection stands: the default size where the option is not positive.
  unfoldable pub new_sink : ℤ → Sink A
  new_sink queue_size = record {
    capacity = if leb_ℤ queue_size (pos 0) then 1024 else pos_part queue_size;
    waiting = [];
    dropped = 0;
    failed = 0;
    written = 0;
  }

  -- `Write`
  unfoldable pub write : Snapshot A → Sink A → Sink A
  write snap s =
      if ltb (length s.waiting) s.capacity
      then record s { waiting = s.waiting ++ snap ∷ [] }
      else record s { dropped = suc s.dropped }

  -- `insert`; `exec` tells whether the database took the snapshot.
  unfoldable pub insert_one : (Snapshot A → Bool) → Snapshot A → Sink A → Sink A
  insert_one exec snap s =
      if exec snap then record s { written = suc s.written } else record s { failed = suc s.failed }

  -- One receive of `run` and the insert of what it receives, with the snapshots received.
  unfoldable pub take_one : (Snapshot A → Bool) → Sink A → List (Snapshot A) × Sink A
  unfolding insert_one
  take_one exec s = elim s.waiting [
    | [] ↦ ([], s)
    | x ∷ xs ↦ (x ∷ [], insert_one exec x (record s { waiting = xs }))
  ]

  -- `nullable`; `none` is NULL.
  unfoldable pub nullable : Metric A → Option A
  nullable m = if m.ok then some m.value else none

  -- The inner loop of `run` after `Close`, which takes until nothing waits.
  unfoldable pub drain_sink : (Snapshot A → Bool) → ℕ → Sink A → Sink A
  unfolding take_one
  drain_sink exec zero s = s
  drain_sink exec (suc fuel) s = drain_sink exec fuel (take_one exec s).1
