-- ===== src/Telemetry.antt =====
-- internal/telemetry: optional measurements, snapshots and the in-memory store.
pub mod Metric
pub mod Snapshot
pub mod Store
