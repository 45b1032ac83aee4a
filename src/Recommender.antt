-- ===== src/Recommender.antt =====
-- internal/recommender: rules over the retained telemetry of a workload, and the engine that runs
-- them.
pub mod Thresholds
pub mod Eval
pub mod Rules
pub mod Engine
