-- ===== src/Checks.antt =====
-- The theorems at work on concrete inputs.
pub mod Data
pub mod Telemetry
pub mod Rules
pub mod Engine
pub mod Alerting
pub mod Fleet
pub mod Promtext
pub mod Runtime
pub mod Collector
pub mod Storage
pub mod Config
pub mod Metrics
pub mod Kubernetes
pub mod Api
