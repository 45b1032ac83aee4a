-- ===== src/Metrics.antt =====
-- internal/metrics/registry.go: the counters of the program itself and their exposition. The printing
-- of numbers is an argument; the lines of the exposition are a list.
pub mod Registry
pub mod Exposition
