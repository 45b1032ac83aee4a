-- ===== src/Recommender/Rules.antt =====
-- internal/recommender/rules.go: the nineteen rules. A finding is modelled without the text for
-- people (Explanation, Action), and a rule without Title and Summary.
pub mod Defs
pub mod Capacity
pub mod Cache
pub mod Latency
pub mod Efficiency
pub mod Errors
pub mod Scaling
pub mod Observability
pub mod Catalogue
pub mod Dormant
pub mod Truthful
pub mod Exclusive
