-- ===== src/Promtext.antt =====
-- internal/promtext/parse.go: the parser of the Prometheus text exposition format and the queries
-- on what it read. The payload is a list of bytes.
pub mod Words
pub mod Labels
pub mod Sample
pub mod Families
pub mod Quantile
