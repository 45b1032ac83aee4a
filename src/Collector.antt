-- ===== src/Collector.antt =====
-- internal/collector: targets, rates and the scrape of one target.
pub mod Rates
pub mod Target
pub mod Scrape
