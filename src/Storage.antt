-- ===== src/Storage.antt =====
-- internal/storage/timescale: the optional database sink.
pub mod Sink
