-- ===== src/Collector.antt =====
-- internal/collector: what becomes of the results that the workers report.
pub mod Results
pub mod DeadLetters
