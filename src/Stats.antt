-- ===== src/Stats.antt =====
-- The measuring half of the program: src/stats.
pub mod Buckets
pub mod Histogram
pub mod Summary
pub mod TimeSeries
pub mod Csv
mod Tests
