-- ===== src/Apps.antt =====
-- The command-line programs: apps.
mod Tests
pub mod Machine
pub mod Formats
pub mod Report
pub mod Results
pub mod Settings
pub mod OpenReport
pub mod LoadGenerator
pub mod NullTarget
pub mod HistogramVerifier
pub mod FaultCost
