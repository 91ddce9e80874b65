-- ===== src/Load.antt =====
-- The load-generating half of the program: src/load.
mod Tests
pub mod Protocol
pub mod RawEcho
pub mod Http
pub mod Http11Get
pub mod Exchange
pub mod RunResult
pub mod Worker
pub mod ClosedLoop
pub mod Schedule
pub mod OpenLoop
pub mod Examples
