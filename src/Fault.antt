-- ===== src/Fault.antt =====
-- The fault-injecting half of the program: src/fault.
mod Tests
pub mod Numbers
pub mod Knobs
pub mod Commands
pub mod Control
pub mod Acceptor
pub mod Threads
