-- ===== src/Core.antt =====
-- The part that the others build on: src/core.
mod Tests
pub mod Double
pub mod Errors
pub mod Socket
pub mod Units
pub mod Endpoint
pub mod Flags
pub mod Clock
pub mod Address
pub mod Listener
pub mod Descriptors
