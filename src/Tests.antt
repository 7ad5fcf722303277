-- ===== src/Tests.antt =====
-- Concrete runs, and the theorems at concrete inputs.
mod Fixtures
mod Wire
mod Messages
mod Http
mod Retrieval
mod Events
pub mod Device
pub mod Mercury
pub mod Threaded
pub mod Sharing
