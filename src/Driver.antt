-- ===== src/Driver.antt =====
-- The crate `driver` (driver/src): what it exchanges with the board, and how a submission is handled.
pub mod ObjectIds
pub mod Sync
pub mod Archives
pub mod Entities
pub mod ForkServer
pub mod Workers
pub mod Problems
pub mod Rest
pub mod Heartbeat
pub mod Startup
mod Tests
