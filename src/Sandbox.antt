-- ===== src/Sandbox.antt =====
-- The sandbox crate (sandbox/src): memory sizes and resource usage, resource limits, the daemon
-- that watches a child process, and the builder that configures and starts one.
pub mod Memory
pub mod Usage
pub mod Errors
pub mod Daemon
pub mod Kernel
pub mod Builder
pub mod Launch
mod Tests
