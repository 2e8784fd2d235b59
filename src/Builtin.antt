-- ===== src/Builtin.antt =====
-- The crate `builtin-languages` (builtin-languages/src): the language providers of WaveJudge.
pub mod Names
pub mod Paths
pub mod Cxx
pub mod Java
pub mod Python
pub mod Rust
pub mod Init
pub mod Commands
pub mod Dialects
pub mod Served
mod Tests
