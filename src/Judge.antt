-- ===== src/Judge.antt =====
-- The crate `judge` (judge/src).
pub mod Verdicts
pub mod Tokens
pub mod Checkers
pub mod Languages
pub mod Task
pub mod Engine
pub mod Tests
