-- ===== src/Judge/Tests.antt =====
-- Concrete runs of the judge, and the theorems on it at concrete inputs.
pub mod Tokens
pub mod Machine
pub mod Providers
mod Standard
