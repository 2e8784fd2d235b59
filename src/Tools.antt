-- ===== src/Tools.antt =====
-- The command line tools of the crates sandbox and judge.
pub mod SandboxBin
pub mod JudgeBin
mod Tests
