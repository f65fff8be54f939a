-- ===== src/Tests.antt =====
-- Concrete runs: the theorems at inputs where their hypotheses hold.
pub mod Mirror
pub mod Sessions
pub mod Calls
pub mod Loops
pub mod Threads
pub mod Flags
pub mod Summary
pub mod Demo
pub mod Runs
