-- ===== src/Loop.antt =====
-- The loop harness (loop/): workers that encrypt, decrypt and compare until they are asked to stop.
pub mod Names
pub mod Report
pub mod Real
pub mod Size
pub mod Numbers
pub mod Host
pub mod Payload
pub mod State
pub mod Worker
pub mod Iterate
pub mod Verdicts
pub mod Ops
pub mod Launch
pub mod Summary
pub mod Main
pub mod Flags
pub mod Threads
pub mod Profiles
