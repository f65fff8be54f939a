-- ===== src/Loop/Summary.antt =====
-- loop/summary.cpp: the figures of a run.
pub mod Json
pub mod Document
pub mod Rss
pub mod Pools
pub mod Verdict
pub mod Final
