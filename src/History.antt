-- ===== src/History.antt =====
-- pipelines/historical: counters, sampling, gaps and the presence of components over time.
pub mod Counters
pub mod Sampling
pub mod Gaps
pub mod Presence
