-- ===== src/Profiling.antt =====
-- Profiling: the header of a file and the identity of its columns.
pub mod Header
