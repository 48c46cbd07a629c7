-- ===== src/Normalization.antt =====
-- pipelines/normalization: the raw rows of a frame become typed values.
pub mod Coercion
pub mod Resolver
pub mod Frame
