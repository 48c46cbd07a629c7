-- ===== src/Frames.antt =====
-- pipelines/frame_reconstruction: from raw rows to reconstructed source frames.
pub mod Models
pub mod Groups
pub mod LogicalKeys
pub mod Builder
pub mod Replay
pub mod Topology
pub mod Diagnostics
pub mod Reconstruction
