-- ===== src/Examples.antt =====
-- Concrete runs of the components.
pub mod StateMachine
pub mod Frames
pub mod Events
pub mod Coverage
pub mod Scores
pub mod Header
pub mod Validation
pub mod Normalization
pub mod History
pub mod Quality
pub mod FileDays
pub mod Daily
pub mod Dimensions
