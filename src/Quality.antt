-- ===== src/Quality.antt =====
-- Quality: the findings of the file and charger-day rules, and the overall score of a file.
pub mod Scoring
pub mod Kinds
pub mod Findings
pub mod Rules
pub mod Daily
pub mod Dimensions
