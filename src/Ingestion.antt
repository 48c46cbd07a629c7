-- ===== src/Ingestion.antt =====
-- Ingestion: the state machine of a file and the coverage of a charger-day.
pub mod StateMachine
pub mod Coverage
pub mod FileDays
