-- ===== src/Validation.antt =====
-- pipelines/validation: the dictionary of field definitions, its coverage, and schemas compared.
pub mod Compatibility
pub mod Fields
pub mod Dictionary
pub mod Classifier
pub mod Resolution
pub mod Coverage
