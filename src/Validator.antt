-- ===== src/Validator.antt =====
-- src/datamodel/validator: checks of URIs, UUIDs and messages.
pub mod Reasons
pub mod Uri
pub mod Uuid
pub mod Message
