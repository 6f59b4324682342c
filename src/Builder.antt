-- ===== src/Builder.antt =====
-- src/datamodel/builder: builders of UUIDs, payloads and messages.
pub mod Uuid
pub mod Payload
pub mod Message
