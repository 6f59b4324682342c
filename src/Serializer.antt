-- ===== src/Serializer.antt =====
-- src/datamodel/serializer/.
pub mod Uri
pub mod Bytes
pub mod Text
pub mod Tests
