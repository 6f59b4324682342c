-- ===== src/Utils.antt =====
-- include/up-cpp/utils: the pieces that the rest of the library builds on.
pub mod Expected
pub mod CallbackConnection
pub mod ProtoConverter
