-- ===== src/Connectors/Base.antt =====
-- connectors/src/data_connectors/base: what all connectors share.
pub mod Schema
pub mod Validation
pub mod Typing
pub mod Sync
