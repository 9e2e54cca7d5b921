-- ===== src/Connectors/Kapture.antt =====
-- sources/kapture/tickets_connector.py.
pub mod Tickets
pub mod Days
pub mod Rows
pub mod Typing
pub mod Windows
