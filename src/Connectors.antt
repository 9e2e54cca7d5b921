-- ===== src/Connectors.antt =====
-- connectors/: the shared connector library.
pub mod Base
pub mod Clickhouse
pub mod Source
pub mod Razorpay
pub mod Kapture
pub mod HttpClient
pub mod Registry
pub mod Probe
