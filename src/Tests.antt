-- ===== src/Tests.antt =====
-- The theorems at concrete inputs.
pub mod Fixtures
pub mod Marks
pub mod Syncs
pub mod Loads
pub mod Payments
pub mod Requests
pub mod Control
pub mod Cycles
pub mod Routes
pub mod Tickets
pub mod Connections
pub mod Loops
pub mod Interleavings
pub mod Migrations
pub mod Apps
pub mod Sources
pub mod Fleets
pub mod Lifespans
pub mod Timelines
pub mod Routings
pub mod Environments
