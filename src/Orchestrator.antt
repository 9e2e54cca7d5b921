-- ===== src/Orchestrator.antt =====
-- orchestrator/src/orchestrator: the control plane.
pub mod Table
pub mod Models
pub mod Jobs
pub mod Scheduler
pub mod Access
pub mod Pipelines
pub mod Secrets
pub mod Connections
pub mod Auth
pub mod App
pub mod Lifespan
pub mod Settings
pub mod Migrations
