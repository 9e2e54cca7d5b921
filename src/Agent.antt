-- ===== src/Agent.antt =====
-- agent/src/agent.
pub mod Executor
pub mod Client
pub mod Loop
pub mod Startup
