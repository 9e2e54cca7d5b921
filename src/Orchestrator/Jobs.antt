-- ===== src/Orchestrator/Jobs.antt =====
-- routes/jobs.py. A handler is an action on the database: what was committed before an exception
-- stays. `locked` names the rows that other open transactions hold locks on.
pub mod Payload
pub mod Status
pub mod Dispatch
pub mod Interleaving
