-- ===== src/Orchestrator/Models/JobStatus.antt =====
-- models/job_run.py: `JobStatus`, as the column stores it.
use turbocat.Prelude.{String}

abbrev pub pending : String
pending = "pending"

abbrev pub dispatched : String
dispatched = "dispatched"

abbrev pub running : String
running = "running"

abbrev pub success : String
success = "success"

abbrev pub failed : String
failed = "failed"
