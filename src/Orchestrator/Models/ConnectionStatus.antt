-- ===== src/Orchestrator/Models/ConnectionStatus.antt =====
-- models/connection.py: `ConnectionStatus`, as the column stores it.
use turbocat.Prelude.{String}

abbrev pub untested : String
untested = "untested"

abbrev pub active : String
active = "active"

abbrev pub failed : String
failed = "failed"
