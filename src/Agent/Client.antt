-- ===== src/Agent/Client.antt =====
-- client.py: the three calls of the agent as requests to the orchestrator, with what the session puts
-- into every header. The transport is `requests`', and the base URL is left out.
pub mod Served
use turbocat.Prelude.{ℕ, String, Option, none, some, [], ◌∷◌}
use turbocat.Python.Value.{ℤ, pos}
use turbocat.Agent.Executor.{Report}
use turbocat.Orchestrator.Jobs.Status.{StatusUpdate}
use turbocat.Orchestrator.App.{Headers}
use turbocat.Orchestrator.App.Routing.{HttpRequest}

abbrev pub count_of : Option ℕ → Option ℤ
count_of none = none
count_of (some n) = some (pos n)

-- json={"status": …, "rows_synced": …, "error": …, "next_state": …}
unfoldable pub body_of : Report → StatusUpdate
body_of report = record {
  status = report.status;
  rows_synced = count_of report.rows_synced;
  error = report.error;
  next_state = report.next_state;
}

-- `_agent_id` and what `_session.headers` says of the key.
pub record OrchestratorClient : Type 0 where
  pub agent_id : ℕ
  pub api_key : String

unfoldable pub session_headers : OrchestratorClient → Headers
session_headers client = record { authorization = none; x_agent_key = some client.api_key }

pub data Call : Type 0 where
  get_pending_jobs heartbeat : Call
  report_status : ℕ → Report → Call

-- The method, the path below the base URL, the query and the body of each call. `uuid_text` is
-- `str` of a UUID.
unfoldable pub request_of : (ℕ → String) → OrchestratorClient → Call → HttpRequest
unfolding body_of
request_of uuid_text client Call.get_pending_jobs = record {
  method = "GET";
  path = "jobs" ∷ "pending" ∷ [];
  query = ("agent_id", uuid_text client.agent_id) ∷ [];
  body = none;
}
request_of uuid_text client (Call.report_status job_id report) = record {
  method = "POST";
  path = "jobs" ∷ uuid_text job_id ∷ "status" ∷ [];
  query = [];
  body = some (body_of report);
}
request_of uuid_text client Call.heartbeat = record {
  method = "POST";
  path = "agents" ∷ uuid_text client.agent_id ∷ "heartbeat" ∷ [];
  query = [];
  body = none;
}
