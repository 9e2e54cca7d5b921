-- ===== src/Agent/Client/Served.antt =====
-- The agent's calls at the orchestrator's app.
use turbocat.Prelude.{
  ℕ, String, Option, ◌≡◌, ◌≢◌, some, List, [], ◌∷◌, ok, err, str_eq, eq_iff, if◌then◌else◌,
  Bool-cases, inl, inr, refl, sym, arith, false,
}
use turbocat.Python.Dict.{get?}
use turbocat.Orchestrator.Auth.{unauthorized, verify_agent_key}
use turbocat.Orchestrator.App.{
  Process, World, Machine, get_pending, post_status, post_heartbeat, serve_machine,
}
use turbocat.Orchestrator.App.Routing.{
  Endpoint, jobs_pending, jobs_status, agents_heartbeat, routes, Dispatch, IsDispatch, bind,
  receive,
}
use turbocat.Agent.Client.{OrchestratorClient, Call, session_headers, request_of, body_of}

abbrev pub handler_of : OrchestratorClient → Call → Machine
handler_of client Call.get_pending_jobs = get_pending client.agent_id
handler_of client (Call.report_status job_id report) = post_status job_id (body_of report)
handler_of client Call.heartbeat = post_heartbeat client.agent_id

not_empty : (s : String) → s ≢ "" → str_eq s "" ≡ false
not_empty s full = elim (Bool-cases (str_eq s "")) [
  | inl e ↦ absurd (full ((eq_iff s "").0 e))
  | inr e ↦ e
]

abbrev endpoint_of : Call → Endpoint
endpoint_of Call.get_pending_jobs = jobs_pending
endpoint_of (Call.report_status job_id report) = jobs_status
endpoint_of Call.heartbeat = agents_heartbeat

abbrev captured_of : (ℕ → String) → OrchestratorClient → Call → List String
captured_of uuid_text client Call.get_pending_jobs = []
captured_of uuid_text client (Call.report_status job_id report) = uuid_text job_id ∷ []
captured_of uuid_text client Call.heartbeat = uuid_text client.agent_id ∷ []

get_ne_post : ◌≢◌ {A = String} "GET" "POST"
get_ne_post h = absurd (ground (arith, (eq_iff "GET" "POST").1 h))

jobs_ne_agents : ◌≢◌ {A = String} "jobs" "agents"
jobs_ne_agents h = absurd (ground (arith, (eq_iff "jobs" "agents").1 h))

module _ (uuid_text : ℕ → String) (client : OrchestratorClient) where
  dispatch-request_of :
      (dispatch : Dispatch)
      → IsDispatch dispatch
      → ((k : ℕ) → uuid_text k ≢ "")
      → (call : Call)
      → dispatch routes (request_of uuid_text client call)
        ≡ ok (endpoint_of call, captured_of uuid_text client call)
  unfolding request_of
  dispatch-request_of dispatch law full Call.get_pending_jobs =
      law.takes _ _ _ [] refl (refl, (refl, tt))
  dispatch-request_of dispatch law full (Call.report_status job_id report) =
      law.skips _ _ _ _ (inl get_ne_post)
        (law.takes _ _ _ (uuid_text job_id ∷ []) refl (refl, (full job_id, refl, (refl, tt))))
  dispatch-request_of dispatch law full Call.heartbeat = law.skips _ _ _ _ (inl get_ne_post) (
      law.skips _ _ _ _ (inr (λ captured h. jobs_ne_agents (sym h.0))) (
        law.takes _ _ _ (uuid_text client.agent_id ∷ []) refl
          (refl, (full client.agent_id, refl, (refl, tt)))))

  bind-request_of :
      (parse_uuid : String → Option ℕ)
      → ((k : ℕ) → parse_uuid (uuid_text k) ≡ some k)
      → (call : Call)
      → bind parse_uuid
          (endpoint_of call)
          (captured_of uuid_text client call)
          (request_of uuid_text client call)
        ≡ some (handler_of client call)
  unfolding bind request_of get?
  bind-request_of parse_uuid inverse Call.get_pending_jobs = rw (inverse client.agent_id) refl
  bind-request_of parse_uuid inverse (Call.report_status job_id report) = rw (inverse job_id) refl
  bind-request_of parse_uuid inverse Call.heartbeat = rw (inverse client.agent_id) refl

module _ {Config Connector C T Trigger : Type 0} (p : Process Config Connector C T Trigger)
    (dispatch : Dispatch) (parse_uuid : String → Option ℕ) where
  -- Where FastAPI takes the first route with the method and the path, and the text of a UUID is not
  -- empty and is read back as that UUID: every call of the client is routed, by its method and its
  -- path, to the handler that it is meant for, which gets the arguments of the call from the path,
  -- the query and the body, and runs if the client has the orchestrator's key; with another key the
  -- call ends with 401 and changes nothing.
  pub receive-request_of :
      IsDispatch dispatch
      → ((k : ℕ) → p.uuid_text k ≢ "")
      → ((k : ℕ) → parse_uuid (p.uuid_text k) ≡ some k)
      → (client : OrchestratorClient) (call : Call) (w : World C T)
      → receive parse_uuid dispatch p
          (session_headers client)
          (request_of p.uuid_text client call)
          w
        ≡ (if str_eq client.api_key p.agent_api_key
            then serve_machine p (handler_of client call) w
            else (err (unauthorized "Invalid or missing agent key"), w))
  unfolding receive session_headers verify_agent_key
  receive-request_of law full inverse client call w =
      let routed = dispatch-request_of p.uuid_text client dispatch law full call in
      let bound = bind-request_of p.uuid_text client parse_uuid inverse call in
      elim (Bool-cases (str_eq client.api_key p.agent_api_key)) [
        | inl same ↦ rw (receive, routed, same, bound) refl
        | inr other ↦ rw (receive, routed, other) refl
      ]
