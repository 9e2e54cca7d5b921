-- ===== src/Orchestrator/App/Routing.antt =====
-- How FastAPI finds the handler of a request of the agent: the table of the two routers that main.py
-- includes with the agent's key, with the paths of routes/jobs.py and routes/agents.py below their
-- prefixes; the routers that main.py includes before them have other prefixes. A path is the list of what stands between its slashes. The choice of the route is FastAPI's
-- and reading a UUID is pydantic's: both are parameters.
use mathlib.Core.Option
use turbocat.Prelude.{
  ℕ, String, Option, none, some, List, [], ◌∷◌, ◌++◌, ◌≡◌, ◌≢◌, ◌⊎◌, map, Result, ok, err, Exc,
  http_exception,
}
use turbocat.Prelude.Exec.{Exec}
use turbocat.Python.Dict.{Dict, get?}
use turbocat.Orchestrator.Auth.{verify_agent_key}
use turbocat.Orchestrator.Jobs.Status.{StatusUpdate}
use turbocat.Orchestrator.App.{
  Process, World, Response, Headers, Machine, get_pending, post_status, post_heartbeat,
  serve_machine,
}

pub record HttpRequest : Type 0 where
  pub method : String
  pub path : List String
  pub query : Dict String
  pub body : Option StatusUpdate

pub data Segment : Type 0 where
  lit : String → Segment
  param : Segment

pub data Endpoint : Type 0 where
  jobs_pending jobs_status agents_heartbeat : Endpoint

pub record Route : Type 0 where
  pub method : String
  pub pattern : List Segment
  pub endpoint : Endpoint

-- `include_router(…, prefix=…)`
abbrev pub with_prefix : String → List Route → List Route
with_prefix prefix = map (λ (r : Route). record r { pattern = lit prefix ∷ r.pattern })

abbrev pub jobs_routes : List Route
jobs_routes =
    record { method = "GET"; pattern = lit "pending" ∷ []; endpoint = jobs_pending }
    ∷ record { method = "POST"; pattern = param ∷ lit "status" ∷ []; endpoint = jobs_status }
    ∷ []

abbrev pub agents_routes : List Route
agents_routes =
    record { method = "POST"; pattern = param ∷ lit "heartbeat" ∷ []; endpoint = agents_heartbeat }
    ∷ []

abbrev pub routes : List Route
routes = with_prefix "jobs" jobs_routes ++ with_prefix "agents" agents_routes

-- The path has the form of the pattern, whose parameters stand for the captured texts. A parameter
-- is not empty.
abbrev pub Captures : List Segment → List String → List String → Type 0
Captures [] [] [] = Unit
Captures (lit name ∷ pattern) (s ∷ path) captured = (s ≡ name) × Captures pattern path captured
Captures (param ∷ pattern) (s ∷ path) (c ∷ captured) =
    (s ≢ "") × (c ≡ s) × Captures pattern path captured
Captures _ _ _ = ⊥

abbrev pub Misses : Route → HttpRequest → Type 0
Misses r request =
    (r.method ≢ request.method)
    ⊎ ((captured : List String) → Captures r.pattern request.path captured → ⊥)

abbrev pub Dispatch : Type 0
Dispatch = List Route → HttpRequest → Result (Endpoint × List String)

-- What FastAPI documents of its routing: the first route with the method and the path is taken.
pub record IsDispatch (dispatch : Dispatch) : Type 0 where
  pub takes :
      (r : Route) (rest : List Route) (request : HttpRequest) (captured : List String)
      → r.method ≡ request.method
      → Captures r.pattern request.path captured
      → dispatch (r ∷ rest) request ≡ ok (r.endpoint, captured)
  pub skips :
      (r : Route) (rest : List Route) (request : HttpRequest) (found : Endpoint × List String)
      → Misses r request
      → dispatch rest request ≡ ok found
      → dispatch (r ∷ rest) request ≡ ok found

module _ (parse_uuid : String → Option ℕ) where
  -- The parameters of the handler.
  unfoldable pub bind : Endpoint → List String → HttpRequest → Option Machine
  bind jobs_pending captured request = elim (get? "agent_id" request.query) [
    | none ↦ none
    | some s ↦ Option.map get_pending (parse_uuid s)
  ]
  bind jobs_status [] request = none
  bind jobs_status (s ∷ captured) request = elim request.body [
    | none ↦ none
    | some body ↦ Option.map (λ job_id. post_status job_id body) (parse_uuid s)
  ]
  bind agents_heartbeat [] request = none
  bind agents_heartbeat (s ∷ captured) request = Option.map post_heartbeat (parse_uuid s)

  abbrev pub unprocessable : Exc
  unprocessable = record { kind = http_exception 422; text = "Unprocessable Entity" }

  module _ (dispatch : Dispatch) {Config Connector C T Trigger : Type 0}
      (p : Process Config Connector C T Trigger) where
    -- The route, the guard of its router, the parameters, and the handler.
    unfoldable pub receive : Headers → HttpRequest → Exec (World C T) Response
    unfolding bind
    receive headers request w = elim (dispatch routes request) [
      | err e ↦ (err e, w)
      | ok (endpoint, captured) ↦ elim (verify_agent_key p.agent_api_key headers.x_agent_key) [
        | err e ↦ (err e, w)
        | ok _ ↦ elim (bind endpoint captured request) [
          | none ↦ (err unprocessable, w)
          | some m ↦ serve_machine p m w
        ]
      ]
    ]
