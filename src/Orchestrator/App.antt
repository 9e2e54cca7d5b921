-- ===== src/Orchestrator/App.antt =====
-- main.py of the orchestrator: the routers, the guard that each is included under, and the handlers.
-- The parsing of bodies is FastAPI's: a request names the route that it matched. Routing says how the
-- requests of the agent come to theirs.
pub mod Guarded
pub mod Outcomes
pub mod Tenants
pub mod Links
pub mod Answers
pub mod Routing
use turbocat.Prelude.{
  ℕ, String, Bool, Option, none, some, List, [], ◌∷◌, Result, ok, err, Exc, ◌≡◌, ◌>>=◌, refl,
}
use turbocat.Prelude.Exec.{Exec}
use turbocat.Python.Dict.{Dict}
use turbocat.Python.Value.{Value}
use turbocat.Connectors.Base.Schema.{TableSchema}
use turbocat.Connectors.Registry.{ConnectorClass, ConfigClass}
use turbocat.Orchestrator.Models.{Connection, Pipeline, Db}
use turbocat.Orchestrator.Jobs.Payload.{JobPayload, Services}
use turbocat.Orchestrator.Jobs.Status.{StatusUpdate, status_ok, update_job_status}
use turbocat.Orchestrator.Jobs.Dispatch.{get_pending_jobs}
use turbocat.Orchestrator.Scheduler.{Cron}
use turbocat.Orchestrator.Pipelines.{
  BulkCreateRequest, get_pipeline, list_pipelines, bulk_create_pipelines, deactivate_pipeline,
}
use turbocat.Orchestrator.Secrets.{Manager}
use turbocat.Orchestrator.Connections.{
  CreateConnectionRequest, TestConnectionResponse, test_connection, create_connection,
  test_saved_connection, list_schema,
}
use turbocat.Orchestrator.Connections.Listing.{list_connections}
use turbocat.Orchestrator.Auth.{TokenPayload, verify_token, verify_agent_key, heartbeat}

-- The routes of connections.py and pipelines.py, with what they read of the request.
pub data Console : Type 0 where
  post_test : String → Dict String → Console
  post_connection : CreateConnectionRequest → Console
  get_connections : Console
  post_saved_test get_schema_of : ℕ → Console
  post_bulk : BulkCreateRequest → Console
  get_pipelines : Console
  get_pipeline_of patch_deactivate : ℕ → Console

-- The routes of jobs.py and agents.py.
pub data Machine : Type 0 where
  get_pending : ℕ → Machine
  post_status : ℕ → StatusUpdate → Machine
  post_heartbeat : ℕ → Machine

pub data Request : Type 0 where
  console : Console → Request
  machine : Machine → Request
  get_health : Request

-- The credentials of `Authorization: Bearer`, and X-Agent-Key.
pub record Headers : Type 0 where
  pub authorization : Option String
  pub x_agent_key : Option String

pub data Response : Type 0 where
  tested : TestConnectionResponse → Response
  one_connection : Connection → Response
  connections : List Connection → Response
  entries : List (String × String) → Response
  one_pipeline : Pipeline → Response
  pipelines : List Pipeline → Response
  jobs : List JobPayload → Response
  status : Dict String → Response

-- What the process holds and calls. `now` is the time of the request, and `connection_id` and
-- `new_id` the UUIDs that it draws; `locked` says which rows other transactions hold.
pub record Process (Config Connector C T Trigger : Type 0) : Type 0 where
  pub decode : String → Result (Dict Value)
  pub model_validate : Dict Value → Result TokenPayload
  pub is_refusal : Exc → Bool
  pub agent_api_key : String
  pub make_config : ConfigClass → Dict Value → Result Config
  pub make_connector : ConnectorClass → Config → Result Connector
  pub test : Connector → Result (Unit {0})
  pub get_schema : Connector → TableSchema
  pub manager : Manager C
  pub uuid_text : ℕ → String
  pub cron : Cron T Trigger
  pub services : Services
  pub locked : ℕ → Bool
  pub now : ℕ
  pub connection_id : ℕ
  pub new_id : ℕ → ℕ

pub record World (C T : Type 0) : Type 0 where
  pub db : Db
  pub secrets : C
  pub scheduler : T

abbrev mapped {ℓ} : {A : Type ℓ} → (A → Response) → Result A → Result Response
mapped respond r = do a ← r; ok (respond a)

module _ {Config Connector C T Trigger : Type 0} (p : Process Config Connector C T Trigger) where
  abbrev on_secrets {ℓ} :
      {A : Type ℓ} → (A → Response) → Exec (Db × C) A → Exec (World C T) Response
  on_secrets respond handler w =
      let (answer, (db', c')) = handler (w.db, w.secrets) in
      (mapped respond answer, record w { db = db'; secrets = c' })

  abbrev on_scheduler {ℓ} :
      {A : Type ℓ} → (A → Response) → Exec (Db × T) A → Exec (World C T) Response
  on_scheduler respond handler w =
      let (answer, (db', t')) = handler (w.db, w.scheduler) in
      (mapped respond answer, record w { db = db'; scheduler = t' })

  abbrev on_db {ℓ} : {A : Type ℓ} → (A → Response) → Exec Db A → Exec (World C T) Response
  on_db respond handler w =
      let (answer, db') = handler w.db in (mapped respond answer, record w { db = db' })

  unfoldable pub authorized : Headers → Result TokenPayload
  authorized headers = verify_token p.decode p.model_validate p.is_refusal headers.authorization

  -- The handlers for an account.
  unfoldable pub serve_console : ℕ → Console → Exec (World C T) Response
  unfolding test_connection create_connection list_connections test_saved_connection list_schema
      bulk_create_pipelines get_pipeline list_pipelines deactivate_pipeline
  serve_console account_id (post_test source credentials) w =
      (mapped tested (test_connection p.make_config p.make_connector p.test source credentials), w)
  serve_console account_id (post_connection body) w =
      on_secrets one_connection
        (create_connection p.make_config p.make_connector p.test p.manager p.uuid_text
          p.connection_id p.now body account_id)
        w
  serve_console account_id get_connections w =
      (ok (connections (list_connections w.db account_id)), w)
  serve_console account_id (post_saved_test k) w =
      on_secrets tested
        (test_saved_connection p.make_config p.make_connector p.test p.manager p.uuid_text p.now k
          account_id)
        w
  serve_console account_id (get_schema_of k) w =
      on_secrets entries
        (list_schema p.make_config p.make_connector p.test p.manager p.uuid_text p.get_schema k
          account_id)
        w
  serve_console account_id (post_bulk body) w =
      on_scheduler pipelines (bulk_create_pipelines p.cron p.uuid_text p.new_id body account_id) w
  serve_console account_id get_pipelines w = (ok (pipelines (list_pipelines w.db account_id)), w)
  serve_console account_id (get_pipeline_of k) w =
      (mapped one_pipeline (get_pipeline w.db k account_id), w)
  serve_console account_id (patch_deactivate k) w =
      on_scheduler one_pipeline (deactivate_pipeline p.cron p.uuid_text k account_id) w

  unfoldable pub serve_machine : Machine → Exec (World C T) Response
  unfolding get_pending_jobs update_job_status heartbeat
  serve_machine (get_pending agent_id) =
      on_db jobs (get_pending_jobs p.services p.locked p.now agent_id)
  serve_machine (post_status job_id body) = on_db status (update_job_status p.now job_id body)
  serve_machine (post_heartbeat agent_id) = on_db status (heartbeat p.now agent_id)

  -- The app: the guard of the router, and then the handler.
  unfoldable pub serve : Headers → Request → Exec (World C T) Response
  unfolding authorized serve_console serve_machine
  serve headers (console request) w = elim (authorized headers) [
    | err e ↦ (err e, w)
    | ok token ↦ serve_console token.account_id request w
  ]
  serve headers (machine request) w = elim (verify_agent_key p.agent_api_key headers.x_agent_key) [
    | err e ↦ (err e, w)
    | ok _ ↦ serve_machine request w
  ]
  serve headers get_health w = (ok (status status_ok), w)
