-- ===== src/Tests/Apps.antt =====
-- The orchestrator's app with an agent and two accounts.
use mathlib.Core.List.{Perm}
use turbocat.Prelude.{
  true, false, ℕ, suc, ◌-◌, Option, arith, ap, String, ◌≡◌, ◌≢◌, refl, none, some, [], ◌∷◌, filter,
  Result, ok, err, Exc, ◌==◌, str_eq, if◌then◌else◌,
}
use turbocat.Python.Dict.{Dict}
use turbocat.Python.Value.{Value, text}
use turbocat.Orchestrator.Models.{Connection, Db}
use turbocat.Orchestrator.Connections.Listing.{
  list_connections, IsNewestFirst, list_connections_lem,
}
use turbocat.Orchestrator.Auth.{TokenPayload, unauthorized, verify_token}
use turbocat.Orchestrator.App.{
  Process, World, Request, Headers, Console, Machine, console, machine, patch_deactivate,
  authorized, serve, serve_machine,
}
use turbocat.Orchestrator.App.Guarded.{IsBearer, serve-unauthorized}
use turbocat.Orchestrator.App.Tenants.{SparesOthers}
use turbocat.Orchestrator.App.Answers.{Answers, serve_isolated}
use turbocat.Orchestrator.Table.{find}
use turbocat.Orchestrator.Scheduler.{enqueue_job}
use turbocat.Orchestrator.App.Links.{Known, IsLinked}
use turbocat.Orchestrator.App.Links.Kept.{serve-IsLinked}
use turbocat.Agent.Client.{OrchestratorClient, Call, session_headers, request_of}
use turbocat.Agent.Client.Served.{handler_of, receive-request_of}
use turbocat.Orchestrator.App.Routing.{receive}
use turbocat.Agent.Executor.{Report}
use turbocat.Tests.Routings.{dispatch, dispatch-IsDispatch}
use turbocat.Tests.Marks.{marks, count-marks}
use Prim.Native.String.{count}
use turbocat.Cycle.Timeline.{KeepsCursor}
use turbocat.Cycle.Timeline.Requests.{IsOther, serve-KeepsCursor}
use turbocat.Tests.Fixtures.{bad, now, tiny}
use turbocat.Tests.Control.{connection, pipeline, job_of, services}
use turbocat.Tests.Routes.{Board, cron, uuid_text, empty, agent, full_db, new_id}
use turbocat.Tests.Connections.{Vault, manager, no_secrets, make_config, make_connector, passes}

abbrev decode : String → Result (Dict Value)
decode s = if str_eq s "token" then ok (("sub", text "u") ∷ []) else err bad

abbrev model_validate : Dict Value → Result TokenPayload
model_validate d = ok (record { sub = "u"; account_id = 1 })

abbrev pub app : Process (Dict Value) (Dict Value) Vault Board ℕ
app = record {
  decode = decode;
  model_validate = model_validate;
  is_refusal = λ e. true;
  agent_api_key = "key";
  make_config = make_config;
  make_connector = make_connector;
  test = passes;
  get_schema = λ c. tiny;
  manager = manager;
  uuid_text = uuid_text;
  cron = cron;
  services = services;
  locked = λ k. false;
  now = now;
  connection_id = 9;
  new_id = new_id;
}

abbrev world : World Vault Board
world = record { db = full_db; secrets = no_secrets; scheduler = empty }

abbrev pub with_token : Headers
with_token = record { authorization = some "token"; x_agent_key = none }

serve-unauthorized_example :
    (with_token.x_agent_key ≢ some "key"
      → (r : Machine)
      → serve app with_token (machine r) world
        ≡ (err (unauthorized "Invalid or missing agent key"), world))
    × ((IsBearer app with_token → ⊥)
        → (r : Console) → (e : Exc) × (serve app with_token (console r) world ≡ (err e, world)))
serve-unauthorized_example = serve-unauthorized app with_token world

serve_isolated_example :
    SparesOthers 1 full_db (serve app with_token (console (patch_deactivate 5)) world).1.db
    × Answers 1 (serve app with_token (console (patch_deactivate 5)) world).0
unfolding authorized verify_token
serve_isolated_example =
    serve_isolated app with_token (patch_deactivate 5) world (record { sub = "u"; account_id = 1 })
      refl

abbrev client : OrchestratorClient
client = record { agent_id = 1; api_key = "key" }

-- The text of an id is one mark longer than the id.
abbrev marked : Process (Dict Value) (Dict Value) Vault Board ℕ
marked = record app { uuid_text = λ k. marks (suc k) }

abbrev parse_uuid : String → Option ℕ
parse_uuid s = some (count s - 1)

full : (k : ℕ) → marked.uuid_text k ≢ ""
full k h = absurd (omega (arith, count-marks (suc k), ap count h))

inverse : (k : ℕ) → parse_uuid (marked.uuid_text k) ≡ some k
inverse k = ap some (omega (arith, count-marks (suc k)))

abbrev failed : Report
failed = record { status = "failed"; rows_synced = none; error = some "e"; next_state = none }

receive-request_of_example :
    receive parse_uuid dispatch marked
      (session_headers client)
      (request_of marked.uuid_text client (Call.report_status 1 failed))
      world
    ≡ serve_machine marked (handler_of client (Call.report_status 1 failed)) world
receive-request_of_example =
    receive-request_of marked dispatch parse_uuid dispatch-IsDispatch full inverse client
      (Call.report_status 1 failed) world

abbrev older : Connection
older = record connection { connection_id = 2 }

abbrev newer : Connection
newer = record connection { connection_id = 3; created_at = 8 }

abbrev three : Db
three = record full_db { connections = older ∷ record older { account_id = 2 } ∷ newer ∷ [] }

list_connections_test : list_connections three 1 ≡ newer ∷ older ∷ []
unfolding list_connections
list_connections_test = refl

list_connections_lem_example :
    Perm
      (list_connections three 1)
      (filter (λ (c : Connection). c.account_id == 1) three.connections)
    × IsNewestFirst (list_connections three 1)
list_connections_lem_example = list_connections_lem three 1

abbrev pub linked_world : World Vault Board
linked_world = record world { db = record full_db { job_runs = job_of 1 1 "pending" ∷ [] } }

pub linked : IsLinked linked_world.db
unfolding Known find
linked = record {
  by_pipelines = (((agent, refl), (connection, refl)), tt);
  by_jobs = (((pipeline, refl), (agent, refl)), tt);
}

serve-IsLinked_example :
    ((headers : Headers) (request : Request)
      → IsLinked (serve app headers request linked_world).1.db)
    × ((job_id pipeline_id agent_id : ℕ)
        → IsLinked (enqueue_job job_id pipeline_id agent_id linked_world.db).1)
serve-IsLinked_example = serve-IsLinked app linked_world linked

serve-KeepsCursor_example :
    ((headers : Headers) (r : Request)
      → IsOther 5 linked_world.db r
      → KeepsCursor 5 linked_world.db (serve app headers r linked_world).1.db)
    × ((job_id pipeline_id agent_id : ℕ)
        → KeepsCursor 5 linked_world.db (enqueue_job job_id pipeline_id agent_id linked_world.db).1)
unfolding find
serve-KeepsCursor_example = serve-KeepsCursor app 5 linked_world pipeline refl
