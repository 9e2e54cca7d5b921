-- ===== src/Lib.antt =====
-- turbocat moves records from the APIs of payment and ticket services into ClickHouse. It has three
-- programs. The orchestrator (orchestrator/src/orchestrator) keeps agents, connections, pipelines and
-- job runs in PostgreSQL. An agent (agent/src/agent) polls it for jobs, runs each of them with a
-- source connector and the ClickHouse destination (connectors/src/data_connectors), and reports the
-- outcome. A report of success carries the cursor from which the next window of the pipeline is made.
--
-- Where each part is modelled:
--
--   Prelude, Python      Boolean tests and lists over the native numbers; exceptions as values
--                        (`Result`), methods that change a state and may raise (`Exec`); dicts, JSON
--                        values, `int(text)`, `datetime` arithmetic.
--   Connectors/Base      base/models.py and base/connector.py: the schema, `validate`, and `sync` as a
--                        loop over what `extract` yields, with the exception that ends the generator.
--                        Typing says which values the types of a schema allow.
--   Connectors/Clickhouse  destinations/clickhouse/connector.py: the statements sent and `load`.
--   Connectors/Source, Connectors/Razorpay  sources/razorpay: the loop over the pages, `transform`,
--                        `get_schema`.
--   Connectors/Kapture   sources/kapture: the loop over the days, `transform`, `get_schema`.
--   Connectors/HttpClient  common/http_client.py: `_request` and its call of itself after a 429.
--   Connectors/Probe     the constructors of the connectors and their `test_connection`.
--   Connectors/Registry  registry.py.
--   Orchestrator/Models, Orchestrator/Table  models/*.py as records, a table as the list of its rows.
--   Orchestrator/Jobs    routes/jobs.py: `get_pending_jobs` (Dispatch), its payloads (Payload) and
--                        `update_job_status` (Status); the polls of several agents interleaved with
--                        reports and ticks of the schedule, as steps (Interleaving).
--   Orchestrator/Scheduler, Orchestrator/Pipelines, Orchestrator/Access  scheduler.py and
--                        routes/pipelines.py, over the database and APScheduler.
--   Orchestrator/Secrets, Orchestrator/Connections  secrets.py and routes/connections.py, over the
--                        database and Secrets Manager.
--   Orchestrator/Auth    auth.py and routes/agents.py.
--   Orchestrator/App     main.py: every route behind the guard of its router, over one world of
--                        database, Secrets Manager and scheduler; its guards (Guarded), what an
--                        account can change (Tenants) and see (Answers), the foreign keys
--                        (Links), the paths of the agent's routes (Routing).
--   Orchestrator/Lifespan  main.py's `lifespan`: the program off and up, its startup over the database,
--                        requests, ticks of the schedule, shutdowns (Reached, Startup, Fresh); the tables and
--                        the scheduler in step with one another (InStep, Loading, Changes, Kept).
--   Orchestrator/Settings  settings.py: `_load_from_aws` and the import of the module, over os.environ.
--   Orchestrator/Migrations  migrations/versions: the four revisions on a schema, and the tables that
--                        models/*.py declare.
--   Agent/Executor       executor.py's `run_job`.
--   Agent/Client         client.py: its calls as HTTP requests, with method, path, query, body and key,
--                        and what the app makes of them (Served).
--   Agent/Loop           agent.py's event loop, with the permits of its semaphore, and the shutdown of
--                        main.py, as steps of a scheduler that may run tasks in any order.
--   Agent/Startup        settings.py, `Agent.__init__` and `_run` of main.py: the semaphore and the threads
--                        of an agent that has started (Slots), up to the end of the drain (Shutdown).
--   Cycle                both programs one after the other: a window and the next one, and a run with its
--                        two reports (Reporting, Recorded); all the runs of one pipeline as a step relation,
--                        with their windows on the line of time (Timeline).
--   Fleet                the orchestrator and any number of agents as one step relation.
--   Tests                concrete inputs.
--
-- How state is modelled. A method that writes and may raise is a function from the state to a result
-- and the state after it, so what was written before an exception stays written. The state of a
-- destination, of the API's server and of the network is a type parameter; the drivers, the HTTP
-- requests, Secrets Manager and `isoformat`/`fromisoformat` are parameters, with what is asked of them
-- named where it is used. A float is its 64 bits, an instant the microseconds since the year 1, a UUID
-- a number.
--
-- Fuel. `pages` spends one unit for each page; the theorems on it give the number that is enough where
-- the server pages through one collection. `days` spends one for each day of the window and one more.
-- `_request` follows the list of the server's answers.
--
-- `Agent/Loop`, `Jobs/Interleaving`, `Lifespan`, `Cycle/Timeline` and `Fleet` are relations and need
-- no fuel.
--
-- Not modelled: exceptions.py, whose classes no connector raises; what pydantic reads from the
-- environment, the database session and migrations/env.py, which are calls of frameworks; the
-- heartbeat timer, which touches no state of the loop; the retries that urllib3 makes below the HTTP
-- client, and waits of more than 292 years; CORS, the page of the API reference, the paths of the
-- console's routes and the parsing of bodies; indexes; logging. The choice of a route by its method and
-- path is FastAPI's, and the order of rows in a query without ORDER BY PostgreSQL's: both are
-- parameters. Where two connections have one `created_at`, the model of their query gives one of the
-- orders that PostgreSQL may give.
-- The uncommitted reads and the rollback of PostgreSQL are in the model only as: a handler that raises
-- before its commit leaves the tables as they were, and rows that another open transaction has locked
-- are skipped.
pub mod Prelude
pub mod Python
pub mod Connectors
pub mod Orchestrator
pub mod Agent
pub mod Cycle
pub mod Fleet
pub mod Tests
