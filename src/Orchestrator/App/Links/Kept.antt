-- ===== src/Orchestrator/App/Links/Kept.antt =====
-- Every request and every tick of the schedule keeps the foreign keys.
use turbocat.Prelude.{ℕ, Result-cases, inl, inr}
use turbocat.Orchestrator.Models.{Db}
use turbocat.Orchestrator.Auth.{verify_agent_key}
use turbocat.Orchestrator.Scheduler.{enqueue_job}
use turbocat.Orchestrator.Pipelines.{connection_key}
use turbocat.Orchestrator.Connections.{
  CreateConnectionRequest, create_connection, test_saved_connection,
}
use turbocat.Orchestrator.App.{
  Process, World, Headers, post_test, post_connection, get_connections, post_saved_test,
  get_schema_of, post_bulk, get_pipelines, get_pipeline_of, patch_deactivate, get_pending,
  post_status, post_heartbeat, Request, Console, Machine, console, machine, get_health, authorized,
  serve_console, serve_machine, serve,
}
use turbocat.Orchestrator.App.Outcomes.{
  create_connection_outcome, test_saved_connection_outcome, list_schema_outcome,
}
use turbocat.Orchestrator.App.Links.{IsLinked, Known-append, Known-replace}
use turbocat.Orchestrator.App.Links.Tables.{with_connections}
use turbocat.Orchestrator.App.Links.Handlers.{
  enqueue_job-IsLinked, heartbeat-IsLinked, get_pending_jobs-IsLinked, update_job_status-IsLinked,
  deactivate_pipeline-IsLinked, bulk_create_pipelines-IsLinked,
}

module _ {Config Connector C T Trigger : Type 0} (p : Process Config Connector C T Trigger) where
  create_connection-IsLinked :
      (a : ℕ) (body : CreateConnectionRequest) (db : Db) (c : C)
      → IsLinked db
      → IsLinked
          (create_connection p.make_config p.make_connector p.test p.manager p.uuid_text
            p.connection_id p.now body a
            (db, c)).1.0
  create_connection-IsLinked a body db c v = elim (create_connection_outcome p a body db c) [
    | inl (e, failed, same) ↦ rw same v
    | inr (row, _, _, added) ↦
        rw added (with_connections db v _ (Known-append connection_key db.connections _))
  ]

  test_saved_connection-IsLinked :
      (a k : ℕ) (db : Db) (c : C)
      → IsLinked db
      → IsLinked
          (test_saved_connection p.make_config p.make_connector p.test p.manager p.uuid_text p.now k
            a
            (db, c)).1.0
  test_saved_connection-IsLinked a k db c v = elim (test_saved_connection_outcome p a k db c) [
    | inl (e, failed, same) ↦ rw same v
    | inr (row, tested, _, _, changed) ↦
        rw changed (with_connections db v _ (Known-replace connection_key tested db.connections))
  ]

  serve_console-IsLinked :
      (a : ℕ) (request : Console) (w : World C T)
      → IsLinked w.db
      → IsLinked (serve_console p a request w).1.db
  unfolding serve_console
  serve_console-IsLinked a (post_test source credentials) w v = v
  serve_console-IsLinked a (post_connection body) w v =
      create_connection-IsLinked a body w.db w.secrets v
  serve_console-IsLinked a get_connections w v = v
  serve_console-IsLinked a (post_saved_test k) w v =
      test_saved_connection-IsLinked a k w.db w.secrets v
  serve_console-IsLinked a (get_schema_of k) w v = rw (list_schema_outcome p a k w.db w.secrets) v
  serve_console-IsLinked a (post_bulk body) w v =
      bulk_create_pipelines-IsLinked w.db v p.cron p.uuid_text p.new_id body a w.scheduler
  serve_console-IsLinked a get_pipelines w v = v
  serve_console-IsLinked a (get_pipeline_of k) w v = v
  serve_console-IsLinked a (patch_deactivate k) w v =
      deactivate_pipeline-IsLinked w.db v p.cron p.uuid_text k a w.scheduler

  serve_machine-IsLinked :
      (request : Machine) (w : World C T)
      → IsLinked w.db
      → IsLinked (serve_machine p request w).1.db
  unfolding serve_machine
  serve_machine-IsLinked (get_pending agent_id) w v =
      get_pending_jobs-IsLinked w.db v p.services p.locked p.now agent_id
  serve_machine-IsLinked (post_status job_id body) w v =
      update_job_status-IsLinked w.db v p.now job_id body
  serve_machine-IsLinked (post_heartbeat agent_id) w v = heartbeat-IsLinked w.db v p.now agent_id

  request-IsLinked :
      (headers : Headers) (request : Request) (w : World C T)
      → IsLinked w.db
      → IsLinked (serve p headers request w).1.db
  unfolding serve
  request-IsLinked headers (console request) w v = elim (Result-cases (authorized p headers)) [
    | inr (e, refused) ↦ rw (refused, serve) v
    | inl (token, valid) ↦ rw (valid, serve) (serve_console-IsLinked token.account_id request w v)
  ]
  request-IsLinked headers (machine request) w v =
      elim (Result-cases (verify_agent_key p.agent_api_key headers.x_agent_key)) [
        | inr (e, refused) ↦ rw (refused, serve) v
        | inl (u, known) ↦ rw (known, serve) (serve_machine-IsLinked request w v)
      ]
  request-IsLinked headers get_health w v = v

  -- Where every pipeline refers to an agent and a connection that there are, and every job to a
  -- pipeline and an agent: so it is after any request with any headers, and after any tick of the
  -- schedule.
  pub serve-IsLinked :
      (w : World C T)
      → IsLinked w.db
      → ((headers : Headers) (request : Request) → IsLinked (serve p headers request w).1.db)
        × ((job_id pipeline_id agent_id : ℕ)
            → IsLinked (enqueue_job job_id pipeline_id agent_id w.db).1)
  serve-IsLinked w v =
      (λ headers request. request-IsLinked headers request w v, enqueue_job-IsLinked w.db v)
