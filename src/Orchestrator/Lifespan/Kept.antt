-- ===== src/Orchestrator/Lifespan/Kept.antt =====
-- Every state that the program reaches, over any number of restarts.
use turbocat.Prelude.{
  ℕ, Bool, ◌≡◌, refl, none, Result-cases, Option-cases, Bool-cases, is_nil, inl, inr,
}
use turbocat.Orchestrator.Table.{find}
use turbocat.Orchestrator.Models.{Db}
use turbocat.Orchestrator.Auth.{agent_key, verify_agent_key, heartbeat}
use turbocat.Orchestrator.Jobs.Status.{pipeline_key}
use turbocat.Orchestrator.Jobs.Payload.{Services}
use turbocat.Orchestrator.Jobs.Dispatch.{claim, get_pending_jobs}
use turbocat.Orchestrator.Scheduler.{Lawful, enqueue_job}
use turbocat.Orchestrator.App.{
  Process, World, Headers, post_test, post_connection, get_connections, post_saved_test,
  get_schema_of, post_bulk, get_pipelines, get_pipeline_of, patch_deactivate, get_pending,
  post_status, post_heartbeat, Request, Console, Machine, console, machine, get_health, authorized,
  serve_console, serve_machine, serve,
}
use turbocat.Orchestrator.App.Outcomes.{
  create_connection_outcome, test_saved_connection_outcome, list_schema_outcome,
}
use turbocat.Orchestrator.Lifespan.Changes.{
  IsSound, update_job_status-IsSound, deactivate_pipeline-IsSound, bulk_create_pipelines-IsSound,
}

pub heartbeat-pipelines : (now k : ℕ) (db : Db) → (heartbeat now k db).1.pipelines ≡ db.pipelines
unfolding heartbeat
heartbeat-pipelines now k db = elim (Option-cases (find agent_key k db.agents)) [
  | inl missing ↦ rw (missing, heartbeat) refl
  | inr (a, found) ↦ rw (found, heartbeat) refl
]

pub get_pending_jobs-pipelines :
    (services : Services) (locked : ℕ → Bool) (now k : ℕ) (db : Db)
    → (get_pending_jobs services locked now k db).1.pipelines ≡ db.pipelines
unfolding get_pending_jobs
get_pending_jobs-pipelines services locked now k db =
    elim (Bool-cases (is_nil (claim locked k db.job_runs))) [
      | inl idle ↦ rw (idle, get_pending_jobs) refl
      | inr some_left ↦ rw (some_left, get_pending_jobs) refl
    ]

pub enqueue_job-pipelines :
    (job_id k agent_id : ℕ) (db : Db)
    → (enqueue_job job_id k agent_id db).1.pipelines ≡ db.pipelines
unfolding enqueue_job
enqueue_job-pipelines job_id k agent_id db =
    elim (Option-cases (find pipeline_key k db.pipelines)) [
      | inl missing ↦ rw (missing, enqueue_job) refl
      | inr (p, found) ↦ elim (Option-cases (find agent_key agent_id db.agents)) [
        | inl missing ↦ rw (found, missing, enqueue_job) refl
        | inr (a, there) ↦ rw (found, there, enqueue_job) refl
      ]
    ]

module _ {Config Connector C T Trigger : Type 0} (p : Process Config Connector C T Trigger) where
  -- Of a running program.
  abbrev pub Fits : World C T → Type 0
  Fits w = IsSound p.cron p.uuid_text w.db.pipelines w.scheduler

module _ {Config Connector C T Trigger : Type 0} (p : Process Config Connector C T Trigger)
    (lawful : Lawful p.cron) (injective : (i j : ℕ) → p.uuid_text i ≡ p.uuid_text j → i ≡ j) where
  module _ (w : World C T) (v : Fits p w)
      (unused : (i : ℕ) → find pipeline_key (p.new_id i) w.db.pipelines ≡ none)
      (apart : (i j : ℕ) → p.new_id i ≡ p.new_id j → i ≡ j) where
    serve_console-Fits : (a : ℕ) (r : Console) → Fits p (serve_console p a r w).1
    unfolding serve_console
    serve_console-Fits a (post_test source credentials) = v
    serve_console-Fits a (post_connection body) =
        elim (create_connection_outcome p a body w.db w.secrets) [
          | inl (e, failed, same) ↦ rw same v
          | inr (row, _, _, added) ↦ rw added v
        ]
    serve_console-Fits a get_connections = v
    serve_console-Fits a (post_saved_test k) =
        elim (test_saved_connection_outcome p a k w.db w.secrets) [
          | inl (e, failed, same) ↦ rw same v
          | inr (row, tested, _, _, changed) ↦ rw changed v
        ]
    serve_console-Fits a (get_schema_of k) = rw (list_schema_outcome p a k w.db w.secrets) v
    serve_console-Fits a (post_bulk body) =
        bulk_create_pipelines-IsSound p.cron p.uuid_text lawful injective w.db w.scheduler v
          p.new_id a body unused apart
    serve_console-Fits a get_pipelines = v
    serve_console-Fits a (get_pipeline_of k) = v
    serve_console-Fits a (patch_deactivate k) =
        deactivate_pipeline-IsSound p.cron p.uuid_text lawful injective w.db w.scheduler v k a

    serve_machine-Fits : (r : Machine) → Fits p (serve_machine p r w).1
    unfolding serve_machine
    serve_machine-Fits (get_pending k) =
        rw (get_pending_jobs-pipelines p.services p.locked p.now k w.db) v
    serve_machine-Fits (post_status job_id body) =
        update_job_status-IsSound p.cron p.uuid_text lawful injective w.db w.scheduler v p.now
          job_id body
    serve_machine-Fits (post_heartbeat k) = rw (heartbeat-pipelines p.now k w.db) v

    pub serve-Fits : (headers : Headers) (r : Request) → Fits p (serve p headers r w).1
    unfolding serve
    serve-Fits headers (console r) = elim (Result-cases (authorized p headers)) [
      | inr (e, refused) ↦ rw (refused, serve) v
      | inl (token, valid) ↦ rw (valid, serve) (serve_console-Fits token.account_id r)
    ]
    serve-Fits headers (machine r) =
        elim (Result-cases (verify_agent_key p.agent_api_key headers.x_agent_key)) [
          | inr (e, refused) ↦ rw (refused, serve) v
          | inl (u, known) ↦ rw (known, serve) (serve_machine-Fits r)
        ]
    serve-Fits headers get_health = v
