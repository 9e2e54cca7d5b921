-- ===== src/Cycle/Timeline/Requests.antt =====
-- What leaves the cursor of a pipeline alone: every request but the report of one of its jobs.
use turbocat.Prelude.{
  ℕ, false, ◌≡◌, ◌≢◌, refl, ap, ◌∙◌, none, some, Option-cases, Result-cases, inl, inr,
}
use turbocat.Orchestrator.Table.{find, find-key}
use turbocat.Orchestrator.Models.{Pipeline, JobRun, Db}
use turbocat.Orchestrator.Access.{owned_iff}
use turbocat.Orchestrator.Auth.{verify_agent_key}
use turbocat.Orchestrator.Scheduler.{enqueue_job}
use turbocat.Orchestrator.Pipelines.{pipeline_account, get_pipeline}
use turbocat.Orchestrator.Jobs.Status.{StatusUpdate, pipeline_key, job_key, update_job_status}
use turbocat.Orchestrator.App.{
  Process, World, Headers, post_test, post_connection, get_connections, post_saved_test,
  get_schema_of, post_bulk, get_pipelines, get_pipeline_of, patch_deactivate, get_pending,
  post_status, post_heartbeat, Request, Console, Machine, console, machine, get_health, authorized,
  serve_console, serve_machine, serve,
}
use turbocat.Orchestrator.App.Outcomes.{
  create_connection_outcome, test_saved_connection_outcome, list_schema_outcome,
  bulk_create_pipelines_outcome, deactivate_pipeline_outcome,
}
use turbocat.Orchestrator.Lifespan.Kept.{
  heartbeat-pipelines, get_pending_jobs-pipelines, enqueue_job-pipelines,
}
use turbocat.Cycle.Timeline.{KeepsCursor}
use turbocat.Cycle.Timeline.Others.{
  same-KeepsCursor, append-KeepsCursor, replace-KeepsCursor, update_job_status-KeepsCursor,
}

missing_job :
    (now job_id : ℕ) (body : StatusUpdate) (db : Db)
    → find job_key job_id db.job_runs ≡ none
    → (update_job_status now job_id body db).1 ≡ db
unfolding update_job_status
missing_job now job_id body db missing = rw (missing, update_job_status) refl

-- The request is no report for a job of the pipeline.
abbrev pub IsOther : ℕ → Db → Request → Type 0
IsOther k db (machine (post_status job_id body)) =
    (job : JobRun) → find job_key job_id db.job_runs ≡ some job → job.pipeline_id ≢ k
IsOther k db _ = Unit

module _ {Config Connector C T Trigger : Type 0} (p : Process Config Connector C T Trigger) (k : ℕ)
    (w : World C T) (row : Pipeline) (present : find pipeline_key k w.db.pipelines ≡ some row) where
  abbrev Keeps : World C T → Type 0
  Keeps w' = KeepsCursor k w.db w'.db

  unchanged : (w' : World C T) → w'.db ≡ w.db → Keeps w'
  unchanged w' same = same-KeepsCursor k w.db w'.db (ap (λ (d : Db). d.pipelines) same)

  deactivate_pipeline-Keeps : (a j : ℕ) → Keeps (serve_console p a (patch_deactivate j) w).1
  unfolding serve_console get_pipeline
  deactivate_pipeline-Keeps a j =
      let after = (serve_console p a (patch_deactivate j) w).1 in
      elim (deactivate_pipeline_outcome p.cron p.uuid_text w.db w.scheduler a j) [
        | inl (e, failed, same) ↦ unchanged after same
        | inr (old, got, _, changed) ↦
            let (found, _) =
              (owned_iff pipeline_key pipeline_account "Pipeline not found" a j w.db.pipelines
                  old).0
                got in
            let id = find-key pipeline_key j w.db.pipelines old found in
            replace-KeepsCursor k w.db after.db old (record old { is_active = false })
              (ap (λ i. find pipeline_key i w.db.pipelines) id ∙ found) refl refl
              (ap (λ (d : Db). d.pipelines) changed)
      ]

  serve_console-Keeps : (a : ℕ) (r : Console) → Keeps (serve_console p a r w).1
  unfolding serve_console
  serve_console-Keeps a (post_test source credentials) = unchanged w refl
  serve_console-Keeps a (post_connection body) =
      let after = (serve_console p a (post_connection body) w).1 in
      elim (create_connection_outcome p a body w.db w.secrets) [
        | inl (e, failed, same) ↦ unchanged after same
        | inr (new, _, _, added) ↦
            same-KeepsCursor k w.db after.db (ap (λ (d : Db). d.pipelines) added)
      ]
  serve_console-Keeps a get_connections = unchanged w refl
  serve_console-Keeps a (post_saved_test j) =
      let after = (serve_console p a (post_saved_test j) w).1 in
      elim (test_saved_connection_outcome p a j w.db w.secrets) [
        | inl (e, failed, same) ↦ unchanged after same
        | inr (old, tested, _, _, changed) ↦
            same-KeepsCursor k w.db after.db (ap (λ (d : Db). d.pipelines) changed)
      ]
  serve_console-Keeps a (get_schema_of j) =
      unchanged (serve_console p a (get_schema_of j) w).1 (list_schema_outcome p a j w.db w.secrets)
  serve_console-Keeps a (post_bulk body) =
      let after = (serve_console p a (post_bulk body) w).1 in
      elim (bulk_create_pipelines_outcome p.cron p.uuid_text w.db w.scheduler p.new_id a body) [
        | inl (e, failed, same) ↦ unchanged after same
        | inr (connection, _, _, added, _) ↦
            append-KeepsCursor k w.db after.db row _ present (ap (λ (d : Db). d.pipelines) added)
      ]
  serve_console-Keeps a get_pipelines = unchanged w refl
  serve_console-Keeps a (get_pipeline_of j) = unchanged w refl
  serve_console-Keeps a (patch_deactivate j) = deactivate_pipeline-Keeps a j

  serve_machine-Keeps : (r : Machine) → IsOther k w.db (machine r) → Keeps (serve_machine p r w).1
  unfolding serve_machine
  serve_machine-Keeps (get_pending j) foreign_job =
      same-KeepsCursor k w.db (serve_machine p (get_pending j) w).1.db
        (get_pending_jobs-pipelines p.services p.locked p.now j w.db)
  serve_machine-Keeps (post_heartbeat j) foreign_job =
      same-KeepsCursor k w.db (serve_machine p (post_heartbeat j) w).1.db
        (heartbeat-pipelines p.now j w.db)
  serve_machine-Keeps (post_status job_id body) foreign_job =
      elim (Option-cases (find job_key job_id w.db.job_runs)) [
        | inr (job, found) ↦
            update_job_status-KeepsCursor k p.now job_id body w.db job found (foreign_job job found)
        | inl missing ↦
            unchanged (serve_machine p (post_status job_id body) w).1
              (missing_job p.now job_id body w.db missing)
      ]

  serve-Keeps : (headers : Headers) (r : Request) → IsOther k w.db r → Keeps (serve p headers r w).1
  unfolding serve
  serve-Keeps headers (console r) foreign_job = elim (Result-cases (authorized p headers)) [
    | inr (e, refused) ↦ rw (refused, serve) (unchanged w refl)
    | inl (token, valid) ↦ rw (valid, serve) (serve_console-Keeps token.account_id r)
  ]
  serve-Keeps headers (machine r) foreign_job =
      elim (Result-cases (verify_agent_key p.agent_api_key headers.x_agent_key)) [
        | inr (e, refused) ↦ rw (refused, serve) (unchanged w refl)
        | inl (u, known) ↦ rw (known, serve) (serve_machine-Keeps r foreign_job)
      ]
  serve-Keeps headers get_health foreign_job = unchanged w refl

  -- Of a pipeline that is in the database: any request with any headers that is no report for one of
  -- its jobs, and any tick of the schedule, leaves its cursor and its parameters as they are.
  pub serve-KeepsCursor :
      ((headers : Headers) (r : Request)
        → IsOther k w.db r
        → KeepsCursor k w.db (serve p headers r w).1.db)
      × ((job_id pipeline_id agent_id : ℕ)
          → KeepsCursor k w.db (enqueue_job job_id pipeline_id agent_id w.db).1)
  serve-KeepsCursor = (
    serve-Keeps,
    λ job_id pipeline_id agent_id.
        same-KeepsCursor k w.db (enqueue_job job_id pipeline_id agent_id w.db).1
          (enqueue_job-pipelines job_id pipeline_id agent_id w.db),
  )
