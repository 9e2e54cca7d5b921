-- ===== src/Orchestrator/Pipelines/Routes.antt =====
-- What the routes for pipelines give and change.
use turbocat.Prelude.{
  ℕ, String, false, ◌≡◌, ◌↔◌, refl, ap, ◌∙◌, none, some, [], ◌∷◌, ◌++◌, ok, err, Exc, arith, ◌==◌,
  ==_iff, eq_refl, if◌then◌else◌, Option-cases, inl, inr,
}
use turbocat.Orchestrator.Table.{find, find-key, find-replace}
use turbocat.Orchestrator.Models.{Connection, Pipeline, Db}
use turbocat.Orchestrator.Access.{owned, owned_iff}
use turbocat.Orchestrator.Jobs.Status.{pipeline_key}
use turbocat.Orchestrator.Scheduler.{
  Cron, Lawful, schedule_id, register_pipeline, deregister_pipeline,
}
use turbocat.Orchestrator.Pipelines.{
  PipelineTableConfig, BulkCreateRequest, pipeline_account, connection_key, connection_account,
  new_pipelines, insertable, get_pipeline, bulk_create_pipelines, deactivate_pipeline,
}

-- A pipeline is given out exactly where it is the row of that id and belongs to the account.
pub get_pipeline_iff :
    (db : Db) (pipeline_id account_id : ℕ) (p : Pipeline)
    → (get_pipeline db pipeline_id account_id ≡ ok p)
      ↔ ((find pipeline_key pipeline_id db.pipelines ≡ some p) × (p.account_id ≡ account_id))
unfolding get_pipeline
get_pipeline_iff db pipeline_id account_id p =
    owned_iff pipeline_key pipeline_account "Pipeline not found" account_id pipeline_id db.pipelines
      p

module _ {T Trigger : Type 0} (cron : Cron T Trigger) (uuid_text : ℕ → String) where
  open cron use {from_crontab, get_job, add_job, remove_job}

  off :
      (lawful : Lawful cron) (pipeline_id : ℕ) (t : T)
      → get_job
          (schedule_id cron uuid_text pipeline_id)
          (deregister_pipeline cron uuid_text pipeline_id t).1
        ≡ none
  unfolding deregister_pipeline
  off lawful pipeline_id t =
      elim (Option-cases (get_job (schedule_id cron uuid_text pipeline_id) t)) [
        | inl missing ↦ rw (missing, deregister_pipeline) missing
        | inr (job, there) ↦
            let id = schedule_id cron uuid_text pipeline_id in
            rw (there, deregister_pipeline) (lawful.get-remove id id t ∙ rw (eq_refl id) refl)
      ]

  -- Over a lawful scheduler: the owner of a pipeline that deactivates it makes it inactive, leaves
  -- all the other pipelines and all the jobs as they were, and takes its schedule off the scheduler.
  pub deactivate_pipeline_effect :
      (lawful : Lawful cron) (pipeline_id account_id : ℕ) (db : Db) (t : T) (p : Pipeline)
      → get_pipeline db pipeline_id account_id ≡ ok p
      → let (db', t') = (deactivate_pipeline cron uuid_text pipeline_id account_id (db, t)).1 in
        ((k : ℕ)
          → find pipeline_key k db'.pipelines ≡ (
              if pipeline_id == k
              then some (record p { is_active = false })
              else find pipeline_key k db.pipelines))
        × (db'.job_runs ≡ db.job_runs)
        × (get_job (schedule_id cron uuid_text pipeline_id) t' ≡ none)
  unfolding deactivate_pipeline
  deactivate_pipeline_effect lawful pipeline_id account_id db t p h =
      let (found, _) = (get_pipeline_iff db pipeline_id account_id p).0 h in
      let id = find-key pipeline_key pipeline_id db.pipelines p found in
      rw (h, deactivate_pipeline)
        (
          λ k. ground (
            arith,
            id,
            ==_iff pipeline_id k,
            find-replace pipeline_key k (record p { is_active = false }) p db.pipelines
                (ap (λ i. find pipeline_key i db.pipelines) id ∙ found),
          ),
          refl,
          off lawful pipeline_id t,
        )

  -- Of a request that the INSERT accepts, with one table whose schedule is no cron expression, the
  -- answer is the error of the scheduler, but the pipeline stays in the database, and the
  -- scheduler is as it was.
  pub bulk_create_bad_schedule :
      (new_id : ℕ → ℕ) (body : BulkCreateRequest) (account_id : ℕ) (db : Db) (t : T)
      (connection : Connection) (table : PipelineTableConfig) (e : Exc)
      → owned connection_key connection_account "Connection not found" account_id body.connection_id
          db.connections
        ≡ ok connection
      → body.tables ≡ table ∷ []
      → insertable body db ≡ ok tt
      → from_crontab table.schedule ≡ err e
      → bulk_create_pipelines cron uuid_text new_id body account_id (db, t) ≡ (
        err e,
        (
          record db {
            pipelines = db.pipelines ++ new_pipelines new_id account_id body 0 (table ∷ []);
          },
          t,
        ),
      )
  unfolding bulk_create_pipelines register_pipeline
  bulk_create_bad_schedule new_id body account_id db t connection table e mine one fits bad =
      ground (arith, mine, one, fits, bad)
