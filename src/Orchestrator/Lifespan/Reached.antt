-- ===== src/Orchestrator/Lifespan/Reached.antt =====
-- Every state that the program reaches, over any number of restarts and requests.
use turbocat.Prelude.{
  ap₂, ◌∙◌, ℕ, String, true, ◌≡◌, none, some, [], ◌∷◌, ◌++◌, ok, arith, Result-cases, inl, inr,
}
use turbocat.Orchestrator.Table.{find}
use turbocat.Orchestrator.Models.{Pipeline, Db}
use turbocat.Orchestrator.Jobs.Status.{pipeline_key}
use turbocat.Orchestrator.Scheduler.{
  CronJob, Lawful, schedule_id, load_schedules, pending_job, enqueue_job,
}
use turbocat.Orchestrator.App.{Process, World}
use turbocat.Orchestrator.App.Links.{Known, PipelineLinked, IsLinked, All-find}
use turbocat.Orchestrator.App.Links.Kept.{serve-IsLinked}
use turbocat.Orchestrator.Lifespan.{
  State, off, up, process_at, startup, Step, boot, request, tick, shutdown, Reach, here, next,
}
use turbocat.Orchestrator.Lifespan.Keys.{Distinct}
use turbocat.Orchestrator.Lifespan.InStep.{InStep}
use turbocat.Orchestrator.Lifespan.Loading.{load_schedules-InStep}
use turbocat.Orchestrator.Lifespan.Changes.{IsSound}
use turbocat.Orchestrator.Lifespan.Kept.{enqueue_job-pipelines, serve-Fits}

-- The primary key of pipelines, and the foreign keys.
pub record IsConsistent (db : Db) : Type 0 where
  pub keys : Distinct pipeline_key db.pipelines
  pub links : IsLinked db

module _ {Config Connector C T Trigger : Type 0} (p : Process Config Connector C T Trigger)
    (started : T) where
  -- The tables are consistent, and while the program is up the scheduler is in step with them.
  unfoldable pub IsCoordinated : State C T → Type 0
  IsCoordinated (off db c) = IsConsistent db
  IsCoordinated (up w) = IsConsistent w.db × InStep p.cron p.uuid_text w.db.pipelines w.scheduler

  module _ (lawful : Lawful p.cron) (injective : (i j : ℕ) → p.uuid_text i ≡ p.uuid_text j → i ≡ j)
      (empty : (k : String) → p.cron.get_job k started ≡ none) where
    startup-IsCoordinated :
        (db : Db) (c : C) → IsConsistent db → IsCoordinated (startup p started db c).1
    unfolding startup IsCoordinated
    startup-IsCoordinated db c v =
        let loaded =
          load_schedules-InStep p.cron p.uuid_text lawful injective db started v.keys empty in
        elim (Result-cases (load_schedules p.cron p.uuid_text db started).0) [
          | inr (e, failed) ↦ rw (failed, startup) v
          | inl (u, done) ↦ rw (done, startup) (v, loaded)
        ]

    step-IsCoordinated :
        (s s' : State C T) → Step p started s s' → IsCoordinated s → IsCoordinated s'
    unfolding IsCoordinated IsSound
    step-IsCoordinated s s' (boot db c) v = startup-IsCoordinated db c v
    step-IsCoordinated s s' (request m headers r w fresh) (v, in_step) =
        let now = process_at p m in
        let (keys, still) =
          serve-Fits now lawful injective w (v.keys, in_step) fresh.unused fresh.distinct headers
            r in
        (record { keys = keys; links = (serve-IsLinked now w v.links).0 headers r }, still)
    step-IsCoordinated s s' (tick job_id k job w there) (v, in_step) =
        let same = enqueue_job-pipelines job_id job.pipeline_id job.agent_id w.db in
        (
          record {
            keys = rw same v.keys;
            links = (serve-IsLinked p w v.links).1 job_id job.pipeline_id job.agent_id;
          },
          rw same in_step,
        )
    step-IsCoordinated s s' (shutdown w) (v, in_step) = v

    -- Over a lawful scheduler that starts empty, where different ids have different texts,
    -- every state that the program reaches from consistent tables by requests with fresh ids,
    -- ticks and restarts has consistent tables, and while it is up each job on the scheduler
    -- is that of an active pipeline of the database, with that pipeline's agent.
    pub reach-IsCoordinated :
        (s s' : State C T) → Reach p started s s' → IsCoordinated s → IsCoordinated s'
    reach-IsCoordinated s s' here v = v
    reach-IsCoordinated s s' (next {t = t} reached last) v =
        step-IsCoordinated t s' last (reach-IsCoordinated s t reached v)

    scheduled_outcome :
        (w : World C T)
        → IsCoordinated (up w)
        → (job_id k : ℕ) (job : CronJob Trigger)
        → p.cron.get_job (schedule_id p.cron p.uuid_text k) w.scheduler ≡ some job
        → (row : Pipeline) × (find pipeline_key k w.db.pipelines ≡ some row)
          × (row.is_active ≡ true)
          × (enqueue_job job_id job.pipeline_id job.agent_id w.db ≡ (
            ok tt,
            record w.db { job_runs = w.db.job_runs ++ pending_job job_id k row.agent_id ∷ [] },
          ))
    unfolding IsCoordinated InStep Known enqueue_job
    scheduled_outcome w (v, in_step) job_id k job there =
        let (row, found, is_on, id, its_agent) = in_step k job there in
        let linked = PipelineLinked w.db.agents w.db.connections in
        let ((agent, known), _) =
          All-find pipeline_key linked w.db.pipelines k row found v.links.by_pipelines in
        let fine : enqueue_job job_id k row.agent_id w.db ≡ (
          ok tt,
          record w.db { job_runs = w.db.job_runs ++ pending_job job_id k row.agent_id ∷ [] },
        ) =
          ground (arith, found, known) in
        (row, found, is_on, ap₂ (λ i a. enqueue_job job_id i a w.db) id its_agent ∙ fine)

    -- From consistent tables, over a lawful scheduler that starts empty, where different ids
    -- have different texts, whatever requests with fresh ids, ticks and restarts the program
    -- goes through: a job that the scheduler holds under the id of a pipeline is for a
    -- pipeline that is there and active, and when the job runs it succeeds, and puts one
    -- pending job of that pipeline, for the pipeline's own agent, into the database.
    pub tick_enqueues :
        (db : Db) (c : C) (w : World C T)
        → IsConsistent db
        → Reach p started (off db c) (up w)
        → (job_id k : ℕ) (job : CronJob Trigger)
        → p.cron.get_job (schedule_id p.cron p.uuid_text k) w.scheduler ≡ some job
        → (row : Pipeline) × (find pipeline_key k w.db.pipelines ≡ some row)
          × (row.is_active ≡ true)
          × (enqueue_job job_id job.pipeline_id job.agent_id w.db ≡ (
            ok tt,
            record w.db { job_runs = w.db.job_runs ++ pending_job job_id k row.agent_id ∷ [] },
          ))
    unfolding IsCoordinated
    tick_enqueues db c w v reached =
        scheduled_outcome w (reach-IsCoordinated (off db c) (up w) reached v)
