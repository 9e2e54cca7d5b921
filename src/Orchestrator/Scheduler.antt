-- ===== src/Orchestrator/Scheduler.antt =====
-- scheduler.py. APScheduler is a parameter: `Cron` has the calls that the module makes, `Lawful` what
-- the documentation says of them.
pub mod Schedules
use turbocat.Prelude.{
  ℕ, String, Bool, true, false, not, ◌&&◌, ◌||◌, ◌≡◌, Option, none, some, List, [], ◌∷◌, ◌++◌,
  filter, Result, ok, err, Exc, foreign, str_eq, if◌then◌else◌,
}
use turbocat.Prelude.Exec.{Exec, pure, modify, lift, ◌>>=◌, ◌>>◌}
use Prim.Native.String.{◌++◌ as append}
use turbocat.Orchestrator.Table.{find}
use turbocat.Orchestrator.Models.{Agent, Pipeline, JobRun, Db}
use turbocat.Orchestrator.Models.JobStatus

-- What `add_job` takes: `_enqueue_job` with its arguments, under an id.
pub record CronJob (Trigger : Type 0) : Type 0 where
  pub id : String
  pub trigger : Trigger
  pub pipeline_id : ℕ
  pub agent_id : ℕ

-- `add_job` with `replace_existing=True`.
pub record Cron (T Trigger : Type 0) : Type 0 where
  pub from_crontab : String → Result Trigger
  pub get_job : String → T → Option (CronJob Trigger)
  pub add_job : CronJob Trigger → T → T
  pub remove_job : String → T → T

module _ {T Trigger : Type 0} where
  pub record Lawful (cron : Cron T Trigger) : Type 0 where
    pub get-add :
        (k : String) (job : CronJob Trigger) (t : T)
        → cron.get_job k (cron.add_job job t)
          ≡ (if str_eq job.id k then some job else cron.get_job k t)
    pub get-remove :
        (k j : String) (t : T)
        → cron.get_job k (cron.remove_job j t) ≡ (if str_eq j k then none else cron.get_job k t)

  module _ (cron : Cron T Trigger) (uuid_text : ℕ → String) where
    open cron use {from_crontab, get_job, add_job, remove_job}

    -- f"pipeline_{pipeline_id}"
    unfoldable pub schedule_id : ℕ → String
    schedule_id pipeline_id = append "pipeline_" (uuid_text pipeline_id)

    abbrev pub cron_job : Pipeline → Trigger → CronJob Trigger
    cron_job p trigger = record {
      id = schedule_id p.pipeline_id;
      trigger = trigger;
      pipeline_id = p.pipeline_id;
      agent_id = p.agent_id;
    }

    unfoldable pub register_pipeline : Pipeline → Exec T (Unit {0})
    register_pipeline p t = elim (from_crontab p.schedule) [
      | err e ↦ (err e, t)
      | ok trigger ↦ (ok tt, add_job (cron_job p trigger) t)
    ]

    unfoldable pub deregister_pipeline : ℕ → Exec T (Unit {0})
    deregister_pipeline pipeline_id t = elim (get_job (schedule_id pipeline_id) t) [
      | none ↦ (ok tt, t)
      | some job ↦ (ok tt, remove_job (schedule_id pipeline_id) t)
    ]

    -- The loop over the pipelines that the query gives.
    unfoldable pub load_all : List Pipeline → Exec T (Unit {0})
    unfolding register_pipeline
    load_all [] t = (ok tt, t)
    load_all (p ∷ ps) t = elim (get_job (schedule_id p.pipeline_id) t) [
      | some job ↦ load_all ps t
      | none ↦ elim (from_crontab p.schedule) [
        | err e ↦ (err e, t)
        | ok trigger ↦ load_all ps (add_job (cron_job p trigger) t)
      ]
    ]

    abbrev pub active : List Pipeline → List Pipeline
    active = filter (λ p. p.is_active)

    unfoldable pub load_schedules : Db → Exec T (Unit {0})
    unfolding load_all
    load_schedules db = load_all (active db.pipelines)

-- The foreign keys of job_runs.
abbrev pub integrity_error : Exc
integrity_error = record { kind = foreign; text = "IntegrityError" }

abbrev pub pending_job : ℕ → ℕ → ℕ → JobRun
pending_job job_id pipeline_id agent_id = record {
  job_id = job_id;
  pipeline_id = pipeline_id;
  agent_id = agent_id;
  status = JobStatus.pending;
  started_at = none;
  completed_at = none;
  rows_synced = none;
  error = none;
}

-- `_enqueue_job`; `job_id` is the new UUID.
unfoldable pub enqueue_job : ℕ → ℕ → ℕ → Exec Db (Unit {0})
enqueue_job job_id pipeline_id agent_id db =
    elim (find (λ (p : Pipeline). p.pipeline_id) pipeline_id db.pipelines) [
      | none ↦ (err integrity_error, db)
      | some p ↦ elim (find (λ (a : Agent). a.agent_id) agent_id db.agents) [
        | none ↦ (err integrity_error, db)
        | some a ↦ (
          ok tt,
          record db { job_runs = db.job_runs ++ pending_job job_id pipeline_id agent_id ∷ [] },
        )
      ]
    ]
