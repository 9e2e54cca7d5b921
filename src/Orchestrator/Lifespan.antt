-- ===== src/Orchestrator/Lifespan.antt =====
-- `lifespan` of main.py with the module scheduler.py: the program off, its startup over the
-- database that is there, and the program up, which serves requests and runs the jobs of the
-- scheduler until it is shut down. `started` is the scheduler that `scheduler.start()` leaves.
pub mod Keys
pub mod InStep
pub mod Loading
pub mod Changes
pub mod Kept
pub mod Reached
pub mod Fresh
pub mod Startup
use turbocat.Prelude.{ℕ, Bool, ◌≡◌, none, some, Result, ok, err, Exc}
use turbocat.Prelude.Exec.{Exec}
use turbocat.Orchestrator.Table.{find}
use turbocat.Orchestrator.Models.{Db}
use turbocat.Orchestrator.Jobs.Status.{pipeline_key}
use turbocat.Orchestrator.Scheduler.{Cron, CronJob, schedule_id, load_schedules, enqueue_job}
use turbocat.Orchestrator.App.{Process, World, Headers, Request, serve}

-- What a request finds: the time, the UUIDs that it draws, the rows that others hold.
pub record Moment : Type 0 where
  pub now : ℕ
  pub connection_id : ℕ
  pub new_id : ℕ → ℕ
  pub locked : ℕ → Bool

-- New UUIDs: none of them is in use, and no two of them are the same.
pub record IsFresh (m : Moment) (db : Db) : Type 0 where
  pub unused : (i : ℕ) → find pipeline_key (m.new_id i) db.pipelines ≡ none
  pub distinct : (i j : ℕ) → m.new_id i ≡ m.new_id j → i ≡ j

pub data State (C T : Type 0) : Type 0 where
  off : Db → C → State C T
  up : World C T → State C T

module _ {Config Connector C T Trigger : Type 0} (p : Process Config Connector C T Trigger) where
  abbrev pub process_at : Moment → Process Config Connector C T Trigger
  process_at m = record p {
    now = m.now;
    connection_id = m.connection_id;
    new_id = m.new_id;
    locked = m.locked;
  }

  module _ (started : T) where
    unfoldable pub startup : Db → C → Result (Unit {0}) × State C T
    unfolding load_schedules
    startup db c =
        let (outcome, t) = load_schedules p.cron p.uuid_text db started in
        elim outcome [
          | err e ↦ (err e, off db c)
          | ok _ ↦ (ok tt, up (record { db = db; secrets = c; scheduler = t }))
        ]

    pub data Step : State C T → State C T → Type 0 where
      boot : (db : Db) (c : C) → Step (off db c) (startup db c).1
      request :
          (m : Moment) (headers : Headers) (r : Request) (w : World C T)
          → IsFresh m w.db
          → Step (up w) (up (serve (process_at m) headers r w).1)
      -- APScheduler runs a job that it holds.
      tick :
          (job_id k : ℕ) (job : CronJob Trigger) (w : World C T)
          → p.cron.get_job (schedule_id p.cron p.uuid_text k) w.scheduler ≡ some job
          → Step
              (up w)
              (up (record w { db = (enqueue_job job_id job.pipeline_id job.agent_id w.db).1 }))
      shutdown : (w : World C T) → Step (up w) (off w.db w.secrets)

    pub data Reach : State C T → State C T → Type 0 where
      here : {s : State C T} → Reach s s
      next : {s t u : State C T} → Reach s t → Step t u → Reach s u
