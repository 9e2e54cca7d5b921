-- ===== src/Tests/Lifespans.antt =====
-- The orchestrator from its startup on.
use turbocat.Prelude.{
  ℕ, ◌+◌, true, false, ◌≡◌, ◌↔◌, refl, some, [], ◌∷◌, ◌++◌, All, ok, err, is_ok, arith,
}
use turbocat.Python.Dict.{Dict}
use turbocat.Python.Value.{Value}
use turbocat.Orchestrator.Table.{find}
use turbocat.Orchestrator.Models.{Pipeline, Db}
use turbocat.Orchestrator.Access.{owned}
use turbocat.Orchestrator.Jobs.Status.{pipeline_key}
use turbocat.Orchestrator.Scheduler.{
  CronJob, schedule_id, active, load_schedules, pending_job, enqueue_job,
}
use turbocat.Orchestrator.Scheduler.Schedules.{IsScheduled}
use turbocat.Orchestrator.Pipelines.{insertable, bulk_create_pipelines}
use turbocat.Orchestrator.App.{Process, World, console, patch_deactivate, serve}
use turbocat.Orchestrator.Lifespan.{
  Moment, IsFresh, off, up, process_at, startup, boot, request, Reach, here, next,
}
use turbocat.Orchestrator.Lifespan.Reached.{
  IsConsistent, IsCoordinated, reach-IsCoordinated, tick_enqueues,
}
use turbocat.Orchestrator.Lifespan.Startup.{startup-IsScheduled, restart_fails}
use turbocat.Tests.Fixtures.{bad}
use turbocat.Tests.Marks.{marks, marks_inj}
use turbocat.Tests.Control.{connection}
use turbocat.Tests.Routes as Routes
use turbocat.Tests.Routes.{Board, cron-Lawful, empty, agent}
use turbocat.Tests.Connections.{Vault, no_secrets}
use turbocat.Tests.Apps.{app, with_token, linked_world, linked}

abbrev p : Process (Dict Value) (Dict Value) Vault Board ℕ
p = record app { uuid_text = marks }

abbrev tables : Db
tables = linked_world.db

consistent : IsConsistent tables
consistent = record { keys = (tt, tt); links = linked }

abbrev moment : Moment
moment = record { now = 1; connection_id = 8; new_id = λ i. i + 10; locked = λ k. false }

fresh : IsFresh moment tables
unfolding find
fresh = record { unused = λ i. ground arith; distinct = λ i j h. omega arith }

abbrev running : World Vault Board
running = record {
  db = tables;
  secrets = no_secrets;
  scheduler = (load_schedules p.cron p.uuid_text tables empty).1;
}

started : Reach p empty (off tables no_secrets) (up running)
unfolding startup load_schedules
started = next here (boot tables no_secrets)

abbrev later : World Vault Board
later = (serve (process_at p moment) with_token (console (patch_deactivate 5)) running).1

reach-IsCoordinated_example : IsCoordinated p empty (up later)
unfolding IsCoordinated
reach-IsCoordinated_example =
    reach-IsCoordinated p empty cron-Lawful marks_inj (λ k. refl) (off tables no_secrets) (up later)
      (next started (request moment with_token (console (patch_deactivate 5)) running fresh))
      consistent

abbrev held : CronJob ℕ
held = record { id = schedule_id p.cron p.uuid_text 5; trigger = 0; pipeline_id = 5; agent_id = 1 }

is_held : p.cron.get_job (schedule_id p.cron p.uuid_text 5) running.scheduler ≡ some held
unfolding load_schedules schedule_id
is_held = refl

tick_enqueues_example :
    (row : Pipeline) × (find pipeline_key 5 tables.pipelines ≡ some row)
    × (row.is_active ≡ true)
    × (enqueue_job 77 5 1 tables ≡ (
      ok tt,
      record tables { job_runs = tables.job_runs ++ pending_job 77 5 row.agent_id ∷ [] },
    ))
tick_enqueues_example =
    tick_enqueues p empty cron-Lawful marks_inj (λ k. refl) tables no_secrets running consistent
      started 77 5 held is_held

startup-IsScheduled_example :
    ((is_ok (startup p empty tables no_secrets).0 ≡ true)
      ↔ All
          (λ (q : Pipeline). is_ok (p.cron.from_crontab q.schedule) ≡ true)
          (active p.cron p.uuid_text tables.pipelines))
    × ((w : World Vault Board)
        → (startup p empty tables no_secrets).1 ≡ up w
        → All
            (λ (q : Pipeline). IsScheduled p.cron p.uuid_text w.scheduler q.pipeline_id)
            (active p.cron p.uuid_text tables.pipelines))
startup-IsScheduled_example =
    startup-IsScheduled p empty cron-Lawful marks_inj (λ k. refl) tables no_secrets (tt, tt)

restart_fails_example :
    let (answer, (db', _)) =
      bulk_create_pipelines p.cron p.uuid_text moment.new_id Routes.request 1 (tables, empty) in
    (answer ≡ err bad) × ((c : Vault) → (startup p empty db' c).1 ≡ off db' c)
unfolding insertable owned find
restart_fails_example =
    restart_fails p empty cron-Lawful marks_inj (λ k. refl) moment Routes.request 1 tables empty
      connection Routes.table bad (tt, tt) fresh refl refl refl refl
