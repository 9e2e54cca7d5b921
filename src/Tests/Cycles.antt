-- ===== src/Tests/Cycles.antt =====
-- A cycle through both programs, with the source and the database of the fixtures.
use turbocat.Cycle.Reporting.{report_to}
use turbocat.Cycle.Recorded.{IsRecorded, run_job-IsRecorded}
use turbocat.Prelude.{◌+◌, ◌==◌, none, ◌*◌, ◌≡◌, refl, some, [], Result, ok, arith, eq_iff}
use turbocat.Prelude.Exec.{Exec}
use turbocat.Python.Dict.{Dict, get?}
use turbocat.Python.Value.{Value, is_none}
use turbocat.Python.Time.{day, minus_days}
use turbocat.Connectors.Base.Schema.{SyncResult, validate}
use turbocat.Connectors.Base.Sync.{sync, flush, finish, next_cursor}
use turbocat.Connectors.Registry.{ConnectorClass, ConfigClass, lookup}
use turbocat.Connectors.Clickhouse.{load, rows_of}
use turbocat.Orchestrator.Table.{find}
use turbocat.Orchestrator.Models.{Pipeline, JobRun}
use turbocat.Orchestrator.Jobs.Payload.{minus_lookback, lookback_of, start_of, state_or_empty}
use turbocat.Orchestrator.Jobs.Status.{pipeline_key, job_key, update_job_status}
use turbocat.Agent.Executor.{Source, final_report, run_sync, run_job}
use turbocat.Agent.Client.{body_of}
use turbocat.Cycle.{next_window}
use turbocat.Tests.Fixtures.{now, iso, execute, tiny, four, Rows}
use turbocat.Tests.Control.{services, pipeline, job_of, db, payload}

abbrev pub make_config : ConfigClass → Dict Value → Result (Dict Value)
make_config cls d = ok d

abbrev pub make_source : ConnectorClass → Dict Value → Result Source
make_source cls config = ok (record { schema = tiny; extract = λ _ _ _. four })

abbrev pub connect : Exec Rows (Unit {0})
connect s = (ok tt, s)

abbrev outcome : Result SyncResult
outcome = (run_sync iso 0 make_config make_source connect (load execute) payload []).0

next_window_example :
    (p' : Pipeline) × (find pipeline_key 5
        (update_job_status 9 1 (body_of (final_report outcome)) db).1.pipelines
      ≡ some p')
    × (start_of services (state_or_empty p'.state) p'.params ≡ ok (some (7 * day)))
unfolding run_sync find final_report lookup get? sync validate is_none finish flush load rows_of
    update_job_status body_of next_cursor minus_lookback lookback_of minus_days
next_window_example =
    next_window iso 0 make_config make_source connect (load execute) services payload now 9 1 [] db
      (job_of 1 1 "pending") pipeline (λ h. ground (arith, eq_iff "day 10" "")) refl refl refl refl
      refl refl

run_job-IsRecorded_example :
    let (_, (_, db')) =
      run_job iso 0 make_config make_source connect
        (load execute)
        (report_to (λ n. n == 1) (λ n. n + 20) 1)
        payload
        []
        (0, db) in
    (job' : JobRun) × (find job_key 1 db'.job_runs ≡ some job')
    × IsRecorded (job_of 1 1 "pending") job' none (some 21) (final_report outcome)
unfolding run_sync find final_report lookup get? sync validate is_none finish flush load rows_of
run_job-IsRecorded_example =
    run_job-IsRecorded iso 0 make_config make_source connect (load execute) (λ n. n == 1)
      (λ n. n + 20) payload [] 1 db (job_of 1 1 "pending") pipeline refl refl refl
      (λ n h. ground (arith, h))
