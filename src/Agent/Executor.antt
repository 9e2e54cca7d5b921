-- ===== src/Agent/Executor.antt =====
-- executor.py: `run_job`. The orchestrator is reached through `report_status`, which may raise; the
-- configuration classes, the constructors and the destination are parameters.
pub mod Reports
use turbocat.Prelude.{
  ℕ, String, Bool, true, false, ◌≡◌, Option, none, some, List, [], ◌∷◌, Result, ok, err, Exc,
  str_eq, if◌then◌else◌,
}
use turbocat.Prelude.Exec.{Exec, lift, pure, ◌>>=◌, ◌>>◌}
use turbocat.Python.Dict.{Dict, update}
use turbocat.Python.Value.{texts, Value, text}
use turbocat.Connectors.Base.Schema.{TableSchema, SyncResult}
use turbocat.Connectors.Base.Sync.{Extraction, Load, sync}
use turbocat.Connectors.Registry.{ConnectorClass, ConfigClass, lookup}
use turbocat.Orchestrator.Jobs.Payload.{JobPayload}

-- A source connector, as `sync` uses it.
pub record Source : Type 0 where
  pub schema : TableSchema
  pub extract : Option ℕ → Option ℕ → Option (Dict Value) → Extraction

-- The body of `report_status`.
pub record Report : Type 0 where
  pub status : String
  pub rows_synced : Option ℕ
  pub error : Option String
  pub next_state : Option (Dict Value)

-- `d or None`
abbrev pub or_none : Dict Value → Option (Dict Value)
or_none [] = none
or_none (entry ∷ d) = some (entry ∷ d)

-- {**job.params, **job.credentials}
unfoldable pub merged : JobPayload → Dict Value
unfolding update
merged job = update job.params (texts job.credentials)

abbrev pub running_report : Report
running_report = record { status = "running"; rows_synced = none; error = none; next_state = none }

-- The report that follows the `try` block.
unfoldable pub final_report : Result SyncResult → Report
final_report (err e) = record {
  status = "failed";
  rows_synced = none;
  error = some e.text;
  next_state = none;
}
final_report (ok result) =
    if str_eq result.status "success"
    then record {
      status = "success";
      rows_synced = some result.records_loaded;
      error = none;
      next_state = or_none result.next_state;
    }
    else record {
      status = "failed";
      rows_synced = some result.records_loaded;
      error = result.error;
      next_state = none;
    }

abbrev pub batch_size : ℕ
batch_size = 1000

module _ {Config S : Type 0} (isoformat : ℕ → String) (duration : ℕ)
    (make_config : ConfigClass → Dict Value → Result Config)
    (make_source : ConnectorClass → Config → Result Source) (connect : Exec S (Unit {0}))
    (load : Load S) where
  -- source.sync(destination, start_time=…, end_time=…, state=job.state or None)
  unfoldable pub sync_job : Source → JobPayload → Exec S SyncResult
  sync_job source job s =
      let state = or_none job.state in
      let (result, s') =
        sync isoformat load source.schema (source.extract job.start_time job.end_time state)
          duration job.end_time state batch_size s in
      (ok result, s')

  -- The `try` block.
  unfoldable pub run_sync : JobPayload → Exec S SyncResult
  unfolding merged sync_job
  run_sync job = do
    classes ← lift (lookup job.connector)
    config ← lift (make_config classes.1 (merged job))
    source ← lift (make_source classes.0 config)
    connect
    sync_job source job

  -- Both calls of `report_status` stand in a `try` that drops what it raises.
  unfoldable pub run_job : {R : Type 0} → (Report → Exec R (Unit {0})) → JobPayload → S → R → S × R
  unfolding run_sync final_report
  run_job report_status job s r =
      let (_, r') = report_status running_report r in
      let (result, s') = run_sync job s in
      let (_, r'') = report_status (final_report result) r' in (s', r'')
