-- ===== src/Cycle/Timeline.antt =====
-- All the runs of one pipeline: polls make payloads for it, runs of them end in any order, and their
-- reports are served by the orchestrator, with whatever else happens to the tables in between.
pub mod Covered
pub mod Anchors
pub mod Reports
pub mod Kept
pub mod Others
pub mod Requests
use turbocat.Prelude.{
  ℕ, String, Bool, true, false, ◌&&◌, ◌≡◌, Option, none, some, List, [], ◌∷◌, ◌++◌, Result, ok,
  is_ok, str_eq, if◌then◌else◌,
}
use turbocat.Prelude.Exec.{Exec}
use turbocat.Python.Dict.{Dict}
use turbocat.Python.Value.{Value}
use turbocat.Connectors.Base.Schema.{SyncResult}
use turbocat.Connectors.Base.Sync.{Load}
use turbocat.Connectors.Registry.{ConnectorClass, ConfigClass}
use turbocat.Orchestrator.Table.{find}
use turbocat.Orchestrator.Models.{Connection, Pipeline, JobRun, Db}
use turbocat.Orchestrator.Models.JobStatus
use turbocat.Orchestrator.Jobs.Payload.{JobPayload, Services, payload_of}
use turbocat.Orchestrator.Jobs.Status.{pipeline_key, job_key, update_job_status}
use turbocat.Agent.Executor.{Source, final_report, run_sync}
use turbocat.Agent.Client.{body_of}

-- The tables, the payloads of the pipeline whose runs are not yet reported, and those whose success
-- the orchestrator has accepted, the last one first.
pub record State : Type 0 where
  pub db : Db
  pub pending : List JobPayload
  pub windows : List JobPayload

-- A change of the tables that leaves the cursor and the parameters of the pipeline as they are.
abbrev pub KeepsCursor : ℕ → Db → Db → Type 0
KeepsCursor k db db' =
    (p' : Pipeline)
    → find pipeline_key k db'.pipelines ≡ some p'
    → (p : Pipeline) × (find pipeline_key k db.pipelines ≡ some p)
      × (p'.state ≡ p.state)
      × (p'.params ≡ p.params)

module _ {Config S : Type 0} (isoformat : ℕ → String) (duration : ℕ)
    (make_config : ConfigClass → Dict Value → Result Config)
    (make_source : ConnectorClass → Config → Result Source) (connect : Exec S (Unit {0}))
    (load : Load S) (services : Services) (k : ℕ) where
  abbrev pub outcome_of : JobPayload → S → Result SyncResult
  outcome_of payload s =
      (run_sync isoformat duration make_config make_source connect load payload s).0

  -- The outcome of a run is reported at `later`; the other pending payloads stay.
  unfoldable pub reported : State → JobPayload → S → ℕ → List JobPayload → State
  unfolding run_sync final_report body_of update_job_status
  reported s payload world later rest =
      let report = final_report (outcome_of payload world) in
      let (answer, db') = update_job_status later payload.job_id (body_of report) s.db in
      record {
        db = db';
        pending = rest;
        windows =
            if is_ok answer && str_eq report.status JobStatus.success
            then payload ∷ s.windows
            else s.windows;
      }

  pub data Step (s : State) : State → Type 0 where
    poll :
        (now : ℕ) (job : JobRun) (p : Pipeline) (c : Connection) (payload : JobPayload)
        → find pipeline_key k s.db.pipelines ≡ some p
        → payload_of services now job p c ≡ ok payload
        → Step s (record s { pending = payload ∷ s.pending })
    report :
        (payload : JobPayload) (before after : List JobPayload) (world : S) (later : ℕ)
        (job : JobRun)
        → s.pending ≡ before ++ payload ∷ after
        → find job_key payload.job_id s.db.job_runs ≡ some job
        → job.pipeline_id ≡ k
        → Step s (reported s payload world later (before ++ after))
    -- The run of a payload is never reported.
    lose :
        (payload : JobPayload) (before after : List JobPayload)
        → s.pending ≡ before ++ payload ∷ after
        → Step s (record s { pending = before ++ after })
    other : (db' : Db) → KeepsCursor k s.db db' → Step s (record s { db = db' })

  pub data Reach : State → State → Type 0 where
    here : {s : State} → Reach s s
    next : {s t u : State} → Reach s t → Step t u → Reach s u
