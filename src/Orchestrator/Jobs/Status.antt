-- ===== src/Orchestrator/Jobs/Status.antt =====
-- `update_job_status`.
pub mod Rows
pub mod Effect
use Prim.Native.String.{count}
use turbocat.Prelude.{
  ℕ, zero, suc, ◌<◌, ◌^◌, String, Bool, true, false, ◌&&◌, ◌||◌, not, ◌≡◌, refl, Option, none, some,
  List, [], ◌∷◌, Result, ok, err, Exc, foreign, http_exception, str_eq, ltb, leb, is_nil,
  if◌then◌else◌,
}
use turbocat.Prelude.Exec.{Exec}
use turbocat.Python.Dict.{Dict}
use turbocat.Python.Value.{ℤ, pos, negsuc, Value}
use turbocat.Orchestrator.Table.{find, replace}
use turbocat.Orchestrator.Models.{Pipeline, JobRun, Db}
use turbocat.Orchestrator.Models.JobStatus
use turbocat.Orchestrator.Jobs.Payload.{no_such_row}

pub record StatusUpdate : Type 0 where
  pub status : String
  pub rows_synced : Option ℤ
  pub error : Option String
  pub next_state : Option (Dict Value)

abbrev pub not_found : String → Exc
not_found what = record { kind = http_exception 404; text = what }

-- PostgreSQL refuses a value that its column cannot hold: String(20) and a 32-bit Integer.
abbrev pub data_error : Exc
data_error = record { kind = foreign; text = "DataError" }

unfoldable pub fits_int32 : Option ℤ → Bool
fits_int32 none = true
fits_int32 (some (pos n)) = ltb n (2 ^ 31)
fits_int32 (some (negsuc n)) = ltb n (2 ^ 31)

unfoldable pub fits_columns : StatusUpdate → Bool
unfolding fits_int32
fits_columns body = leb (count body.status) 20 && fits_int32 body.rows_synced

abbrev pub is_set {ℓ} : {A : Type ℓ} → Option A → Bool
is_set none = false
is_set (some a) = true

unfoldable pub is_terminal : String → Bool
is_terminal status = str_eq status JobStatus.success || str_eq status JobStatus.failed

-- The job after the assignments of the handler.
unfoldable pub updated_job : ℕ → StatusUpdate → JobRun → JobRun
updated_job now body job =
    let job' = record job {
      status = body.status;
      rows_synced = body.rows_synced;
      error = body.error;
    } in
    if str_eq body.status JobStatus.running && not (is_set job.started_at)
    then record job' { started_at = some now }
    else if is_terminal body.status
    then record job' { completed_at = some now }
    else job'

-- `body.status == SUCCESS and body.next_state`, with the cursor.
unfoldable pub new_cursor : StatusUpdate → Option (Dict Value)
new_cursor body = elim body.next_state [
  | none ↦ none
  | some d ↦ if str_eq body.status JobStatus.success && not (is_nil d) then some d else none
]

abbrev pub pipeline_key : Pipeline → ℕ
pipeline_key p = p.pipeline_id

abbrev pub job_key : JobRun → ℕ
job_key j = j.job_id

unfoldable pub set_cursor : Option (Dict Value) → JobRun → List Pipeline → Result (List Pipeline)
set_cursor none job pipelines = ok pipelines
set_cursor (some d) job pipelines = elim (find pipeline_key job.pipeline_id pipelines) [
  | none ↦ err no_such_row
  | some p ↦ ok (replace pipeline_key (record p { state = some d }) pipelines)
]

abbrev pub status_ok : Dict String
status_ok = ("status", "ok") ∷ []

unfoldable pub update_job_status : ℕ → ℕ → StatusUpdate → Exec Db (Dict String)
unfolding updated_job new_cursor set_cursor fits_columns
update_job_status now job_id body db = elim (find job_key job_id db.job_runs) [
  | none ↦ (err (not_found "Job not found"), db)
  | some job ↦ elim (set_cursor (new_cursor body) job db.pipelines) [
    | err e ↦ (err e, db)
    | ok pipelines ↦
        if fits_columns body
        then (
          ok status_ok,
          record db {
            pipelines = pipelines;
            job_runs = replace job_key (updated_job now body job) db.job_runs;
          },
        )
        else (err data_error, db)
  ]
]
