-- ===== src/Orchestrator/Jobs/Status/Effect.antt =====
-- What a status report changes.
use mathlib.Core.Option
use turbocat.Prelude.{
  ℕ, String, Bool, true, false, not, ◌&&◌, ◌||◌, ◌≡◌, ap, ◌∙◌, Option, none, some, is_ok, arith,
  ◌==◌, str_eq, eq_iff, is_nil, if◌then◌else◌, Bool-cases, Option-cases, inl, inr,
}
use turbocat.Python.Dict.{Dict, or_else}
use turbocat.Python.Value.{Value}
use turbocat.Orchestrator.Table.{find}
use turbocat.Orchestrator.Models.{Pipeline, JobRun, Db}
use turbocat.Orchestrator.Models.JobStatus
use turbocat.Orchestrator.Jobs.Status.Rows.{map-none, with_cursor, update_job_status_rows}
use turbocat.Orchestrator.Jobs.Status.{
  StatusUpdate, pipeline_key, job_key, is_terminal, updated_job, new_cursor, update_job_status,
}

running_not_terminal :
    (status : String) → str_eq status JobStatus.running ≡ true → is_terminal status ≡ false
unfolding is_terminal
running_not_terminal status h = rw ((eq_iff status JobStatus.running).0 h)

-- A report that is applied to a job sets the job's status to what it says. The start of the job is
-- set by its first report of "running" and never written again; its end is set by each report of
-- success or failure and by no other.
pub updated_job_times :
    (now : ℕ) (body : StatusUpdate) (job : JobRun)
    → let job' = updated_job now body job in
      (job'.status ≡ body.status)
      × (job'.started_at
          ≡ or_else job.started_at
              (if str_eq body.status JobStatus.running then some now else none))
      × (job'.completed_at
          ≡ or_else (if is_terminal body.status then some now else none) job.completed_at)
unfolding updated_job
updated_job_times now body job = elim (Option-cases job.started_at) [
  | inl unset ↦ (ground arith, ground arith, ground (arith, running_not_terminal body.status))
  | inr (t, set) ↦ (ground arith, ground arith, ground (arith, running_not_terminal body.status))
]

-- The job that a report leaves, field by field.
abbrev pub reported_job : ℕ → StatusUpdate → JobRun → JobRun
reported_job now body job = record job {
  status = body.status;
  rows_synced = body.rows_synced;
  error = body.error;
  started_at = or_else job.started_at (if str_eq body.status "running" then some now else none);
  completed_at =
      or_else
        (if str_eq body.status "success" || str_eq body.status "failed" then some now else none)
        job.completed_at;
}

-- A next state that is there and not empty.
abbrev pub carries : Option (Dict Value) → Bool
carries none = false
carries (some d) = not (is_nil d)

updated_job-reported_job :
    (now : ℕ) (body : StatusUpdate) (job : JobRun)
    → updated_job now body job ≡ reported_job now body job
unfolding updated_job is_terminal
updated_job-reported_job now body job = elim (Bool-cases (str_eq body.status JobStatus.running)) [
  | inr other ↦ rw other (ground arith)
  | inl running ↦
      let ends : (str_eq body.status "success" || str_eq body.status "failed") ≡ false =
        running_not_terminal body.status running in
      rw (running, ends) (ground arith)
]

with_cursor-carries :
    (body : StatusUpdate) (b : Bool) (o : Option Pipeline)
    → (if b then Option.map (with_cursor (new_cursor body)) o else o) ≡ (
        if b && str_eq body.status "success" && carries body.next_state
        then Option.map (λ (p : Pipeline). record p { state = body.next_state }) o
        else o)
unfolding new_cursor
with_cursor-carries body b o = elim (Option-cases body.next_state) [
  | inl unset ↦ rw unset (ground arith)
  | inr (d, set) ↦ rw set (ground (arith, map-none o))
]

-- Of a report that is accepted for a job, with whatever status: of the jobs it writes the one that
-- it names, whose status, count and error become those of the report, whose start is set if it was
-- not and the status is "running", and whose end is set if the status is "success" or "failed". Of
-- the pipelines it writes that of the job, if the status is "success" and the report carries a next
-- state that is not empty, which becomes the pipeline's state, and writes none otherwise. The
-- connections and the agents stay.
pub update_job_status_effect :
    (now job_id : ℕ) (body : StatusUpdate) (db : Db) (job : JobRun)
    → find job_key job_id db.job_runs ≡ some job
    → is_ok (update_job_status now job_id body db).0 ≡ true
    → let db' = (update_job_status now job_id body db).1 in
      ((k : ℕ)
        → find job_key k db'.job_runs
          ≡ (if job_id == k then some (reported_job now body job) else find job_key k db.job_runs))
      × ((k : ℕ)
          → find pipeline_key k db'.pipelines ≡ (
              if job.pipeline_id == k && str_eq body.status "success" && carries body.next_state
              then Option.map
                  (λ (p : Pipeline). record p { state = body.next_state })
                  (find pipeline_key k db.pipelines)
              else find pipeline_key k db.pipelines))
      × (db'.connections ≡ db.connections)
      × (db'.agents ≡ db.agents)
update_job_status_effect now job_id body db job found accepted =
    let (jobs, pipelines, connections, agents) =
      update_job_status_rows now job_id body db job found accepted in
    (
      λ k.
          jobs k
          ∙ ap (λ j. if job_id == k then some j else find job_key k db.job_runs)
              (updated_job-reported_job now body job),
      λ k.
          pipelines k
          ∙ with_cursor-carries body (job.pipeline_id == k) (find pipeline_key k db.pipelines),
      connections,
      agents,
    )
