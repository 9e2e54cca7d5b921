-- ===== src/Cycle/Reporting.antt =====
-- The reports of a run, served by the orchestrator. A request of the agent arrives or is lost:
-- `arrives n` says it of the n-th of the run, and `clock n` is the orchestrator's time at it.
use turbocat.Prelude.{
  ℕ, ◌+◌, ◌^◌, ◌<◌, Bool, true, ◌≡◌, refl, ap, ◌∙◌, none, some, Result, ok, err, is_ok, Exc,
  foreign, arith, ◌==◌, ==_refl, str_eq, lt→ltb, if◌then◌else◌, Option-cases, Bool-cases, inl, inr,
}
use turbocat.Prelude.Exec.{Exec}
use turbocat.Connectors.Base.Schema.{SyncResult}
use turbocat.Orchestrator.Table.{find}
use turbocat.Orchestrator.Models.{Pipeline, JobRun, Db}
use turbocat.Orchestrator.Jobs.Status.{
  StatusUpdate, pipeline_key, job_key, is_terminal, fits_int32, fits_columns, updated_job,
  new_cursor, set_cursor, update_job_status,
}
use turbocat.Orchestrator.Jobs.Status.Rows.{update_job_status_rows}
use turbocat.Agent.Executor.{Report, running_report, final_report}
use turbocat.Agent.Client.{body_of}
use turbocat.Cycle.{same_row}

abbrev answered {ℓ} : {A : Type ℓ} → Result A → Result (Unit {0})
answered (ok a) = ok tt
answered (err e) = err e

abbrev connection_error : Exc
connection_error = record { kind = foreign; text = "ConnectionError" }

-- `report_status`, with the handler that answers it.
unfoldable pub report_to : (ℕ → Bool) → (ℕ → ℕ) → ℕ → Report → Exec (ℕ × Db) (Unit {0})
unfolding update_job_status body_of
report_to arrives clock job_id report (n, db) =
    let (answer, db') = update_job_status (clock n) job_id (body_of report) db in
    if arrives n then (answered answer, (n + 1, db')) else (err connection_error, (n + 1, db))

-- A report is accepted where the job and its pipeline are there and the columns hold its values.
accepted :
    (now job_id : ℕ) (body : StatusUpdate) (db : Db) (job : JobRun) (p : Pipeline)
    → find job_key job_id db.job_runs ≡ some job
    → find pipeline_key job.pipeline_id db.pipelines ≡ some p
    → fits_columns body ≡ true
    → is_ok (update_job_status now job_id body db).0 ≡ true
unfolding update_job_status set_cursor
accepted now job_id body db job p found owner fits = elim (Option-cases (new_cursor body)) [
  | inl unset ↦ ground (arith, found, owner, fits, unset)
  | inr (d, set) ↦ ground (arith, found, owner, fits, set)
]

running-fits : fits_columns (body_of running_report) ≡ true
unfolding fits_columns body_of fits_int32
running-fits = refl

final_report-fits :
    (outcome : Result SyncResult)
    → ((n : ℕ) → (final_report outcome).rows_synced ≡ some n → n < 2 ^ 31)
    → fits_columns (body_of (final_report outcome)) ≡ true
unfolding fits_columns body_of fits_int32 final_report
final_report-fits (err e) small = refl
final_report-fits (ok result) small = elim (Bool-cases (str_eq result.status "success")) [
  | inl p ↦ rw p (lt→ltb result.records_loaded (2 ^ 31) (small result.records_loaded (rw p)))
  | inr p ↦ rw p (lt→ltb result.records_loaded (2 ^ 31) (small result.records_loaded (rw p)))
]

pub final_report-IsTerminal :
    (outcome : Result SyncResult) → is_terminal (final_report outcome).status ≡ true
unfolding is_terminal final_report
final_report-IsTerminal (err e) = refl
final_report-IsTerminal (ok result) = elim (Bool-cases (str_eq result.status "success")) [
  | inl p ↦ rw p
  | inr p ↦ rw p
]

pipeline_id-updated_job :
    (now : ℕ) (body : StatusUpdate) (job : JobRun)
    → (updated_job now body job).pipeline_id ≡ job.pipeline_id
unfolding updated_job
pipeline_id-updated_job now body job = ground arith

pub rows_synced-updated_job :
    (now : ℕ) (body : StatusUpdate) (job : JobRun)
    → (updated_job now body job).rows_synced ≡ body.rows_synced
unfolding updated_job
rows_synced-updated_job now body job = ground arith

-- The job and its pipeline, in the tables.
abbrev pub Holds : Db → ℕ → JobRun → Pipeline → Type 0
Holds db job_id job p =
    (find job_key job_id db.job_runs ≡ some job)
    × (find pipeline_key job.pipeline_id db.pipelines ≡ some p)

running_cursor : new_cursor (body_of running_report) ≡ none
unfolding new_cursor body_of
running_cursor = refl

module _ (job_id : ℕ) (db : Db) (job : JobRun) (p : Pipeline) (there : Holds db job_id job p) where
  -- The first report, once it arrives.
  pub started :
      (now : ℕ)
      → Holds
          (update_job_status now job_id (body_of running_report) db).1
          job_id
          (updated_job now (body_of running_report) job)
          p
  started now =
      let body = body_of running_report in
      let fine = accepted now job_id body db job p there.0 there.1 running-fits in
      let (jobs, pipelines, _, _) = update_job_status_rows now job_id body db job there.0 fine in
      (
        jobs job_id ∙ rw (==_refl job_id) refl,
        rw (pipeline_id-updated_job now body job) (
            pipelines job.pipeline_id
            ∙ rw running_cursor (same_row (job.pipeline_id == job.pipeline_id) _)
            ∙ there.1),
      )

  -- The second report, once it arrives.
  pub ended :
      (now : ℕ) (outcome : Result SyncResult)
      → ((n : ℕ) → (final_report outcome).rows_synced ≡ some n → n < 2 ^ 31)
      → find job_key job_id
          (update_job_status now job_id (body_of (final_report outcome)) db).1.job_runs
        ≡ some (updated_job now (body_of (final_report outcome)) job)
  ended now outcome small =
      let body = body_of (final_report outcome) in
      let fine =
        accepted now job_id body db job p there.0 there.1 (final_report-fits outcome small) in
      let (jobs, _, _, _) = update_job_status_rows now job_id body db job there.0 fine in
      jobs job_id ∙ rw (==_refl job_id) refl

pub report_to-state :
    (arrives : ℕ → Bool) (clock : ℕ → ℕ) (job_id : ℕ) (report : Report) (n : ℕ) (db : Db)
    → (report_to arrives clock job_id report (n, db)).1 ≡ (
      n + 1,
      if arrives n then (update_job_status (clock n) job_id (body_of report) db).1 else db,
    )
unfolding report_to
report_to-state arrives clock job_id report n db = elim (Bool-cases (arrives n)) [
  | inl there ↦ rw there refl
  | inr lost ↦ rw lost refl
]

pub report_to-arrived :
    (arrives : ℕ → Bool) (clock : ℕ → ℕ) (job_id : ℕ) (report : Report) (n : ℕ) (db : Db)
    → arrives n ≡ true
    → (report_to arrives clock job_id report (n, db)).1.1
      ≡ (update_job_status (clock n) job_id (body_of report) db).1
report_to-arrived arrives clock job_id report n db came =
    ap (λ (r : ℕ × Db). r.1) (report_to-state arrives clock job_id report n db)
    ∙ ap (λ b. if b then (update_job_status (clock n) job_id (body_of report) db).1 else db) came
