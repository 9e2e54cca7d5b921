-- ===== src/Cycle/Recorded.antt =====
-- A run of a job with its two reports, as the table job_runs shows it afterwards.
use turbocat.Prelude.{
  ℕ, ◌^◌, ◌<◌, String, Bool, true, false, ◌≡◌, refl, sym, ap, ◌∙◌, Option, none, some, Result,
  arith, str_eq, eq_iff, if◌then◌else◌, Bool-cases, inl, inr,
}
use turbocat.Prelude.Exec.{Exec}
use turbocat.Python.Dict.{Dict, or_else}
use turbocat.Python.Value.{Value}
use turbocat.Connectors.Base.Schema.{SyncResult}
use turbocat.Connectors.Base.Sync.{Load}
use turbocat.Connectors.Registry.{ConnectorClass, ConfigClass}
use turbocat.Orchestrator.Table.{find}
use turbocat.Orchestrator.Models.{Pipeline, JobRun, Db}
use turbocat.Orchestrator.Models.JobStatus
use turbocat.Orchestrator.Jobs.Payload.{JobPayload}
use turbocat.Orchestrator.Jobs.Status.{
  pipeline_key, job_key, is_terminal, updated_job, update_job_status,
}
use turbocat.Orchestrator.Jobs.Status.Effect.{updated_job_times}
use turbocat.Agent.Executor.{Source, Report, running_report, final_report, run_sync, run_job}
use turbocat.Agent.Executor.Reports.{run_job_reports}
use turbocat.Agent.Client.{count_of, body_of}
use turbocat.Cycle.Reporting.{
  report_to, final_report-IsTerminal, rows_synced-updated_job, Holds, started, ended,
  report_to-state, report_to-arrived,
}

or_else-none {ℓ} : {A : Type ℓ} (o : Option A) → or_else o none ≡ o
or_else-none none = refl
or_else-none (some a) = refl

terminal_not_running :
    (status : String) → is_terminal status ≡ true → str_eq status JobStatus.running ≡ false
unfolding is_terminal
terminal_not_running status h = elim (Bool-cases (str_eq status JobStatus.running)) [
  | inr other ↦ other
  | inl same ↦
      let e = (eq_iff status JobStatus.running).0 same in
      let t : is_terminal "running" ≡ true = ap is_terminal (sym e) ∙ h in
      absurd (ground (arith, t))
]

-- The row of a job whose run has ended.
pub record IsRecorded (job job' : JobRun) (start end : Option ℕ) (report : Report) : Type 0 where
  pub status : job'.status ≡ report.status
  pub is_over : is_terminal job'.status ≡ true
  pub started_at : job'.started_at ≡ or_else job.started_at start
  pub completed_at : job'.completed_at ≡ end
  pub rows_synced : job'.rows_synced ≡ count_of report.rows_synced

-- The outcome is written over a row whose start is `start`.
outcome-IsRecorded :
    (now : ℕ) (outcome : Result SyncResult) (job job₁ : JobRun) (start : Option ℕ)
    → job₁.started_at ≡ or_else job.started_at start
    → IsRecorded job
        (updated_job now (body_of (final_report outcome)) job₁)
        start
        (some now)
        (final_report outcome)
unfolding body_of
outcome-IsRecorded now outcome job job₁ start began =
    let report = final_report outcome in
    let (status, start_time, end_time) = updated_job_times now (body_of report) job₁ in
    let over = final_report-IsTerminal outcome in
    record {
      status = status;
      is_over = ap is_terminal status ∙ over;
      started_at =
          start_time
          ∙ rw (terminal_not_running report.status over) (or_else-none job₁.started_at)
          ∙ began;
      completed_at = end_time ∙ rw over refl;
      rows_synced = rows_synced-updated_job now (body_of report) job₁;
    }

-- The row and the tables after the first report, whether it arrives or not.
first_report :
    (arrives : ℕ → Bool) (clock : ℕ → ℕ) (job_id : ℕ) (db : Db) (job : JobRun) (p : Pipeline)
    → Holds db job_id job p
    → (db₁ : Db) × (job₁ : JobRun) × ((report_to arrives clock job_id running_report (0, db)).1
        ≡ (1, db₁))
      × Holds db₁ job_id job₁ p
      × (job₁.started_at ≡ or_else job.started_at (if arrives 0 then some (clock 0) else none))
unfolding body_of
first_report arrives clock job_id db job p there =
    let moved = report_to-state arrives clock job_id running_report 0 db in
    elim (Bool-cases (arrives 0)) [
      | inr lost ↦
          (db, job, moved ∙ rw lost refl, there, rw lost (sym (or_else-none job.started_at)))
      | inl came ↦
          let body = body_of running_report in
          let (_, start, _) = updated_job_times (clock 0) body job in
          (
            (update_job_status (clock 0) job_id body db).1,
            updated_job (clock 0) body job,
            moved ∙ rw came refl,
            started job_id db job p there (clock 0),
            rw came start,
          )
    ]

-- Of a job and a pipeline that the tables hold, where the last report arrives and fewer than 2 ^ 31
-- rows were loaded: after the run, whatever the first report came to and however the sync went,
-- the row of the job has the status of the outcome, which is success or failed, and its number of
-- rows; its end is the time of the last report, and its start the time of the first, unless it
-- had one before or the first report was lost.
pub run_job-IsRecorded :
    {Config S : Type 0} (isoformat : ℕ → String) (duration : ℕ)
    (make_config : ConfigClass → Dict Value → Result Config)
    (make_source : ConnectorClass → Config → Result Source) (connect : Exec S (Unit {0}))
    (load : Load S) (arrives : ℕ → Bool) (clock : ℕ → ℕ) (payload : JobPayload) (s : S) (job_id : ℕ)
    (db : Db) (job : JobRun) (p : Pipeline)
    → find job_key job_id db.job_runs ≡ some job
    → find pipeline_key job.pipeline_id db.pipelines ≡ some p
    → arrives 1 ≡ true
    → let outcome =
        (run_sync isoformat duration make_config make_source connect load payload s).0 in
      let (_, (_, db')) =
        run_job isoformat duration make_config make_source connect load
          (report_to arrives clock job_id)
          payload
          s
          (0, db) in
      ((n : ℕ) → (final_report outcome).rows_synced ≡ some n → n < 2 ^ 31)
      → (job' : JobRun) × (find job_key job_id db'.job_runs ≡ some job')
        × IsRecorded job job'
            (if arrives 0 then some (clock 0) else none)
            (some (clock 1))
            (final_report outcome)
run_job-IsRecorded isoformat duration make_config make_source connect load arrives clock payload s
      job_id db job p found owner came small =
    let report_status = report_to arrives clock job_id in
    let outcome = (run_sync isoformat duration make_config make_source connect load payload s).0 in
    let (db₁, job₁, first, there, began) =
      first_report arrives clock job_id db job p (found, owner) in
    let reported =
      run_job_reports isoformat duration make_config make_source connect load report_status payload
        s (0, db) in
    let last =
      ap (λ out. out.1.1) reported
      ∙ ap (λ (r : ℕ × Db). (report_status (final_report outcome) r).1.1) first
      ∙ report_to-arrived arrives clock job_id (final_report outcome) 1 db₁ came in
    (
      updated_job (clock 1) (body_of (final_report outcome)) job₁,
      ap (λ (d : Db). find job_key job_id d.job_runs) last
          ∙ ended job_id db₁ job₁ p there (clock 1) outcome small,
      outcome-IsRecorded (clock 1) outcome job job₁ _ began,
    )
