-- ===== src/Cycle.antt =====
-- One cycle of a pipeline through both programs: the job's window, the sync of the agent, the report
-- of its outcome, and the window of the next job.
pub mod Reporting
pub mod Recorded
pub mod Timeline
use mathlib.Core.Option
use turbocat.Prelude.{
  ℕ, String, Bool, true, false, ◌≡◌, ◌≢◌, refl, sym, ap, ◌∙◌, Option, none, some, [], ◌∷◌, Result,
  ok, err, is_ok, Exc, arith, ◌==◌, ==_refl, str_eq, eq_iff, if◌then◌else◌, ◌>>=◌, ok_inj,
  Bool-cases, inl, inr,
}
use turbocat.Prelude.Exec.{Exec, run-ok}
use turbocat.Python.Dict.{Dict, get?}
use turbocat.Python.Value.{Value, text, truthy}
use turbocat.Connectors.Base.Schema.{SyncResult}
use turbocat.Connectors.Base.Sync.{Load, Counts, report, sync, next_cursor}
use turbocat.Connectors.Registry.{ConnectorClass, ConfigClass, lookup}
use turbocat.Orchestrator.Table.{find}
use turbocat.Orchestrator.Models.{Pipeline, JobRun, Db}
use turbocat.Orchestrator.Jobs.Payload.{
  JobPayload, Services, start_of, minus_lookback, lookback_of, parse_time, state_or_empty,
}
use turbocat.Orchestrator.Jobs.Status.{
  StatusUpdate, job_key, pipeline_key, new_cursor, update_job_status,
}
use turbocat.Orchestrator.Jobs.Status.Rows.{
  update_job_status_atomic, update_job_status_rows, with_cursor,
}
use turbocat.Agent.Executor.{Source, merged, final_report, sync_job, run_sync}
use turbocat.Agent.Executor.Reports.{final_report_success}
use turbocat.Agent.Client.{body_of}

module _ {Config S : Type 0} (isoformat : ℕ → String) (duration : ℕ)
    (make_config : ConfigClass → Dict Value → Result Config)
    (make_source : ConnectorClass → Config → Result Source) (connect : Exec S (Unit {0}))
    (load : Load S) where
  abbrev outcome : JobPayload → S → Result SyncResult
  outcome payload s = (run_sync isoformat duration make_config make_source connect load payload s).0

  report_moves :
      (end_time : Option ℕ) (state : Option (Dict Value)) (now : ℕ) (o : Option Exc) (c : Counts)
      (result : SyncResult)
      → end_time ≡ some now
      → ok (report isoformat duration end_time state o c) ≡ ok result
      → result.status ≡ "success"
      → result.next_state ≡ ("last_sync_at", text (isoformat now)) ∷ []
  unfolding next_cursor
  report_moves end_time state now none c result ends same success =
      sym (ap (λ (x : SyncResult). x.next_state) (ok_inj same))
      ∙ ap (λ t. next_cursor isoformat t state) ends
  report_moves end_time state now (some e) c result ends same success = absurd (
      ground (
        arith,
        eq_iff "error" "success",
        ap (λ (x : SyncResult). x.status) (ok_inj same) ∙ success,
      ))

  pub run_sync_moves :
      (payload : JobPayload) (now : ℕ) (s : S) (result : SyncResult)
      → payload.end_time ≡ some now
      → outcome payload s ≡ ok result
      → result.status ≡ "success"
      → result.next_state ≡ ("last_sync_at", text (isoformat now)) ∷ []
  unfolding run_sync sync_job sync
  run_sync_moves payload now s result ends h success =
      let (classes, _, h₁) = run-ok (λ (s : S). (lookup payload.connector, s)) _ s h in
      let (config, _, h₂) =
        run-ok (λ (s : S). (make_config classes.1 (merged payload), s)) _ s h₁ in
      let (source, _, h₃) = run-ok (λ (s : S). (make_source classes.0 config, s)) _ s h₂ in
      let (_, _, h₄) = run-ok connect _ s h₃ in
      report_moves payload.end_time _ now _ _ result ends h₄ success

pub success_cursor :
    (result : SyncResult) (k : String) (v : Value)
    → result.status ≡ "success"
    → result.next_state ≡ (k, v) ∷ []
    → new_cursor (body_of (final_report (ok result))) ≡ some ((k, v) ∷ [])
unfolding new_cursor body_of final_report
success_cursor result k v success moved =
    rw ((eq_iff result.status "success").1 success, moved) refl

pub failure_cursor :
    (outcome : Result SyncResult)
    → (final_report outcome).status ≢ "success"
    → new_cursor (body_of (final_report outcome)) ≡ none
unfolding new_cursor body_of final_report
failure_cursor (err e) h = refl
failure_cursor (ok result) h = elim (Bool-cases (str_eq result.status "success")) [
  | inl p ↦ absurd (h (rw p))
  | inr p ↦ rw p
]

start_from :
    (services : Services) (params : Dict Value) (s : String) (now : ℕ)
    → s ≢ ""
    → services.fromisoformat s ≡ ok now
    → start_of services (("last_sync_at", text s) ∷ []) params
      ≡ (do t ← minus_lookback services now (lookback_of params); ok (some t))
unfolding start_of parse_time truthy get?
start_from services params s now full parsed = rw (parsed) (ground (arith, eq_iff s ""))

pipeline_after :
    (later job_id : ℕ) (body : StatusUpdate) (db : Db) (job : JobRun) (p : Pipeline)
    → find job_key job_id db.job_runs ≡ some job
    → find pipeline_key job.pipeline_id db.pipelines ≡ some p
    → is_ok (update_job_status later job_id body db).0 ≡ true
    → find pipeline_key job.pipeline_id (update_job_status later job_id body db).1.pipelines
      ≡ some (with_cursor (new_cursor body) p)
pipeline_after later job_id body db job p found owner accepted =
    let (_, pipelines, _, _) = update_job_status_rows later job_id body db job found accepted in
    pipelines job.pipeline_id ∙ rw (==_refl job.pipeline_id, owner) refl

-- Where `fromisoformat` reads back what `isoformat` writes for `now`, which is not the empty text:
-- once the agent has run a payload whose window ends at `now`, its outcome is reported as a
-- success, and the report is accepted for a job of the database, then the next window of the job's
-- pipeline starts at `now` less the pipeline's lookback, whatever its cursor was before.
pub next_window :
    {Config S : Type 0} (isoformat : ℕ → String) (duration : ℕ)
    (make_config : ConfigClass → Dict Value → Result Config)
    (make_source : ConnectorClass → Config → Result Source) (connect : Exec S (Unit {0}))
    (load : Load S) (services : Services) (payload : JobPayload) (now later job_id : ℕ) (s : S)
    (db : Db) (job : JobRun) (p : Pipeline)
    → isoformat now ≢ ""
    → services.fromisoformat (isoformat now) ≡ ok now
    → payload.end_time ≡ some now
    → find job_key job_id db.job_runs ≡ some job
    → find pipeline_key job.pipeline_id db.pipelines ≡ some p
    → let result = (run_sync isoformat duration make_config make_source connect load payload s).0 in
      let (answer, db') = update_job_status later job_id (body_of (final_report result)) db in
      (final_report result).status ≡ "success"
      → is_ok answer ≡ true
      → (p' : Pipeline) × (find pipeline_key job.pipeline_id db'.pipelines ≡ some p')
        × (start_of services (state_or_empty p'.state) p'.params
            ≡ (do t ← minus_lookback services now (lookback_of p.params); ok (some t)))
next_window isoformat duration make_config make_source connect load services payload now later
      job_id s db job p full inverse ends found owner success accepted =
    let outcome = (run_sync isoformat duration make_config make_source connect load payload s).0 in
    let (result, same, succeeded) = (final_report_success outcome).0 success in
    let moved =
      run_sync_moves isoformat duration make_config make_source connect load payload now s result
        ends same succeeded in
    let cursor : new_cursor (body_of (final_report outcome))
        ≡ some (("last_sync_at", text (isoformat now)) ∷ []) =
      ap (λ o. new_cursor (body_of (final_report o))) same
      ∙ success_cursor result "last_sync_at" (text (isoformat now)) succeeded moved in
    (
      record p { state = some (("last_sync_at", text (isoformat now)) ∷ []) },
      pipeline_after later job_id (body_of (final_report outcome)) db job p found owner accepted
          ∙ ap (λ c. some (with_cursor c p)) cursor,
      start_from services p.params (isoformat now) now full inverse,
    )

pub same_row :
    (b : Bool) (o : Option Pipeline) → (if b then Option.map (with_cursor none) o else o) ≡ o
same_row true none = refl
same_row true (some p) = refl
same_row false o = refl
