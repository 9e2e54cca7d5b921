-- ===== src/Orchestrator/Jobs/Status/Rows.antt =====
-- The rows that a status report writes, by what the handler computes.
use mathlib.Core.Option
use turbocat.Prelude.{
  ℕ, true, false, ◌≡◌, ◌↔◌, refl, ap, ◌∙◌, Option, none, some, List, ok, is_ok, arith, ◌==◌, ==_iff,
  eq_iff, is_nil, if◌then◌else◌, Option-cases, Result-cases, inl, inr,
}
use turbocat.Python.Dict.{Dict}
use turbocat.Python.Value.{Value}
use turbocat.Orchestrator.Table.{find, replace, find-key, find-replace}
use turbocat.Orchestrator.Models.{Pipeline, JobRun, Db}
use turbocat.Orchestrator.Models.JobStatus
use turbocat.Orchestrator.Jobs.Status.{
  StatusUpdate, pipeline_key, job_key, updated_job, new_cursor, set_cursor, status_ok,
  update_job_status,
}

-- A report that is refused, for whatever reason, changes nothing.
pub update_job_status_atomic :
    (now job_id : ℕ) (body : StatusUpdate) (db : Db)
    → is_ok (update_job_status now job_id body db).0 ≡ false
    → (update_job_status now job_id body db).1 ≡ db
unfolding update_job_status
update_job_status_atomic now job_id body db h = ground arith

-- The cursors after a report: that of the job's pipeline is `cursor`, if there is one.
abbrev pub with_cursor : Option (Dict Value) → Pipeline → Pipeline
with_cursor none p = p
with_cursor (some d) p = record p { state = some d }

pub map-none : (o : Option Pipeline) → Option.map (with_cursor none) o ≡ o
map-none none = refl
map-none (some p) = refl

set_cursor-find :
    (cursor : Option (Dict Value)) (job : JobRun) (pipelines after : List Pipeline)
    → set_cursor cursor job pipelines ≡ ok after
    → (k : ℕ)
    → find pipeline_key k after ≡ (
        if job.pipeline_id == k
        then Option.map (with_cursor cursor) (find pipeline_key k pipelines)
        else find pipeline_key k pipelines)
unfolding set_cursor
set_cursor-find none job pipelines after h k =
    ground (arith, map-none (find pipeline_key k pipelines))
set_cursor-find (some d) job pipelines after h k =
    elim (Option-cases (find pipeline_key job.pipeline_id pipelines)) [
      | inl missing ↦ ground arith
      | inr (p, found) ↦
          let new : Pipeline = record p { state = some d } in
          let same = find-key pipeline_key job.pipeline_id pipelines p found in
          ground (
            arith,
            found,
            same,
            ==_iff job.pipeline_id k,
            find-replace pipeline_key k new p pipelines
                (ap (λ i. find pipeline_key i pipelines) same ∙ found),
          )
    ]

-- The cursor is written exactly by a report of success that carries a next state that is not empty.
pub new_cursor_iff :
    (body : StatusUpdate) (d : Dict Value)
    → (new_cursor body ≡ some d)
      ↔ ((body.status ≡ JobStatus.success) × (body.next_state ≡ some d) × (is_nil d ≡ false))
unfolding new_cursor
new_cursor_iff body d = (
  λ h. ground (arith, eq_iff body.status JobStatus.success),
  λ h. ground (arith, h.0, h.1, h.2, eq_iff body.status JobStatus.success),
)

job_id-updated_job :
    (now : ℕ) (body : StatusUpdate) (job : JobRun) → (updated_job now body job).job_id ≡ job.job_id
unfolding updated_job
job_id-updated_job now body job = ground arith

accepted_form :
    (now job_id : ℕ) (body : StatusUpdate) (db : Db) (job : JobRun)
    → find job_key job_id db.job_runs ≡ some job
    → is_ok (update_job_status now job_id body db).0 ≡ true
    → (pipelines : List Pipeline) × (set_cursor (new_cursor body) job db.pipelines ≡ ok pipelines)
      × (update_job_status now job_id body db ≡ (
        ok status_ok,
        record db {
          pipelines = pipelines;
          job_runs = replace job_key (updated_job now body job) db.job_runs;
        },
      ))
unfolding update_job_status
accepted_form now job_id body db job found accepted =
    elim (Result-cases (set_cursor (new_cursor body) job db.pipelines)) [
      | inr (e, p) ↦ absurd (ground (arith, found))
      | inl (pipelines, p) ↦ (pipelines, p, ground (arith, found))
    ]

-- The rows after a report that is accepted, by what the handler computes.
pub update_job_status_rows :
    (now job_id : ℕ) (body : StatusUpdate) (db : Db) (job : JobRun)
    → find job_key job_id db.job_runs ≡ some job
    → is_ok (update_job_status now job_id body db).0 ≡ true
    → let db' = (update_job_status now job_id body db).1 in
      ((k : ℕ)
        → find job_key k db'.job_runs
          ≡ (if job_id == k then some (updated_job now body job) else find job_key k db.job_runs))
      × ((k : ℕ)
          → find pipeline_key k db'.pipelines ≡ (
              if job.pipeline_id == k
              then Option.map (with_cursor (new_cursor body)) (find pipeline_key k db.pipelines)
              else find pipeline_key k db.pipelines))
      × (db'.connections ≡ db.connections)
      × (db'.agents ≡ db.agents)
update_job_status_rows now job_id body db job found accepted =
    let (pipelines, p, form) = accepted_form now job_id body db job found accepted in
    let id = find-key job_key job_id db.job_runs job found in
    rw form (
      λ k. ground (
        arith,
        id,
        job_id-updated_job now body job,
        ==_iff job_id k,
        find-replace job_key k (updated_job now body job) job db.job_runs
            (ap (λ i. find job_key i db.job_runs) (job_id-updated_job now body job ∙ id) ∙ found),
      ),
      set_cursor-find (new_cursor body) job db.pipelines pipelines p,
      refl,
      refl,
    )
