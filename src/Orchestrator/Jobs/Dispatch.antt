-- ===== src/Orchestrator/Jobs/Dispatch.antt =====
-- `get_pending_jobs`.
pub mod Claims
pub mod Delivery
use turbocat.Prelude.{
  ℕ, zero, suc, String, Bool, true, false, ◌&&◌, ◌||◌, not, ◌≡◌, refl, Option, none, some, List, [],
  ◌∷◌, map, filter, Result, ok, err, Exc, ◌==◌, str_eq, is_nil, if◌then◌else◌,
}
use turbocat.Prelude.Exec.{Exec}
use turbocat.Orchestrator.Models.{Pipeline, JobRun, Db}
use turbocat.Orchestrator.Models.JobStatus
use turbocat.Orchestrator.Jobs.Payload.{JobPayload, Services, payloads}

-- The rows of the SELECT … FOR UPDATE SKIP LOCKED; `locked` says which rows other open
-- transactions hold.
unfoldable pub claimable : (ℕ → Bool) → ℕ → JobRun → Bool
claimable locked agent_id job =
    job.agent_id == agent_id && str_eq job.status JobStatus.pending && not (locked job.job_id)

unfoldable pub has_id : List ℕ → ℕ → Bool
has_id [] k = false
has_id (i ∷ ids) k = i == k || has_id ids k

abbrev pub ids_of : List JobRun → List ℕ
ids_of = map (λ j. j.job_id)

-- `job.status = JobStatus.DISPATCHED` for each of the jobs, as the commit writes it.
unfoldable pub mark : List ℕ → JobRun → JobRun
unfolding has_id
mark ids job = if has_id ids job.job_id then record job { status = JobStatus.dispatched } else job

unfoldable pub claim : (ℕ → Bool) → ℕ → List JobRun → List ℕ
unfolding claimable
claim locked agent_id jobs = ids_of (filter (claimable locked agent_id) jobs)

-- The commit, and then the reload and the payloads: an exception there undoes nothing.
unfoldable pub get_pending_jobs : Services → (ℕ → Bool) → ℕ → ℕ → Exec Db (List JobPayload)
unfolding claim mark
get_pending_jobs services locked now agent_id db =
    let job_ids = claim locked agent_id db.job_runs in
    let db' = record db { job_runs = map (mark job_ids) db.job_runs } in
    if is_nil job_ids then (ok [], db) else (
      payloads services now db'
          (services.row_order (filter (λ j. has_id job_ids j.job_id) db'.job_runs)),
      db',
    )
