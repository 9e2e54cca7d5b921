-- ===== src/Orchestrator/Jobs/Interleaving.antt =====
-- Polls of several agents, reports and ticks of the schedule, interleaved. `get_pending_jobs` is two
-- steps: the SELECT … FOR UPDATE SKIP LOCKED, which locks the rows that it returns, and the commit,
-- which writes them and releases the locks; in between the transaction may fail. `Dispatch` runs the
-- two at once.
pub mod Invariant
pub mod Moves
pub mod NoDoubles
use turbocat.Prelude.{
  ℕ, ◌+◌, ◌<◌, Bool, true, false, not, ◌≡◌, ◌≢◌, Option, none, some, List, [], ◌∷◌, ◌++◌, map, ltb,
  is_nil, is_ok, times,
}
use turbocat.Orchestrator.Models.{JobRun, Db}
use turbocat.Orchestrator.Models.JobStatus
use turbocat.Orchestrator.Jobs.Dispatch.{has_id, ids_of, mark, claim}
use turbocat.Orchestrator.Jobs.Status.{StatusUpdate, update_job_status}
use turbocat.Orchestrator.Scheduler.{enqueue_job}

-- `open_claims`: the rows that each open transaction has locked. `claims`: the jobs of all the commits.
pub record State : Type 0 where
  pub db : Db
  pub open_claims : List (List ℕ)
  pub claims : List ℕ

unfoldable pub held : ℕ → List (List ℕ) → ℕ
unfolding times
held k [] = 0
held k (ids ∷ txs) = times k ids + held k txs

-- Is the row locked by an open transaction?
abbrev pub locked_by : List (List ℕ) → ℕ → Bool
locked_by txs k = ltb 0 (held k txs)

abbrev pub selected : State → ℕ → List ℕ
selected s agent_id = claim (locked_by s.open_claims) agent_id s.db.job_runs

abbrev pub committed : List ℕ → Db → Db
committed ids db = record db { job_runs = map (mark ids) db.job_runs }

pub data Step (s : State) : State → Type 0 where
  select : (agent_id : ℕ) → Step s (record s { open_claims = selected s agent_id ∷ s.open_claims })
  commit :
      (ids : List ℕ) (before after : List (List ℕ))
      → s.open_claims ≡ before ++ ids ∷ after
      → Step s (record {
        db = committed ids s.db;
        open_claims = before ++ after;
        claims = ids ++ s.claims;
      })
  abort :
      (ids : List ℕ) (before after : List (List ℕ))
      → s.open_claims ≡ before ++ ids ∷ after
      → Step s (record s { open_claims = before ++ after })
  -- No report of the agent says "pending". A row that is locked makes the report wait.
  report :
      (now job_id : ℕ) (body : StatusUpdate)
      → body.status ≢ JobStatus.pending
      → locked_by s.open_claims job_id ≡ false
      → Step s (record s { db = (update_job_status now job_id body s.db).1 })
  -- The UUID of a new row is new.
  tick :
      (job_id pipeline_id agent_id : ℕ)
      → has_id (ids_of s.db.job_runs) job_id ≡ false
      → Step s (record s { db = (enqueue_job job_id pipeline_id agent_id s.db).1 })

pub data Reach (db : Db) : State → Type 0 where
  start : Reach db (record { db = db; open_claims = []; claims = [] })
  later : {s t : State} → Reach db s → Step s t → Reach db t
