-- ===== src/Agent/Loop.antt =====
-- agent.py's event loop and the shutdown of main.py, as steps of the asyncio scheduler. A poll is two
-- steps, the test for capacity and what follows the answer, with the request to the orchestrator
-- between them; tasks start and end in any order. The heartbeats do not touch this state.
pub mod Bounds
pub mod Jobs
pub mod Overclaim
pub mod Drain
use turbocat.Prelude.{ℕ, suc, ◌+◌, ◌<◌, ◌≡◌, ◌≢◌, List, [], ◌∷◌, ◌++◌, map, length, times}
use turbocat.Orchestrator.Jobs.Payload.{JobPayload}

-- Where `_poll_loop` stands: in `asyncio.sleep`, in `get_pending_jobs`, with the jobs that it
-- returned, or cancelled.
pub data Phase : Type 0 where
  sleeping asking stopped : Phase
  answered : List JobPayload → Phase

-- `permits` is what the semaphore has left. `_active_tasks` is `waiting` for the semaphore and `running` with it. `claimed` is all that the
-- orchestrator has handed to this agent, `lost` what of it never became a task.
pub record State : Type 0 where
  pub phase : Phase
  pub permits : ℕ
  pub waiting : List JobPayload
  pub running : List JobPayload
  pub finished : List JobPayload
  pub claimed : List JobPayload
  pub lost : List JobPayload

abbrev pub active : State → ℕ
active s = length s.waiting + length s.running

-- The agent after `__init__`, whose semaphore has `permits`.
abbrev pub init : ℕ → State
init permits = record {
  phase = sleeping;
  permits = permits;
  waiting = [];
  running = [];
  finished = [];
  claimed = [];
  lost = [];
}

-- `_spawn` for each of the jobs.
unfoldable pub spawned : List JobPayload → State → State
spawned jobs s = record s { phase = sleeping; waiting = s.waiting ++ jobs }

-- The jobs of a response that the loop has not yet spawned.
abbrev pub in_hand : Phase → List JobPayload
in_hand (answered jobs) = jobs
in_hand _ = []

module _ (max_workers : ℕ) where
  pub data Step (s : State) : State → Type 0 where
    -- available > 0
    ask : s.phase ≡ sleeping → active s < max_workers → Step s (record s { phase = asking })
    answer :
        (jobs : List JobPayload)
        → s.phase ≡ asking
        → Step s (record s { phase = answered jobs; claimed = jobs ++ s.claimed })
    -- The call raises; the orchestrator may have claimed jobs for it before the connection broke.
    fail :
        (jobs : List JobPayload)
        → s.phase ≡ asking
        → Step s (record s { phase = sleeping; claimed = jobs ++ s.claimed; lost = jobs ++ s.lost })
    spawn : (jobs : List JobPayload) → s.phase ≡ answered jobs → Step s (spawned jobs s)
    -- `async with self._semaphore` takes a permit.
    begin :
        (job : JobPayload) (before after : List JobPayload) (permits : ℕ)
        → s.waiting ≡ before ++ job ∷ after
        → s.permits ≡ suc permits
        → Step s
            (record s { permits = permits; waiting = before ++ after; running = job ∷ s.running })
    -- `run_job` returns, or raises: the permit is given back, the task is over and leaves the set.
    end :
        (job : JobPayload) (before after : List JobPayload)
        → s.running ≡ before ++ job ∷ after
        → Step s (record s {
          permits = suc s.permits;
          running = before ++ after;
          finished = job ∷ s.finished;
        })
    -- The signal cancels the loop. The thread of a request that is under way goes on, and the jobs that
    -- it claims reach nobody.
    stop :
        (jobs : List JobPayload)
        → s.phase ≢ stopped
        → (s.phase ≢ asking → jobs ≡ [])
        → Step s (record s {
          phase = stopped;
          claimed = jobs ++ s.claimed;
          lost = jobs ++ in_hand s.phase ++ s.lost;
        })

  pub data Reach : State → State → Type 0 where
    here : {s : State} → Reach s s
    next : {s t u : State} → Reach s t → Step t u → Reach s u

-- How many of the jobs have the id k.
unfoldable pub count : ℕ → List JobPayload → ℕ
unfolding times
count k jobs = times k (map (λ job. job.job_id) jobs)
