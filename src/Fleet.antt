-- ===== src/Fleet.antt =====
-- The orchestrator and any number of agents together: `Jobs/Interleaving` on the one side, `Agent/Loop`
-- on the other, and between them the answers of `get_pending_jobs` (client.py) that are on their way.
-- All agents are given one number of workers here.
pub mod AtMostOnce
use turbocat.Prelude.{ℕ, ◌+◌, ◌≤◌, ◌≡◌, ◌⊎◌, List, [], ◌∷◌, ◌++◌, map}
use turbocat.Orchestrator.Models.{Db}
use turbocat.Orchestrator.Jobs.Payload.{JobPayload}
use turbocat.Orchestrator.Jobs.Interleaving as Server
use turbocat.Agent.Loop as Loop
use turbocat.Agent.Loop.{init, count}

pub record State : Type 0 where
  pub server : Server.State
  pub answers : List (List JobPayload)
  pub agents : List Loop.State

abbrev pub job_ids : List JobPayload → List ℕ
job_ids = map (λ (p : JobPayload). p.job_id)

module _ (max_workers : ℕ) where
  pub data Step (s : State) : State → Type 0 where
    -- The server selects, gives up, takes a report, or adds a job.
    serve :
        {t : Server.State}
        → Server.Step s.server t
        → t.claims ≡ s.server.claims
        → Step s (record s { server = t })
    -- A claim is committed; the answer holds its jobs, or none where a payload cannot be built.
    claim :
        {t : Server.State} (ids : List ℕ) (jobs : List JobPayload)
        → Server.Step s.server t
        → t.claims ≡ ids ++ s.server.claims
        → (jobs ≡ []) ⊎ (job_ids jobs ≡ ids)
        → Step s (record s { server = t; answers = jobs ∷ s.answers })
    -- An answer gets lost, or comes to an agent, which may still drop it.
    lose :
        (jobs : List JobPayload) (before after : List (List JobPayload))
        → s.answers ≡ before ++ jobs ∷ after
        → Step s (record s { answers = before ++ after })
    receive :
        {b : Loop.State} (jobs : List JobPayload) (before after : List (List JobPayload))
        (a : Loop.State) (those these : List Loop.State)
        → s.answers ≡ before ++ jobs ∷ after
        → s.agents ≡ those ++ a ∷ these
        → Loop.Step max_workers a b
        → b.claimed ≡ jobs ++ a.claimed
        → Step s (record s { answers = before ++ after; agents = those ++ b ∷ these })
    work :
        {b : Loop.State} (a : Loop.State) (those these : List Loop.State)
        → s.agents ≡ those ++ a ∷ these
        → Loop.Step max_workers a b
        → b.claimed ≡ a.claimed
        → Step s (record s { agents = those ++ b ∷ these })
    -- An agent starts, for the first time or again.
    join : Step s (record s { agents = init max_workers ∷ s.agents })

  pub data Reach (db : Db) : State → Type 0 where
    begin : Reach db (record {
      server = record { db = db; open_claims = []; claims = [] };
      answers = [];
      agents = [];
    })
    further : {s t : State} → Reach db s → Step s t → Reach db t

-- How often the job k stands in the answers, in what the agents were handed, and among the jobs that
-- they run or have run.
unfoldable pub in_answers : ℕ → List (List JobPayload) → ℕ
unfolding count
in_answers k [] = 0
in_answers k (jobs ∷ answers) = count k jobs + in_answers k answers

unfoldable pub handed : ℕ → List Loop.State → ℕ
unfolding count
handed k [] = 0
handed k (a ∷ agents) = count k a.claimed + handed k agents

unfoldable pub runs : ℕ → List Loop.State → ℕ
unfolding count
runs k [] = 0
runs k (a ∷ agents) = count k a.running + count k a.finished + runs k agents
