-- ===== src/Agent/Loop/Overclaim.antt =====
-- What the loop does that its documentation excludes.
use turbocat.Prelude.{ℕ, ◌<◌, ◌≡◌, ◌≢◌, refl, ◌∙◌, List, [], ◌++◌, length, append-nil, arith}
use turbocat.Orchestrator.Jobs.Payload.{JobPayload}
use turbocat.Agent.Loop.{
  Phase, State, active, init, spawned, ask, answer, spawn, stop, Reach, here, next,
}

asking_ne_stopped : ◌≢◌ {A = Phase} Phase.asking Phase.stopped
asking_ne_stopped h = cc

module _ (max_workers : ℕ) (room : 0 < max_workers) (jobs : List JobPayload) where
  abbrev start : State
  start = init max_workers

  asked : Reach max_workers start (record start { phase = Phase.asking })
  asked = next here (ask refl room)

  answered :
      Reach max_workers start (record start { phase = Phase.answered jobs; claimed = jobs ++ [] })
  answered = next asked (answer jobs refl)

  -- With any number of workers that is not 0, and whatever jobs the answer of one poll holds, however
  -- many: the loop reaches a state in which the agent has claimed them all and all are its tasks.
  pub overclaim :
      (s : State) × Reach max_workers start s × (s.claimed ≡ jobs) × (active s ≡ length jobs)
  unfolding spawned
  overclaim = (
    spawned jobs (record start { phase = Phase.answered jobs; claimed = jobs ++ [] }),
    next answered (spawn jobs refl),
    append-nil jobs,
    omega arith,
  )

  -- A signal that comes while a poll is under way loses the jobs that the poll claims: the loop is
  -- stopped, and they are neither tasks nor finished.
  pub stop_loses_jobs :
      (s : State) × Reach max_workers start s
      × (s.phase ≡ Phase.stopped)
      × (s.claimed ≡ jobs)
      × (s.lost ≡ jobs)
      × (s.waiting ++ s.running ++ s.finished ≡ [])
  stop_loses_jobs = (
    record start { phase = Phase.stopped; claimed = jobs ++ []; lost = jobs ++ [] ++ [] },
    next asked (stop jobs asking_ne_stopped (λ other. absurd (other refl))),
    refl,
    append-nil jobs,
    append-nil (jobs ++ []) ∙ append-nil jobs,
    refl,
  )
